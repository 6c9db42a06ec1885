-- ===== src/Forwarder/Worker.antt =====
-- ais_server/forwarder.py: one endpoint's worker with its bounded queue (`queue.Queue`), and the
-- loops of its thread for TCP, UDP and HTTP. One turn of a loop takes what the outside answers as
-- arguments. Times are whole milliseconds.
use ais_server.Prelude.{
  ℕ, ◌+◌, Bool, true, false, ◌&&◌, Option, none, some, List, [], ◌∷◌, ◌++◌, ltb, leb, if◌then◌else◌,
  length,
}
use ais_server.Prelude.Text.{Text}
use ais_server.Prelude.Int.{ℤ}

-- ais_server/db.py: a row of the table `endpoints`
pub record Endpoint : Type 0 where
  pub id : ℕ
  pub name : Text
  pub protocol : Text
  pub host : Text
  pub port : ℤ
  pub path : Option Text
  pub enabled : Bool
  pub created_at : ℕ
  pub updated_at : ℕ
  pub broadcast : Bool

pub record EndpointStats : Type 0 where
  pub sent : ℕ
  pub dropped : ℕ
  pub errors : ℕ
  pub last_error : Text
  pub connected : Bool
  pub last_send : ℕ
  pub queue_depth : ℕ

-- `maxsize` 0 is no bound.
pub record Queue : Type 0 where
  pub maxsize : ℕ
  pub items : List Text

abbrev pub is_full : Queue → Bool
is_full q = ltb 0 q.maxsize && leb q.maxsize (length q.items)

-- `put_nowait`; no result is `queue.Full`.
unfoldable pub put_nowait : Queue → Text → Option Queue
put_nowait q s = if is_full q then none else some (record q { items = q.items ++ s ∷ [] })

-- The queue without its oldest item, if it has one.
unfoldable pub get_nowait : Queue → Option (Text × Queue)
get_nowait q = elim q.items [ [] ↦ none | s ∷ rest ↦ some (s, record q { items = rest }) ]

unfoldable pub get_or_pass : Queue → Queue
unfolding get_nowait
get_or_pass q = elim (get_nowait q) [ none ↦ q | some (s, rest) ↦ rest ]

-- Where the thread of the worker is between two turns of its loop: at the top, or it has ended.
pub record Worker : Type 0 where
  pub ep : Endpoint
  pub queue : Queue
  pub stats : EndpointStats
  pub stopped : Bool
  -- Whether a socket is open.
  pub sock : Bool

unfoldable pub no_stats : EndpointStats
no_stats = record {
  sent = 0;
  dropped = 0;
  errors = 0;
  last_error = [];
  connected = false;
  last_send = 0;
  queue_depth = 0;
}

unfoldable pub new_worker : Endpoint → ℕ → Worker
unfolding no_stats
new_worker ep queue_size = record {
  ep = ep;
  queue = record { maxsize = queue_size; items = [] };
  stats = no_stats;
  stopped = false;
  sock = false;
}

abbrev pub count_dropped : Worker → Worker
count_dropped w = record w { stats = record w.stats { dropped = w.stats.dropped + 1 } }

abbrev pub queued : Worker → Option Queue → Worker
queued w none = count_dropped w
queued w (some q) = record w { queue = q }

abbrev pub put_or_evict : Worker → Text → Option Queue → Worker
put_or_evict w s (some q) = record w { queue = q }
put_or_evict w s none =
    let older = get_or_pass w.queue in queued (record w { queue = older }) (put_nowait older s)

-- One call that no other thread interrupts.
unfoldable pub put : Worker → Text → Worker
unfolding put_nowait get_or_pass
put w s = put_or_evict w s (put_nowait w.queue s)

abbrev pub wake : Worker → Option Queue → Worker
wake w none = w
wake w (some q) = record w { queue = q }

unfoldable pub stop : Worker → Worker
unfolding put_nowait
stop w = let stopping = record w { stopped = true } in wake stopping (put_nowait w.queue [])

unfoldable pub close_sock : Worker → Worker
close_sock w =
    if w.sock then record w { sock = false; stats = record w.stats { connected = false } } else w

-- An `OSError` with its text.
abbrev pub count_error : Worker → Text → Worker
count_error w message = record w {
  stats = record w.stats { errors = w.stats.errors + 1; last_error = message };
}

-- `sent`, `last_send` and `queue_depth` after a sentence went out.
abbrev pub count_sent : Worker → ℕ → Worker
count_sent w now = record w {
  stats = record w.stats {
    sent = w.stats.sent + 1;
    last_send = now;
    queue_depth = length w.queue.items;
  };
}
