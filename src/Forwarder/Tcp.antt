-- ===== src/Forwarder/Tcp.antt =====
-- ais_server/forwarder.py: the loop of a TCP worker (`_run_tcp`) in steps that each call at most one
-- operation that other threads can see, so that calls of `put` and `stop` may come between any two.
pub mod Order
pub mod Count
pub mod Lossless
pub mod Burst
pub mod Ends
pub mod Drained
use ais_server.Prelude.{
  ℕ, ◌+◌, ◌*◌, min, Bool, true, false, Option, none, some, List, [], ◌∷◌, ◌++◌, if◌then◌else◌,
}
use ais_server.Prelude.Text.{Text}
use ais_server.Forwarder.Worker.{
  Queue, Worker, put_nowait, get_nowait, queued, put, stop, close_sock, count_error, count_sent,
}

-- Where the thread stands.
pub data Place : Type 0 where
  at_top : Place
  waiting : Place
  sending : Text → Place
  requeueing : Text → Place
  ended : Place

-- What `create_connection` and `setsockopt` do; an `OSError` comes with its text.
pub data Connect : Type 0 where
  connected : Connect
  refused : Text → Connect
  option_refused : Text → Connect

-- What the outside answers to a step: only the part that the step asks for is used.
pub record Answer : Type 0 where
  pub connect : Connect
  -- The error of `sendall`, if it fails.
  pub send : Option Text
  pub now : ℕ

pub record Tcp : Type 0 where
  pub worker : Worker
  pub place : Place
  pub backoff : ℕ

abbrev pub max_backoff : ℕ
max_backoff = 30000

abbrev pub first_backoff : ℕ
first_backoff = 1000

unfoldable pub start : Worker → Tcp
start w = record { worker = w; place = at_top; backoff = first_backoff }

abbrev pub set_connected : Worker → Bool → Worker
set_connected w b = record w { stats = record w.stats { connected = b } }

-- The thread sleeps for `backoff` before it is at the top again.
abbrev pub connect_failed : Tcp → Bool → Text → Tcp
connect_failed t sock message = record t {
  worker = count_error (set_connected (record t.worker { sock = sock }) false) message;
  backoff = min max_backoff (t.backoff * 2);
}

unfoldable pub connect_step : Tcp → Connect → Tcp
connect_step t connected = record t {
  worker = set_connected (record t.worker { sock = true }) true;
  place = waiting;
  backoff = first_backoff;
}
connect_step t (refused message) = connect_failed t false message
connect_step t (option_refused message) = connect_failed t true message

unfoldable pub top_step : Tcp → Connect → Tcp
unfolding connect_step close_sock
top_step t connect =
    if t.worker.stopped
    then record t { worker = close_sock t.worker; place = ended }
    else (if t.worker.sock then record t { place = waiting } else connect_step t connect)

abbrev pub got : Tcp → Option (Text × Queue) → Tcp
got t none = record t { place = at_top }
got t (some ([], rest)) = record t { worker = record t.worker { queue = rest }; place = at_top }
got t (some (c ∷ s, rest)) = record t {
  worker = record t.worker { queue = rest };
  place = sending (c ∷ s);
}

-- The second result is the sentence that went out, if one did.
unfoldable pub send_step : Tcp → Text → Option Text → ℕ → Tcp × List Text
unfolding close_sock
send_step t s none now = (record t { worker = count_sent t.worker now; place = at_top }, s ∷ [])
send_step t s (some message) now = (
  record t {
    worker = close_sock (count_error (set_connected t.worker false) message);
    place = requeueing s;
  },
  [],
)

unfoldable pub tcp_step : Tcp → Answer → Tcp × List Text
unfolding top_step send_step put_nowait get_nowait
tcp_step t answer = elim t.place [
  | at_top ↦ (top_step t answer.connect, [])
  | waiting ↦ (got t (get_nowait t.worker.queue), [])
  | sending s ↦ send_step t s answer.send answer.now
  | requeueing s ↦
      (record t { worker = queued t.worker (put_nowait t.worker.queue s); place = at_top }, [])
  | ended ↦ (t, [])
]

-- What happens to the worker: a sentence is dispatched to it, it is stopped, its thread goes on.
pub data Action : Type 0 where
  put_sentence : Text → Action
  stop_worker : Action
  work : Answer → Action

unfoldable pub act : Tcp → Action → Tcp × List Text
unfolding put stop tcp_step
act t (put_sentence s) = (record t { worker = put t.worker s }, [])
act t stop_worker = (record t { worker = stop t.worker }, [])
act t (work answer) = tcp_step t answer

-- The state after the actions, and the sentences that went out.
unfoldable pub run : Tcp → List Action → Tcp × List Text
unfolding act
run t [] = (t, [])
run t (a ∷ actions) =
    let (t', out) = act t a in let (t'', outs) = run t' actions in (t'', out ++ outs)
