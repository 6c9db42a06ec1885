-- ===== src/Forwarder/Udp.antt =====
-- ais_server/forwarder.py: the loop of a UDP worker (`_run_udp`), one turn at a time. The option
-- SO_BROADCAST is set once before the loop; its failure is only logged.
use ais_server.Prelude.{
  ℕ, suc, ◌+◌, ◌≡◌, refl, sym, ap, ◌∙◌, ◌⊎◌, inl, inr, true, Option, none, some, List, [], ◌∷◌,
  ◌++◌, arith, if◌then◌else◌, Bool-cases,
}
use ais_server.Prelude.Text.{Text, text_eqb, text_eqb_iff}
use ais_server.Forwarder.Worker.{Queue, Worker, get_nowait, count_error, count_sent}

pub record Udp : Type 0 where
  pub worker : Worker
  pub last_logged_err : Text

pub data Level : Type 0 where
  warning : Level
  debug : Level

-- One turn: what went out, and the log line of a failed send.
pub record Turn : Type 0 where
  pub state : Udp
  pub sent : List Text
  pub logged : Option (Level × Text)

unfoldable pub start : Worker → Udp
start w = record {
  worker = record w { sock = true; stats = record w.stats { connected = true } };
  last_logged_err = [];
}

abbrev pub idle : Udp → Turn
idle u = record { state = u; sent = []; logged = none }

-- `error` is the text of the `OSError` of `sendto`, if it raises one.
unfoldable pub send : Udp → Text → Option Text → ℕ → Turn
send u s none now = record {
  state = record u { worker = count_sent u.worker now };
  sent = s ∷ [];
  logged = none;
}
send u s (some message) now =
    let w = count_error u.worker message in
    if text_eqb message u.last_logged_err
    then record { state = record u { worker = w }; sent = []; logged = some (debug, message) }
    else record {
      state = record { worker = w; last_logged_err = message };
      sent = [];
      logged = some (warning, message);
    }

abbrev pub taken : Udp → Option Text → ℕ → Option (Text × Queue) → Turn
taken u error now none = idle u
taken u error now (some ([], rest)) = idle (record u { worker = record u.worker { queue = rest } })
taken u error now (some (c ∷ s, rest)) =
    send (record u { worker = record u.worker { queue = rest } }) (c ∷ s) error now

-- A turn after `_stop` is set ends the loop instead, which is not a turn.
unfoldable pub turn : Udp → Option Text → ℕ → Turn
unfolding get_nowait send
turn u error now = taken u error now (get_nowait u.worker.queue)

abbrev pub add_line : Option (Level × Text) → List (Level × Text) → List (Level × Text)
add_line none log = log
add_line (some line) log = line ∷ log

-- The state after some turns, what went out, and the log lines, in order.
unfoldable pub run : Udp → List (Option Text × ℕ) → Udp × List Text × List (Level × Text)
unfolding turn
run u [] = (u, [], [])
run u ((error, now) ∷ turns) =
    let t = turn u error now in
    let (last, sent, log) = run t.state turns in (last, t.sent ++ sent, add_line t.logged log)

-- The sentences of a list: an empty text only wakes the thread.
unfoldable pub sentences : List Text → ℕ
sentences [] = 0
sentences ([] ∷ items) = sentences items
sentences ((c ∷ s) ∷ items) = suc (sentences items)

-- A warning for an error that differs from the one before it, a debug line for one that repeats it.
unfoldable pub level_of : Text → Text → Level
level_of last message = if text_eqb message last then debug else warning

abbrev pub IsLogged : Text → List (Level × Text) → Type 0
IsLogged last [] = Unit
IsLogged last ((level, message) ∷ log) = (level ≡ level_of last message) × IsLogged message log

unfoldable accounted : Worker → ℕ
accounted w = w.stats.sent + w.stats.errors + sentences w.queue.items

accounted-taken :
    (u : Udp) (error : Option Text) (now m : ℕ) (items : List Text)
    → u.worker.queue ≡ record { maxsize = m; items = items }
    → accounted (taken u error now (get_nowait record { maxsize = m; items = items })).state.worker
      ≡ accounted u.worker
unfolding accounted get_nowait send sentences
accounted-taken u error now m [] q = refl
accounted-taken u error now m ([] ∷ rest) q = rw (ap Queue.items q) refl
accounted-taken u none now m ((c ∷ s) ∷ rest) q = rw (ap Queue.items q) (omega arith)
accounted-taken u (some message) now m ((c ∷ s) ∷ rest) q =
    elim (Bool-cases (text_eqb message u.last_logged_err)) [
      | inl e ↦ rw (ap Queue.items q, e) (omega arith)
      | inr e ↦ rw (ap Queue.items q, e) (omega arith)
    ]

-- Over any turns, every sentence that leaves the queue is counted once, as sent or as an error.
pub run-accounted :
    (u : Udp) (turns : List (Option Text × ℕ))
    → let w = (run u turns).0.worker in
      w.stats.sent + w.stats.errors + sentences w.queue.items
      ≡ u.worker.stats.sent + u.worker.stats.errors + sentences u.worker.queue.items
unfolding run turn accounted
run-accounted u [] = refl
run-accounted u ((error, now) ∷ turns) =
    run-accounted (turn u error now).state turns
    ∙ accounted-taken u error now u.worker.queue.maxsize u.worker.queue.items refl

turn_logged :
    (u : Udp) (error : Option Text) (now m : ℕ) (items : List Text)
    → u.worker.queue ≡ record { maxsize = m; items = items }
    → let t = taken u error now (get_nowait record { maxsize = m; items = items }) in
      ((t.logged ≡ none) × (t.state.last_logged_err ≡ u.last_logged_err))
      ⊎ ((message : Text) × (t.state.last_logged_err ≡ message)
          × (t.logged ≡ some (level_of u.last_logged_err message, message)))
unfolding get_nowait send level_of
turn_logged u error now m [] q = inl (refl, refl)
turn_logged u error now m ([] ∷ rest) q = inl (refl, refl)
turn_logged u none now m ((c ∷ s) ∷ rest) q = inl (refl, refl)
turn_logged u (some message) now m ((c ∷ s) ∷ rest) q =
    elim (Bool-cases (text_eqb message u.last_logged_err)) [
      | inl e ↦ rw e (
          inr (
            message,
            sym ((text_eqb_iff message u.last_logged_err).0 e),
            ap (λ b. some (if b then debug else warning, message)) (sym e),
          ))
      | inr e ↦
          rw e (inr (message, refl, ap (λ b. some (if b then debug else warning, message)) (sym e)))
    ]

add_line-IsLogged :
    (last next : Text) (o : Option (Level × Text)) (log : List (Level × Text))
    → ((o ≡ none) × (next ≡ last))
      ⊎ ((message : Text) × (next ≡ message) × (o ≡ some (level_of last message, message)))
    → IsLogged next log
    → IsLogged last (add_line o log)
add_line-IsLogged last next o log (inl (quiet, same)) h = rw (quiet, ← same) h
add_line-IsLogged last next o log (inr (message, same, line)) h = rw line (refl, rw (← same) h)

-- The errors that are logged are warnings exactly where they differ from the error before. An error
-- that came earlier, but not last, is a warning again.
pub run-IsLogged :
    (u : Udp) (turns : List (Option Text × ℕ)) → IsLogged u.last_logged_err (run u turns).2
unfolding run turn
run-IsLogged u [] = tt
run-IsLogged u ((error, now) ∷ turns) =
    let t = turn u error now in
    let rest = run-IsLogged t.state turns in
    add_line-IsLogged u.last_logged_err t.state.last_logged_err t.logged (run t.state turns).2
      (turn_logged u error now u.worker.queue.maxsize u.worker.queue.items refl) rest
