-- ===== src/Forwarder/Tcp/Ends.antt =====
-- ais_server/forwarder.py: the thread of a TCP worker comes to an end, and its queue is sent.
use ais_server.Prelude.{
  ℕ, suc, ◌+◌, ◌-◌, ◌≤◌, ◌≡◌, refl, ◌∙◌, inl, inr, Bool, true, false, Option, none, some, List, [],
  ◌∷◌, arith, Bool-cases, if◌then◌else◌,
}
use ais_server.Prelude.Text.{Text}
use ais_server.Forwarder.Worker.{
  Queue, Worker, put_nowait, get_nowait, get_or_pass, queued, put_or_evict, put, wake, stop,
  close_sock,
}
use ais_server.Forwarder.Tcp.{
  Place, at_top, waiting, sending, requeueing, ended, Answer, Tcp, top_step, got, send_step,
  tcp_step, Action, put_sentence, stop_worker, work, act, run,
}

-- How many steps a stopped thread has before it, at most.
abbrev pub rank : Place → ℕ
rank ended = 0
rank at_top = 1
rank (requeueing s) = 2
rank (sending s) = 3
rank waiting = 4

-- The steps of the thread among the actions.
abbrev pub works : List Action → ℕ
works [] = 0
works (work answer ∷ actions) = suc (works actions)
works (a ∷ actions) = works actions

-- A stopped worker stays stopped, and its thread has fewer steps before it.
abbrev Shrinks : Tcp → ℕ → Type 0
Shrinks t n = (t.worker.stopped ≡ true) × (rank t.place ≤ n)

got-Shrinks : (t : Tcp) (o : Option (Text × Queue)) → t.worker.stopped ≡ true → Shrinks (got t o) 3
got-Shrinks t none s = (s, omega arith)
got-Shrinks t (some ([], rest)) s = (s, omega arith)
got-Shrinks t (some (c ∷ line, rest)) s = (s, omega arith)

close_sock-stopped : (w : Worker) → (close_sock w).stopped ≡ w.stopped
unfolding close_sock
close_sock-stopped w = elim (Bool-cases w.sock) [ inl e ↦ rw e refl | inr e ↦ rw e refl ]

send_step-Shrinks :
    (t : Tcp) (line : Text) (o : Option Text) (now : ℕ)
    → t.worker.stopped ≡ true
    → Shrinks (send_step t line o now).0 2
unfolding send_step
send_step-Shrinks t line none now s = (s, omega arith)
send_step-Shrinks t line (some message) now s = (
  close_sock-stopped (record t.worker {
    stats = record t.worker.stats {
      connected = false;
      errors = t.worker.stats.errors + 1;
      last_error = message;
    };
  })
      ∙ s,
  omega arith,
)

queued-stopped : (w : Worker) (o : Option Queue) → (queued w o).stopped ≡ w.stopped
queued-stopped w none = refl
queued-stopped w (some q) = refl

work-Shrinks :
    (w : Worker) (place : Place) (backoff : ℕ) (answer : Answer)
    → w.stopped ≡ true
    → let t : Tcp = record { worker = w; place = place; backoff = backoff } in
      Shrinks (tcp_step t answer).0 (rank place - 1)
unfolding tcp_step top_step
work-Shrinks w at_top backoff answer s = by_stop w.stopped _ s
  where
    by_stop :
        (b : Bool) (next : Tcp)
        → b ≡ true
        → Shrinks
            (if b then record { worker = close_sock w; place = ended; backoff = backoff } else next)
            0
    by_stop true next e = (close_sock-stopped w ∙ s, omega arith)
    by_stop false next e = absurd (cc e)
work-Shrinks w waiting backoff answer s =
    got-Shrinks (record { worker = w; place = waiting; backoff = backoff }) (get_nowait w.queue) s
work-Shrinks w (sending line) backoff answer s =
    send_step-Shrinks (record { worker = w; place = sending line; backoff = backoff }) line
      answer.send answer.now s
work-Shrinks w (requeueing line) backoff answer s =
    (queued-stopped w (put_nowait w.queue line) ∙ s, omega arith)
work-Shrinks w ended backoff answer s = (s, omega arith)

put-stopped : (w : Worker) (line : Text) → (put w line).stopped ≡ w.stopped
unfolding put
put-stopped w line = by_room (put_nowait w.queue line)
  where
    by_room : (o : Option Queue) → (put_or_evict w line o).stopped ≡ w.stopped
    by_room (some q) = refl
    by_room none =
        queued-stopped (record w { queue = get_or_pass w.queue })
          (put_nowait (get_or_pass w.queue) line)

stop-stopped : (w : Worker) → (stop w).stopped ≡ true
unfolding stop
stop-stopped w = by_room (put_nowait w.queue [])
  where
    by_room : (o : Option Queue) → (wake (record w { stopped = true }) o).stopped ≡ true
    by_room none = refl
    by_room (some q) = refl

act-Shrinks :
    (t : Tcp) (a : Action)
    → t.worker.stopped ≡ true
    → Shrinks (act t a).0 (rank t.place - works (a ∷ []))
unfolding act
act-Shrinks t (put_sentence line) s = (put-stopped t.worker line ∙ s, omega arith)
act-Shrinks t stop_worker s = (stop-stopped t.worker, omega arith)
act-Shrinks t (work answer) s = work-Shrinks t.worker t.place t.backoff answer s

run-Shrinks :
    (t : Tcp) (actions : List Action)
    → t.worker.stopped ≡ true
    → rank (run t actions).0.place ≤ rank t.place - works actions
unfolding run
run-Shrinks t [] s = omega arith
run-Shrinks t (a ∷ actions) s =
    let next = act-Shrinks t a s in
    omega (arith, run-Shrinks (act t a).0 actions next.0, next.1, works-cons a actions)
  where
    works-cons :
        (a : Action) (actions : List Action) → works (a ∷ actions) ≡ works (a ∷ []) + works actions
    works-cons (put_sentence line) actions = omega arith
    works-cons stop_worker actions = omega arith
    works-cons (work answer) actions = omega arith

rank-ended : (place : Place) → rank place ≤ 0 → place ≡ ended
rank-ended ended h = refl
rank-ended at_top h = absurd (omega arith)
rank-ended (requeueing s) h = absurd (omega arith)
rank-ended (sending s) h = absurd (omega arith)
rank-ended waiting h = absurd (omega arith)

rank-le : (place : Place) → rank place ≤ 4
rank-le ended = omega arith
rank-le at_top = omega arith
rank-le (requeueing s) = omega arith
rank-le (sending s) = omega arith
rank-le waiting = omega arith

-- Once a TCP worker is stopped, its thread ends within four steps of its own, wherever it stands,
-- whatever fails, and however many calls of `put` and `stop` come between the steps.
pub run_stopped_ends :
    (t : Tcp) (actions : List Action)
    → t.worker.stopped ≡ true
    → 4 ≤ works actions
    → (run t actions).0.place ≡ ended
run_stopped_ends t actions s enough =
    rank-ended (run t actions).0.place
      (omega (arith, run-Shrinks t actions s, rank-le t.place, enough))
