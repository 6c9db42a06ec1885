-- ===== src/Forwarder/Tcp/Lossless.antt =====
-- What the queue of a TCP worker of ais_server/forwarder.py loses, with a bound and without.
use ais_server.Prelude.{
  ℕ, ◌+◌, ◌≡◌, refl, ap, ◌∙◌, false, Option, none, some, List, [], ◌∷◌, ◌++◌, arith,
}
use ais_server.Prelude.Text.{Text}
use ais_server.Forwarder.Worker.{
  Queue, Worker, is_full, put_nowait, get_nowait, put, stop, queued, close_sock,
}
use ais_server.Forwarder.Tcp.{
  Place, at_top, waiting, sending, requeueing, ended, Connect, connected, refused, option_refused,
  Tcp, connect_step, top_step, got, send_step, tcp_step, Action, put_sentence, stop_worker, work,
  act, run,
}
use ais_server.Forwarder.Tcp.Order.{held, carried, offered_by, offered, top_step_lem}
use ais_server.Forwarder.Tcp.Order.{put_queue}
use ais_server.Forwarder.Tcp.Count.{count, count-append, send_place, queued-items}

abbrev thread : Worker → Place → ℕ → Tcp
thread w p backoff = record { worker = w; place = p; backoff = backoff }

pub put-maxsize : (w : Worker) (s : Text) → (put w s).queue.maxsize ≡ w.queue.maxsize
put-maxsize w s = (put_queue w.ep w.queue.maxsize w.queue.items w.stats w.stopped w.sock s).1

stop-maxsize : (w : Worker) → (stop w).queue.maxsize ≡ w.queue.maxsize
unfolding stop put_nowait
stop-maxsize w = ground arith

top_step-queue : (t : Tcp) (c : Connect) → (top_step t c).worker.queue ≡ t.worker.queue
unfolding top_step connect_step close_sock
top_step-queue t connected = ground arith
top_step-queue t (refused m) = ground arith
top_step-queue t (option_refused m) = ground arith

-- What `get` leaves.
abbrev tail : List Text → List Text
tail [] = []
tail (x ∷ xs) = xs

got-queue :
    (t : Tcp) (m : ℕ) (items : List Text)
    → t.worker.queue ≡ record { maxsize = m; items = items }
    → (got t (get_nowait record { maxsize = m; items = items })).worker.queue
      ≡ record { maxsize = m; items = tail items }
unfolding get_nowait
got-queue t m [] q = q
got-queue t m ([] ∷ rest) q = refl
got-queue t m ((c ∷ s) ∷ rest) q = refl

send_step-queue :
    (t : Tcp) (x : Text) (o : Option Text) (now : ℕ)
    → (send_step t x o now).0.worker.queue ≡ t.worker.queue
unfolding send_step close_sock
send_step-queue t x none now = refl
send_step-queue t x (some m) now = ground arith

queued-maxsize :
    (w : Worker) (s : Text) → (queued w (put_nowait w.queue s)).queue.maxsize ≡ w.queue.maxsize
unfolding put_nowait
queued-maxsize w s = ground arith

-- No action changes the bound of the queue.
act-maxsize :
    (w : Worker) (p : Place) (backoff : ℕ) (a : Action)
    → (act (thread w p backoff) a).0.worker.queue.maxsize ≡ w.queue.maxsize
unfolding act tcp_step
act-maxsize w p backoff (put_sentence s) = put-maxsize w s
act-maxsize w p backoff stop_worker = stop-maxsize w
act-maxsize w at_top backoff (work answer) =
    ap Queue.maxsize (top_step-queue (thread w at_top backoff) answer.connect)
act-maxsize w waiting backoff (work answer) =
    ap Queue.maxsize (got-queue (thread w waiting backoff) w.queue.maxsize w.queue.items refl)
act-maxsize w (sending s) backoff (work answer) =
    ap Queue.maxsize (send_step-queue (thread w (sending s) backoff) s answer.send answer.now)
act-maxsize w (requeueing s) backoff (work answer) = queued-maxsize w s
act-maxsize w ended backoff (work answer) = refl

put_unbounded :
    (w : Worker) (s : Text) → w.queue.maxsize ≡ 0 → (put w s).queue.items ≡ w.queue.items ++ s ∷ []
unfolding put put_nowait
put_unbounded w s h = ground arith

stop_unbounded :
    (w : Worker) → w.queue.maxsize ≡ 0 → (stop w).queue.items ≡ w.queue.items ++ [] ∷ []
unfolding stop put_nowait
stop_unbounded w h = ground arith

got_lossless :
    (s : Text) (n : ℕ) (t : Tcp) (m : ℕ) (items : List Text)
    → t.worker.queue ≡ record { maxsize = m; items = items }
    → t.place ≡ waiting
    → count (n ∷ s) (carried (got t (get_nowait record { maxsize = m; items = items })))
      ≡ count (n ∷ s) items
unfolding get_nowait carried held
got_lossless s n t m [] q h = rw (ap Queue.items q) refl
got_lossless s n t m ([] ∷ rest) q h = refl
got_lossless s n t m ((c ∷ x) ∷ rest) q h = refl

requeue_lossless :
    (w : Worker) (s x : Text)
    → w.queue.maxsize ≡ 0
    → count s (queued w (put_nowait w.queue x)).queue.items ≡ count s (x ∷ w.queue.items)
requeue_lossless w s x h =
    let room : is_full w.queue ≡ false = ground arith in
    rw (queued-items w x, room) (ground (arith, count-append s w.queue.items (x ∷ [])))

act_lossless :
    (n : ℕ) (s : Text) (w : Worker) (p : Place) (backoff : ℕ) (a : Action)
    → w.queue.maxsize ≡ 0
    → count (n ∷ s) (act (thread w p backoff) a).1
        + count (n ∷ s) (carried (act (thread w p backoff) a).0)
      ≡ count (n ∷ s) (carried (thread w p backoff)) + count (n ∷ s) (offered_by a)
unfolding act tcp_step carried held offered_by
act_lossless n s w p backoff (put_sentence x) h = omega (
  arith,
  count-append (n ∷ s) (held p) (put w x).queue.items,
  count-append (n ∷ s) (held p) w.queue.items,
  count-append (n ∷ s) w.queue.items (x ∷ []),
  ap (count (n ∷ s)) (put_unbounded w x h),
)
act_lossless n s w p backoff stop_worker h = omega (
  arith,
  count-append (n ∷ s) (held p) (stop w).queue.items,
  count-append (n ∷ s) (held p) w.queue.items,
  count-append (n ∷ s) w.queue.items ([] ∷ []),
  ap (count (n ∷ s)) (stop_unbounded w h),
)
act_lossless n s w at_top backoff (work answer) h =
    rw (top_step_lem (thread w at_top backoff) answer.connect refl).0 (omega arith)
act_lossless n s w waiting backoff (work answer) h =
    omega
      (arith, got_lossless s n (thread w waiting backoff) w.queue.maxsize w.queue.items refl refl)
act_lossless n s w (sending x) backoff (work answer) h =
    omega (arith, send_place w (n ∷ s) x backoff answer.send answer.now)
act_lossless n s w (requeueing x) backoff (work answer) h =
    omega (arith, requeue_lossless w (n ∷ s) x h)
act_lossless n s w ended backoff (work answer) h = omega arith

-- With a queue without a bound, whatever fails and however the calls of `put` and `stop` fall
-- between the steps of the thread: a sentence that is not empty goes out, is held or is queued
-- exactly as often as it was there or was put. None is lost and none is doubled.
pub run_lossless :
    (n : ℕ) (s : Text) (t : Tcp) (actions : List Action)
    → t.worker.queue.maxsize ≡ 0
    → count (n ∷ s) (run t actions).1 + count (n ∷ s) (carried (run t actions).0)
      ≡ count (n ∷ s) (carried t) + count (n ∷ s) (offered actions)
unfolding run offered
run_lossless n s t [] h = omega arith
run_lossless n s t (a ∷ actions) h =
    let u = act t a in
    let h' : u.0.worker.queue.maxsize ≡ 0 = act-maxsize t.worker t.place t.backoff a ∙ h in
    omega (
      arith,
      act_lossless n s t.worker t.place t.backoff a h,
      run_lossless n s u.0 actions h',
      count-append (n ∷ s) u.1 (run u.0 actions).1,
      count-append (n ∷ s) (offered_by a) (offered actions),
    )
