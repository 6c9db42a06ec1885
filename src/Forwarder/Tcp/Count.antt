-- ===== src/Forwarder/Tcp/Count.antt =====
-- How often a TCP worker of ais_server/forwarder.py sends what is dispatched to it, whether sends
-- fail or not.
use ais_server.Prelude.{
  ℕ, suc, ◌+◌, ◌≤◌, ◌≡◌, refl, ap, Option, none, some, List, [], ◌∷◌, ◌++◌, arith, if◌then◌else◌,
}
use ais_server.Prelude.Text.{Text, text_eqb}
use mathlib.Core.List.{Sublistᴰ}
use ais_server.Forwarder.Worker.{
  Queue, Worker, is_full, put_nowait, get_nowait, put, stop, queued, close_sock,
}
use ais_server.Forwarder.Tcp.{
  Place, at_top, waiting, sending, requeueing, ended, Tcp, got, send_step, tcp_step, Action,
  put_sentence, stop_worker, work, act, run,
}
use ais_server.Forwarder.Tcp.Order.{
  held, carried, offered_by, offered, put-items, put_items-Sublist, stop-items, stop_items-Sublist,
  top_step_lem,
}

-- How often a sentence stands in a list.
abbrev pub count : Text → List Text → ℕ
count s [] = 0
count s (x ∷ xs) = let rest = count s xs in if text_eqb x s then suc rest else rest

pub count-append : (s : Text) (xs ys : List Text) → count s (xs ++ ys) ≡ count s xs + count s ys
count-append s [] ys = omega arith
count-append s (x ∷ xs) ys = ground (arith, count-append s xs ys)

count-Sublist : (s : Text) (xs ys : List Text) → Sublistᴰ xs ys → count s xs ≤ count s ys
count-Sublist s xs ys Sublistᴰ.slnil = omega arith
count-Sublist s xs (y ∷ ys) (Sublistᴰ.cons h) = ground (arith, count-Sublist s xs ys h)
count-Sublist s (x ∷ xs) (y ∷ ys) (Sublistᴰ.cons-cons e h) =
    rw e (ground (arith, count-Sublist s xs ys h))

-- The queue after the thread put back the sentence that it could not send.
pub queued-items :
    (w : Worker) (s : Text)
    → (queued w (put_nowait w.queue s)).queue.items
      ≡ (if is_full w.queue then w.queue.items else w.queue.items ++ s ∷ [])
unfolding put_nowait
queued-items w s = ground arith

pub send_place :
    (w : Worker) (s x : Text) (backoff : ℕ) (o : Option Text) (now : ℕ)
    → let t : Tcp = record { worker = w; place = sending x; backoff = backoff } in
      let u = send_step t x o now in
      count s u.1 + count s (carried u.0) ≡ count s (x ∷ w.queue.items)
unfolding send_step carried held close_sock
send_place w s x backoff none now = ground arith
send_place w s x backoff (some m) now = ground arith

requeue_bound :
    (w : Worker) (s x : Text)
    → count s (queued w (put_nowait w.queue x)).queue.items ≤ count s (x ∷ w.queue.items)
requeue_bound w s x = rw (queued-items w x) (ground (arith, count-append s w.queue.items (x ∷ [])))

got_bound :
    (t : Tcp) (s : Text) (m : ℕ) (items : List Text)
    → t.worker.queue ≡ record { maxsize = m; items = items }
    → t.place ≡ waiting
    → count s (carried (got t (get_nowait record { maxsize = m; items = items }))) ≤ count s items
unfolding get_nowait carried held
got_bound t s m [] q h = rw (ap Queue.items q) (omega arith)
got_bound t s m ([] ∷ rest) q h = ground arith
got_bound t s m ((c ∷ x) ∷ rest) q h = omega arith

act_bound :
    (s : Text) (w : Worker) (p : Place) (backoff : ℕ) (a : Action)
    → let t : Tcp = record { worker = w; place = p; backoff = backoff } in
      count s (act t a).1 + count s (carried (act t a).0)
      ≤ count s (carried t) + count s (offered_by a)
unfolding act tcp_step carried held offered_by
act_bound s w p backoff (put_sentence x) = omega (
  arith,
  count-append s (held p) (put w x).queue.items,
  count-append s (held p) w.queue.items,
  count-append s w.queue.items (x ∷ []),
  count-Sublist s _ _ (put_items-Sublist w.queue.maxsize w.queue.items x),
  ap (count s) (put-items w x),
)
act_bound s w p backoff stop_worker = omega (
  arith,
  count-append s (held p) (stop w).queue.items,
  count-append s (held p) w.queue.items,
  count-append s w.queue.items ([] ∷ []),
  count-Sublist s _ _ (stop_items-Sublist w.queue.maxsize w.queue.items),
  ap (count s) (stop-items w),
)
act_bound s w at_top backoff (work answer) =
    let t : Tcp = record { worker = w; place = at_top; backoff = backoff } in
    rw (top_step_lem t answer.connect refl).0 (omega arith)
act_bound s w waiting backoff (work answer) =
    let t : Tcp = record { worker = w; place = waiting; backoff = backoff } in
    omega (arith, got_bound t s w.queue.maxsize w.queue.items refl refl)
act_bound s w (sending x) backoff (work answer) =
    omega (arith, send_place w s x backoff answer.send answer.now)
act_bound s w (requeueing x) backoff (work answer) = omega (arith, requeue_bound w s x)
act_bound s w ended backoff (work answer) = omega arith

-- Whatever fails and however the calls of `put` and `stop` fall between the steps of the thread:
-- a sentence goes out, is held or is queued at most as often as it was there or was put.
pub run-count_bound :
    (s : Text) (t : Tcp) (actions : List Action)
    → count s (run t actions).1 + count s (carried (run t actions).0)
      ≤ count s (carried t) + count s (offered actions)
unfolding run offered
run-count_bound s t [] = omega arith
run-count_bound s t (a ∷ actions) =
    let u = act t a in
    omega (
      arith,
      act_bound s t.worker t.place t.backoff a,
      run-count_bound s u.0 actions,
      count-append s u.1 (run u.0 actions).1,
      count-append s (offered_by a) (offered actions),
    )
