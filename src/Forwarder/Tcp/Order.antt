-- ===== src/Forwarder/Tcp/Order.antt =====
-- The order in which a TCP worker of ais_server/forwarder.py sends what is dispatched to it.
use mathlib.Core.List.{append_assoc}
use ais_server.Prelude.{
  ℕ, ◌+◌, ◌≡◌, refl, sym, ap, inl, inr, Bool, ◌&&◌, none, List, [], ◌∷◌, ◌++◌, arith, ltb, leb,
  if◌then◌else◌, Bool-cases, length, All,
}
use ais_server.Prelude.Text.{Text}
use mathlib.Core.List.{Sublistᴰ}
use mathlib.Core.List.Sublistᴰ
use ais_server.Forwarder.Worker.{
  Endpoint, EndpointStats, Queue, Worker, put_nowait, get_nowait, get_or_pass, put, stop,
  close_sock,
}
use ais_server.Forwarder.Tcp.{
  Place, at_top, waiting, sending, requeueing, ended, Connect, connected, refused, option_refused,
  Tcp, connect_step, top_step, got, send_step, tcp_step, Action, put_sentence, stop_worker, work,
  act, run,
}

-- The sentence that the thread has taken and not finished.
unfoldable pub held : Place → List Text
held (sending s) = s ∷ []
held (requeueing s) = s ∷ []
held _ = []

unfoldable pub carried : Tcp → List Text
unfolding held
carried t = held t.place ++ t.worker.queue.items

unfoldable pub offered_by : Action → List Text
offered_by (put_sentence s) = s ∷ []
offered_by stop_worker = [] ∷ []
offered_by (work answer) = []

-- What is put into the queue, the empty text that wakes a stopped thread included.
unfoldable pub offered : List Action → List Text
unfolding offered_by
offered [] = []
offered (a ∷ actions) = offered_by a ++ offered actions

-- No send fails.
unfoldable pub IsSent : Action → Type 0
IsSent (work answer) = answer.send ≡ none
IsSent _ = Unit

unfoldable pub IsForward : Place → Type 0
IsForward (requeueing s) = ⊥
IsForward _ = Unit

pub longer {ℓ} : {A : Type ℓ} (xs ys : List A) → Sublistᴰ xs (xs ++ ys)
longer [] ys = Sublistᴰ.nil-sublist ys
longer (x ∷ xs) ys = Sublistᴰ.cons-cons refl (longer xs ys)

-- What `put` leaves in the queue.
unfoldable pub put_items : ℕ → List Text → Text → List Text
put_items maxsize [] s = s ∷ []
put_items maxsize (y ∷ ys) s =
    if ltb 0 maxsize && leb maxsize (length ys + 1)
    then (if leb maxsize (length ys) then ys else ys ++ s ∷ [])
    else y ∷ ys ++ s ∷ []

pub put_queue :
    (e : Endpoint) (m : ℕ) (items : List Text) (t : EndpointStats) (b c : Bool) (s : Text)
    → let w : Worker = record {
      ep = e;
      queue = record { maxsize = m; items = items };
      stats = t;
      stopped = b;
      sock = c;
    } in
      ((put w s).queue.items ≡ put_items m items s) × ((put w s).queue.maxsize ≡ m)
unfolding put put_nowait get_or_pass get_nowait put_items
put_queue e m [] t b c s = ground arith
put_queue e m (y ∷ ys) t b c s = ground arith

pub put-items :
    (w : Worker) (s : Text) → (put w s).queue.items ≡ put_items w.queue.maxsize w.queue.items s
put-items w s = (put_queue w.ep w.queue.maxsize w.queue.items w.stats w.stopped w.sock s).0

pub put_items-Sublist :
    (m : ℕ) (items : List Text) (s : Text) → Sublistᴰ (put_items m items s) (items ++ s ∷ [])
unfolding put_items
put_items-Sublist m [] s = Sublistᴰ.refl (s ∷ [])
put_items-Sublist m (y ∷ ys) s =
    let full = ltb 0 m && leb m (length ys + 1) in
    elim (Bool-cases full) [
      | inr room ↦ rw room (Sublistᴰ.refl (y ∷ ys ++ s ∷ []))
      | inl f ↦ rw f (elim (Bool-cases (leb m (length ys))) [
        | inr room ↦ rw room (Sublistᴰ.cons (Sublistᴰ.refl (ys ++ s ∷ [])))
        | inl still ↦ rw still (Sublistᴰ.cons (longer ys (s ∷ [])))
      ])
    ]

-- What `stop` leaves in the queue.
unfoldable pub stop_items : ℕ → List Text → List Text
stop_items m items = if ltb 0 m && leb m (length items) then items else items ++ [] ∷ []

pub stop-items : (w : Worker) → (stop w).queue.items ≡ stop_items w.queue.maxsize w.queue.items
unfolding stop put_nowait stop_items
stop-items w = ground arith

pub stop_items-Sublist :
    (m : ℕ) (items : List Text) → Sublistᴰ (stop_items m items) (items ++ [] ∷ [])
unfolding stop_items
stop_items-Sublist m items = elim (Bool-cases (ltb 0 m && leb m (length items))) [
  | inl full ↦ rw full (longer items ([] ∷ []))
  | inr room ↦ rw room (Sublistᴰ.refl (items ++ [] ∷ []))
]

close_sock-queue : (w : Worker) → (close_sock w).queue ≡ w.queue
unfolding close_sock
close_sock-queue w = ground arith

pub top_step_lem :
    (t : Tcp) (c : Connect)
    → t.place ≡ at_top
    → (carried (top_step t c) ≡ carried t) × IsForward (top_step t c).place
unfolding top_step connect_step carried held IsForward close_sock
top_step_lem t connected h = ground arith
top_step_lem t (refused m) h = ground arith
top_step_lem t (option_refused m) h = ground arith

got-Sublist :
    (t : Tcp) (m : ℕ) (items : List Text)
    → t.worker.queue ≡ record { maxsize = m; items = items }
    → t.place ≡ waiting
    → Sublistᴰ (carried (got t (get_nowait record { maxsize = m; items = items }))) items
      × IsForward (got t (get_nowait record { maxsize = m; items = items })).place
unfolding get_nowait carried held IsForward
got-Sublist t m [] q h = (rw (ap Queue.items q) Sublistᴰ.slnil, tt)
got-Sublist t m ([] ∷ rest) q h = (Sublistᴰ.cons (Sublistᴰ.refl rest), tt)
got-Sublist t m ((c ∷ s) ∷ rest) q h = (Sublistᴰ.refl ((c ∷ s) ∷ rest), tt)

-- One action keeps the order, as long as nothing has to be queued again.
act_order :
    (w : Worker) (p : Place) (backoff : ℕ) (a : Action)
    → let t : Tcp = record { worker = w; place = p; backoff = backoff } in
      IsForward p
      → IsSent a
      → Sublistᴰ ((act t a).1 ++ carried (act t a).0) (carried t ++ offered_by a)
        × IsForward (act t a).0.place
unfolding act tcp_step send_step carried held offered_by IsForward IsSent
act_order w p backoff (put_sentence s) f c = (
  rw (append_assoc (held p) w.queue.items (s ∷ [])) (
      Sublistᴰ.append (Sublistᴰ.refl (held p))
        (rw (put-items w s) (put_items-Sublist w.queue.maxsize w.queue.items s))),
  f,
)
act_order w p backoff stop_worker f c = (
  rw (append_assoc (held p) w.queue.items ([] ∷ [])) (
      Sublistᴰ.append (Sublistᴰ.refl (held p))
        (rw (stop-items w) (stop_items-Sublist w.queue.maxsize w.queue.items))),
  f,
)
act_order w at_top backoff (work answer) f c =
    let t : Tcp = record { worker = w; place = at_top; backoff = backoff } in
    let (same, forward) = top_step_lem t answer.connect refl in
    (rw same (longer w.queue.items []), forward)
act_order w waiting backoff (work answer) f c =
    let t : Tcp = record { worker = w; place = waiting; backoff = backoff } in
    let (less, forward) = got-Sublist t w.queue.maxsize w.queue.items refl refl in
    (Sublistᴰ.trans less (longer w.queue.items []), forward)
act_order w (sending s) backoff (work answer) f c =
    rw c (Sublistᴰ.cons-cons refl (longer w.queue.items []), tt)
act_order w (requeueing s) backoff (work answer) f c = absurd f
act_order w ended backoff (work answer) f c = (longer w.queue.items [], tt)

-- While no send fails, whatever the connections do and however the calls of `put` and `stop` fall
-- between the steps of the thread: what went out, followed by what the thread holds and the queue,
-- is what was there and what was put, in the same order, with some items left out.
pub run-Sublist :
    (t : Tcp) (actions : List Action)
    → IsForward t.place
    → All IsSent actions
    → Sublistᴰ ((run t actions).1 ++ carried (run t actions).0) (carried t ++ offered actions)
unfolding run offered
run-Sublist t [] f c = longer (carried t) []
run-Sublist t (a ∷ actions) f c =
    let u = act t a in
    let (step, forward) = act_order t.worker t.place t.backoff a f c.0 in
    let rest = run-Sublist u.0 actions forward c.1 in
    let final = run u.0 actions in
    let all_in : carried t ++ offered (a ∷ actions)
        ≡ (carried t ++ offered_by a) ++ offered actions =
      sym (append_assoc (carried t) (offered_by a) (offered actions)) in
    rw (append_assoc u.1 final.1 (carried final.0), all_in)
      (Sublistᴰ.trans (Sublistᴰ.append (Sublistᴰ.refl u.1) rest) (
        rw (← append_assoc u.1 (carried u.0) (offered actions))
          (Sublistᴰ.append step (Sublistᴰ.refl (offered actions)))))
