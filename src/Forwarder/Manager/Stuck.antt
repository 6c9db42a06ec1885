-- ===== src/Forwarder/Manager/Stuck.antt =====
-- ais_server/forwarder.py and the loop `_endpoint_sync_loop` of ais_server/__main__.py: what becomes
-- of a worker whose `join` raises.
use ais_server.Prelude.{
  ℕ, ◌≡◌, refl, sym, ap, ◌∙◌, inl, inr, Bool, true, false, ◌||◌, not, Option, none, some, List, [],
  ◌∷◌, arith, nat_eqb, nat_eqb_iff, Bool-cases, nat_eq, All,
}
use ais_server.Prelude.Text.{text_eq}
use ais_server.Prelude.Dict
use ais_server.Prelude.Dict.{Dict}
use ais_server.Forwarder.Worker.{Endpoint, Worker, put_nowait, stop}
use ais_server.Forwarder.Manager.{
  Workers, Outcome, endpoint_match, wanted_from, must_stop, stop_one, stop_loop, start_after, sync,
}
use ais_server.Forwarder.Manager.Stopped.{elem}

-- The loop that calls `sync` every two seconds and logs its exceptions, with what each call reads:
-- the set of the keys in its order, and the rows of the table.
unfoldable pub endpoint_sync_loop :
    ℕ → (ℕ → Bool) → List (List ℕ × List Endpoint) → Workers → Workers
unfolding sync
endpoint_sync_loop queue_size joins [] workers = workers
endpoint_sync_loop queue_size joins ((existing, endpoints) ∷ rounds) workers =
    endpoint_sync_loop queue_size joins rounds (sync queue_size joins existing endpoints workers).0

-- A worker of the number, for the row.
abbrev pub HasOld : Workers → ℕ → Endpoint → Type 0
HasOld workers eid ep = (w : Worker) × (Dict.get workers eid ≡ some w) × (w.ep ≡ ep)

stop-ep : (w : Worker) → (stop w).ep ≡ w.ep
unfolding stop put_nowait
stop-ep w = ground arith

must_stop-ep : (e : Option Endpoint) (v w : Worker) → v.ep ≡ w.ep → must_stop e v ≡ must_stop e w
unfolding must_stop
must_stop-ep none v w h = refl
must_stop-ep (some ep) v w h = ap (λ x. not (endpoint_match ep x)) h

-- The outcome of a turn for a worker that another turn has to stop in vain.
stop_one_stuck :
    (workers : Workers) (x eid : ℕ) (ep : Endpoint) (e : Option Endpoint) (joined : Bool)
    (stays removed : Outcome) (o : Option Worker)
    → nat_eqb x eid ≡ false
    → HasOld workers eid ep
    → (stays.1 ≡ true) × HasOld stays.0 eid ep
    → (removed.1 ≡ true) × HasOld removed.0 eid ep
    → let out = stop_one workers x e joined stays removed o in (out.1 ≡ true) × HasOld out.0 eid ep
stop_one_stuck workers x eid ep e joined stays removed none n h s r = (refl, h)
stop_one_stuck workers x eid ep e true stays removed (some u) n h s r =
    elim (Bool-cases (must_stop e u)) [ inl m ↦ rw m r | inr m ↦ rw m s ]
stop_one_stuck workers x eid ep e false stays removed (some u) n h s r =
    elim (Bool-cases (must_stop e u)) [
      | inl m ↦ rw m (refl, (h.0, Dict.get-put_ne workers x eid (stop u) n ∙ h.1, h.2))
      | inr m ↦ rw m s
    ]

stop_one_raises :
    (workers : Workers) (x : ℕ) (e : Option Endpoint) (joined : Bool) (stays removed : Outcome)
    (o : Option Worker) (w : Worker)
    → o ≡ some w
    → joined ≡ false
    → must_stop e w ≡ true
    → stop_one workers x e joined stays removed o ≡ (Dict.put workers x (stop w), true)
stop_one_raises workers x e joined stays removed o w p q r = rw (p, q, r) refl

stop_loop_stuck :
    (joins : ℕ → Bool) (wanted : Dict ℕ Endpoint) (existing : List ℕ) (workers : Workers) (eid : ℕ)
    (ep : Endpoint)
    → joins eid ≡ false
    → ((w : Worker) → w.ep ≡ ep → must_stop (Dict.get wanted eid) w ≡ true)
    → elem eid existing ≡ true
    → HasOld workers eid ep
    → let out = stop_loop joins wanted existing workers in (out.1 ≡ true) × HasOld out.0 eid ep
unfolding stop_loop elem
stop_loop_stuck joins wanted [] workers eid ep j m i h = absurd (ground arith)
stop_loop_stuck joins wanted (x ∷ existing) workers eid ep j m i h =
    elim (Bool-cases (nat_eqb x eid)) [
      | inl same ↦
          let here : x ≡ eid = (nat_eqb_iff x eid).0 same in
          let w = h.0 in
          let raised =
            stop_one_raises workers x (Dict.get wanted x) (joins x)
              (stop_loop joins wanted existing workers)
              (stop_loop joins wanted existing (Dict.remove workers x)) (Dict.get workers x) w
              (ap (Dict.get workers) here ∙ h.1) (ap joins here ∙ j)
              (ap (λ k. must_stop (Dict.get wanted k) w) here ∙ m w h.2) in
          rw raised (refl, (stop w, Dict.get-put_eq workers x eid (stop w) same, stop-ep w ∙ h.2))
      | inr other ↦
          let i' : elem eid existing ≡ true = ap (λ b. b || elem eid existing) (sym other) ∙ i in
          stop_one_stuck workers x eid ep (Dict.get wanted x) (joins x)
            (stop_loop joins wanted existing workers)
            (stop_loop joins wanted existing (Dict.remove workers x)) (Dict.get workers x) other h
            (stop_loop_stuck joins wanted existing workers eid ep j m i' h)
            (stop_loop_stuck joins wanted existing (Dict.remove workers x) eid ep j m i'
              (h.0, Dict.get-remove_ne workers x eid other ∙ h.1, h.2))
    ]

start_after_raised :
    (queue_size : ℕ) (wanted : Dict ℕ Endpoint) (o : Outcome)
    → o.1 ≡ true
    → start_after queue_size wanted o ≡ (o.0, true)
unfolding start_after
start_after_raised queue_size wanted (workers, true) h = refl
start_after_raised queue_size wanted (workers, false) h = absurd (ground arith)

-- What a call reads: the worker of the number is among the keys, and its row is gone, disabled or
-- differs from the one that the worker was started with.
abbrev pub Outdated : ℕ → Endpoint → List ℕ × List Endpoint → Type 0
Outdated eid ep round =
    (elem eid round.0 ≡ true)
    × ((w : Worker) → w.ep ≡ ep → must_stop (Dict.get (wanted_from [] round.1) eid) w ≡ true)

-- If the join of an outdated worker raises, the call of `sync` raises, and the worker of the old row
-- stays in the table.
pub sync_stuck :
    (queue_size : ℕ) (joins : ℕ → Bool) (round : List ℕ × List Endpoint) (workers : Workers)
    (eid : ℕ) (ep : Endpoint)
    → joins eid ≡ false
    → Outdated eid ep round
    → HasOld workers eid ep
    → ((sync queue_size joins round.0 round.1 workers).1 ≡ true)
      × HasOld (sync queue_size joins round.0 round.1 workers).0 eid ep
unfolding sync
sync_stuck queue_size joins round workers eid ep j d h =
    let wanted = wanted_from [] round.1 in
    let loop = stop_loop_stuck joins wanted round.0 workers eid ep j d.1 d.0 h in
    let same =
      start_after_raised queue_size wanted (stop_loop joins wanted round.0 workers) loop.0 in
    rw same (refl, loop.1)

-- However often the loop calls `sync`, an outdated worker whose join raises is never replaced and
-- never removed.
pub endpoint_sync_loop_stuck :
    (queue_size : ℕ) (joins : ℕ → Bool) (rounds : List (List ℕ × List Endpoint)) (workers : Workers)
    (eid : ℕ) (ep : Endpoint)
    → joins eid ≡ false
    → All (Outdated eid ep) rounds
    → HasOld workers eid ep
    → HasOld (endpoint_sync_loop queue_size joins rounds workers) eid ep
unfolding endpoint_sync_loop
endpoint_sync_loop_stuck queue_size joins [] workers eid ep j d h = h
endpoint_sync_loop_stuck queue_size joins (round ∷ rounds) workers eid ep j d h =
    endpoint_sync_loop_stuck queue_size joins rounds
      (sync queue_size joins round.0 round.1 workers).0 eid ep j d.1
      (sync_stuck queue_size joins round workers eid ep j d.0 h).1
