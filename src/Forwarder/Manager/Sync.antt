-- ===== src/Forwarder/Manager/Sync.antt =====
-- ais_server/forwarder.py: what a call of `sync` that returns leaves.
use ais_server.Prelude.{
  ℕ, ◌≡◌, refl, sym, ap, ◌∙◌, ◌⊎◌, inl, inr, Bool, true, false, Option, none, some, List, [], ◌∷◌,
  arith, nat_eqb, if◌then◌else◌, nat_eqb_iff, Bool-cases, Option-cases, nat_eq,
}
use ais_server.Prelude.Text.{text_eq}
use ais_server.Prelude.Dict
use ais_server.Prelude.Dict.{Dict}
use ais_server.Forwarder.Worker.{Endpoint, Worker, new_worker}
use ais_server.Forwarder.Manager.{
  Workers, Outcome, endpoint_match, wanted_from, must_stop, stop_loop, start_if_missing, start_loop,
  start_after, sync,
}
use ais_server.Forwarder.Manager.Stopped.{
  expected, kept, Distinct, AreKeys, elem, after_stop, after_stop-none, stop_loop_lem,
}

unfoldable or_new : ℕ → Option Endpoint → Option Worker → Option Worker
or_new queue_size e (some w) = some w
or_new queue_size none none = none
or_new queue_size (some ep) none = some (new_worker ep queue_size)

started :
    (queue_size eid : ℕ) (ep : Endpoint) (wanted : Dict ℕ Endpoint) (workers : Workers) (k : ℕ)
    → Dict.get workers eid ≡ none
    → (nat_eqb eid k ≡ true) ⊎ (nat_eqb eid k ≡ false)
    → or_new queue_size
        (Dict.get wanted k)
        (Dict.get (Dict.put workers eid (new_worker ep queue_size)) k)
      ≡ or_new queue_size (Dict.get ((eid, ep) ∷ wanted) k) (Dict.get workers k)
unfolding or_new Dict.get
started queue_size eid ep wanted workers k e (inl same) =
    ap (or_new queue_size (Dict.get wanted k))
      (Dict.get-put_eq workers eid k (new_worker ep queue_size) same)
    ∙ sym (
        ap (or_new queue_size (some ep))
          (ap (Dict.get workers) (sym ((nat_eqb_iff eid k).0 same)) ∙ e))
    ∙ ap (λ b. or_new queue_size (if b then some ep else Dict.get wanted k) (Dict.get workers k))
        (sym same)
started queue_size eid ep wanted workers k e (inr other) =
    ap (or_new queue_size (Dict.get wanted k))
      (Dict.get-put_ne workers eid k (new_worker ep queue_size) other)
    ∙ ap (λ b. or_new queue_size (if b then some ep else Dict.get wanted k) (Dict.get workers k))
        (sym other)

running :
    (queue_size eid : ℕ) (ep : Endpoint) (wanted : Dict ℕ Endpoint) (workers : Workers) (k : ℕ)
    (w : Worker)
    → Dict.get workers eid ≡ some w
    → (nat_eqb eid k ≡ true) ⊎ (nat_eqb eid k ≡ false)
    → or_new queue_size (Dict.get wanted k) (Dict.get workers k)
      ≡ or_new queue_size (Dict.get ((eid, ep) ∷ wanted) k) (Dict.get workers k)
unfolding or_new Dict.get
running queue_size eid ep wanted workers k w e (inl same) =
    let g : Dict.get workers k ≡ some w =
      ap (Dict.get workers) (sym ((nat_eqb_iff eid k).0 same)) ∙ e in
    rw g refl
running queue_size eid ep wanted workers k w e (inr other) =
    ap (λ b. or_new queue_size (if b then some ep else Dict.get wanted k) (Dict.get workers k))
      (sym other)

start_loop_lem :
    (queue_size : ℕ) (wanted : Dict ℕ Endpoint) (workers : Workers) (k : ℕ)
    → Dict.get (start_loop queue_size wanted workers) k
      ≡ or_new queue_size (Dict.get wanted k) (Dict.get workers k)
unfolding start_loop start_if_missing or_new Dict.get
start_loop_lem queue_size [] workers k = elim (Option-cases (Dict.get workers k)) [
  | inl e ↦ rw e refl
  | inr (w, e) ↦ rw e refl
]
start_loop_lem queue_size ((eid, ep) ∷ wanted) workers k =
    elim (Option-cases (Dict.get workers eid)) [
      | inl e ↦
          let w = new_worker ep queue_size in
          ap
            (λ o.
              Dict.get (start_loop queue_size wanted (start_if_missing queue_size eid ep workers o))
                k)
            e
          ∙ start_loop_lem queue_size wanted (Dict.put workers eid w) k
          ∙ started queue_size eid ep wanted workers k e (Bool-cases (nat_eqb eid k))
      | inr (w, e) ↦
          ap
            (λ o.
              Dict.get (start_loop queue_size wanted (start_if_missing queue_size eid ep workers o))
                k)
            e
          ∙ start_loop_lem queue_size wanted workers k
          ∙ running queue_size eid ep wanted workers k w e (Bool-cases (nat_eqb eid k))
    ]

expected_lem :
    (queue_size : ℕ) (e : Option Endpoint) (w : Option Worker)
    → or_new queue_size e (kept e w) ≡ expected queue_size e w
unfolding or_new kept expected must_stop
expected_lem queue_size none none = refl
expected_lem queue_size none (some w) = refl
expected_lem queue_size (some ep) none = refl
expected_lem queue_size (some ep) (some w) = elim (Bool-cases (endpoint_match ep w.ep)) [
  | inl m ↦ rw m refl
  | inr m ↦ rw m refl
]

all_stopped :
    (existing : List ℕ) (workers : Workers) (k : ℕ) (e : Option Endpoint)
    → ((w : Worker) → Dict.get workers k ≡ some w → elem k existing ≡ true)
    → after_stop e (Dict.get workers k) (elem k existing) ≡ kept e (Dict.get workers k)
unfolding after_stop kept
all_stopped existing workers k e h = elim (Option-cases (Dict.get workers k)) [
  | inl n ↦ rw n (after_stop-none e (elem k existing))
  | inr (w, s) ↦ ap (after_stop e (Dict.get workers k)) (h w s)
]

start_after_returned :
    (queue_size : ℕ) (wanted : Dict ℕ Endpoint) (o : Outcome)
    → o.1 ≡ false
    → start_after queue_size wanted o ≡ (start_loop queue_size wanted o.0, false)
unfolding start_after
start_after_returned queue_size wanted (workers, true) h = absurd (ground arith)
start_after_returned queue_size wanted (workers, false) h = refl

-- If the joins of the stopped workers return, `sync` raises nothing, and each enabled endpoint has
-- its worker afterwards: the old one with its queue if its row is unchanged, and a new one if it
-- was changed or had none. Nothing else has a worker. `existing` is the set of the keys in any order.
pub sync-expected :
    (queue_size : ℕ) (joins : ℕ → Bool) (existing : List ℕ) (endpoints : List Endpoint)
    (workers : Workers)
    → ((eid : ℕ) → joins eid ≡ true)
    → Distinct existing
    → AreKeys workers existing
    → ((k : ℕ) (w : Worker) → Dict.get workers k ≡ some w → elem k existing ≡ true)
    → ((sync queue_size joins existing endpoints workers).1 ≡ false)
      × ((k : ℕ)
          → Dict.get (sync queue_size joins existing endpoints workers).0 k
            ≡ expected queue_size (Dict.get (wanted_from [] endpoints) k) (Dict.get workers k))
unfolding sync
sync-expected queue_size joins existing endpoints workers j d present complete =
    let wanted = wanted_from [] endpoints in
    let loop = stop_loop_lem joins wanted existing workers j d present in
    let done =
      start_after_returned queue_size wanted (stop_loop joins wanted existing workers) loop.0 in
    (
      ap (λ o. o.1) done,
      λ k.
          ap (λ o. Dict.get o.0 k) done
          ∙ start_loop_lem queue_size wanted (stop_loop joins wanted existing workers).0 k
          ∙ ap (or_new queue_size (Dict.get wanted k))
              (loop.1 k ∙ all_stopped existing workers k (Dict.get wanted k) (complete k))
          ∙ expected_lem queue_size (Dict.get wanted k) (Dict.get workers k),
    )
