-- ===== src/Forwarder/Manager/Stopped.antt =====
-- ais_server/forwarder.py: what the first loop of `sync` leaves of the workers.
use ais_server.Prelude.{
  ℕ, ◌≡◌, refl, sym, ap, ◌∙◌, inl, inr, Bool, true, false, ◌||◌, Option, none, some, List, [], ◌∷◌,
  arith, nat_eqb, if◌then◌else◌, nat_eqb_iff, Bool-cases, nat_eq, All,
}
use ais_server.Prelude.Text.{text_eq}
use ais_server.Prelude.Dict
use ais_server.Prelude.Dict.{Dict}
use ais_server.Forwarder.Worker.{Endpoint, Worker, new_worker}
use ais_server.Forwarder.Manager.{Workers, endpoint_match, must_stop, stop_loop}

-- The worker of an endpoint after `sync`, by its row and by the worker before.
unfoldable pub expected : ℕ → Option Endpoint → Option Worker → Option Worker
expected queue_size none w = none
expected queue_size (some ep) none = some (new_worker ep queue_size)
expected queue_size (some ep) (some w) =
    if endpoint_match ep w.ep then some w else some (new_worker ep queue_size)

unfoldable pub kept : Option Endpoint → Option Worker → Option Worker
kept e none = none
kept e (some w) = if must_stop e w then none else some w

-- No number stands in the list twice.
abbrev pub Distinct : List ℕ → Type 0
Distinct [] = Unit
Distinct (x ∷ xs) = All (λ y. nat_eqb x y ≡ false) xs × Distinct xs

-- Every one of the numbers has a worker.
abbrev pub AreKeys : Workers → List ℕ → Type 0
AreKeys workers xs = All (λ x. (w : Worker) × (Dict.get workers x ≡ some w)) xs

unfoldable pub elem : ℕ → List ℕ → Bool
elem k [] = false
elem k (x ∷ xs) = nat_eqb x k || elem k xs

AreKeys-remove :
    (workers : Workers) (eid : ℕ) (xs : List ℕ)
    → All (λ y. nat_eqb eid y ≡ false) xs
    → AreKeys workers xs
    → AreKeys (Dict.remove workers eid) xs
AreKeys-remove workers eid [] d k = tt
AreKeys-remove workers eid (x ∷ xs) d k =
    ((k.0.0, Dict.get-remove_ne workers eid x d.0 ∙ k.0.1), AreKeys-remove workers eid xs d.1 k.1)

-- The state of one worker after the first loop.
unfoldable pub after_stop : Option Endpoint → Option Worker → Bool → Option Worker
after_stop e w true = kept e w
after_stop e w false = w

pub after_stop-none : (e : Option Endpoint) (b : Bool) → after_stop e none b ≡ none
unfolding after_stop kept
after_stop-none e true = refl
after_stop-none e false = refl

All-nat_eqb : (xs : List ℕ) (x : ℕ) → All (λ y. nat_eqb x y ≡ false) xs → elem x xs ≡ false
unfolding elem
All-nat_eqb [] x d = refl
All-nat_eqb (y ∷ xs) x d = ground (arith, All-nat_eqb xs x d.1, d.0)

-- The deleted worker itself, and the worker that stays.
gone :
    (e : Option Endpoint) (w : Worker) (b : Bool)
    → must_stop e w ≡ true
    → after_stop e none b ≡ after_stop e (some w) true
unfolding after_stop kept
gone e w b h = after_stop-none e b ∙ sym (ap (λ m. if m then none else some w) h)

alive :
    (e : Option Endpoint) (w : Worker)
    → must_stop e w ≡ false
    → after_stop e (some w) false ≡ after_stop e (some w) true
unfolding after_stop kept
alive e w h = sym (ap (λ m. if m then none else some w) h)

pub stop_loop_lem :
    (joins : ℕ → Bool) (wanted : Dict ℕ Endpoint) (existing : List ℕ) (workers : Workers)
    → ((eid : ℕ) → joins eid ≡ true)
    → Distinct existing
    → AreKeys workers existing
    → let out = stop_loop joins wanted existing workers in
      (out.1 ≡ false)
      × ((k : ℕ)
          → Dict.get out.0 k
            ≡ after_stop (Dict.get wanted k) (Dict.get workers k) (elem k existing))
unfolding stop_loop after_stop elem
stop_loop_lem joins wanted [] workers j d present = (refl, λ k. refl)
stop_loop_lem joins wanted (eid ∷ existing) workers j d present =
    let w = present.0.0 in
    let e : Dict.get workers eid ≡ some w = present.0.1 in
    elim (Bool-cases (must_stop (Dict.get wanted eid) w)) [
      | inl stopped ↦
          let less = Dict.remove workers eid in
          let rest =
            stop_loop_lem joins wanted existing less j d.1
              (AreKeys-remove workers eid existing d.0 present.1) in
          rw (e, stopped, j eid)
            (
              rest.0,
              λ k. rest.1 k ∙ elim (Bool-cases (nat_eqb eid k)) [
                | inl same ↦
                    let s : eid ≡ k = (nat_eqb_iff eid k).0 same in
                    let f : must_stop (Dict.get wanted k) w ≡ true =
                      ap (λ i. must_stop (Dict.get wanted i) w) (sym s) ∙ stopped in
                    let g : Dict.get workers k ≡ some w = ap (Dict.get workers) (sym s) ∙ e in
                    let n : Dict.get less k ≡ none = Dict.get-remove_eq workers eid k same in
                    ap (λ o. after_stop (Dict.get wanted k) o (elem k existing)) n
                    ∙ gone (Dict.get wanted k) w (elem k existing) f
                    ∙ ap (λ o. after_stop (Dict.get wanted k) o true) (sym g)
                    ∙ ap
                        (λ b.
                          after_stop (Dict.get wanted k) (Dict.get workers k)
                            (b || elem k existing))
                        (sym same)
                | inr other ↦
                    ap (λ o. after_stop (Dict.get wanted k) o (elem k existing))
                      (Dict.get-remove_ne workers eid k other)
                    ∙ ap
                        (λ b.
                          after_stop (Dict.get wanted k) (Dict.get workers k)
                            (b || elem k existing))
                        (sym other)
              ],
            )
      | inr stays ↦
          let rest = stop_loop_lem joins wanted existing workers j d.1 present.1 in
          rw (e, stays)
            (
              rest.0,
              λ k. rest.1 k ∙ elim (Bool-cases (nat_eqb eid k)) [
                | inl same ↦
                    let s : eid ≡ k = (nat_eqb_iff eid k).0 same in
                    let f : must_stop (Dict.get wanted k) w ≡ false =
                      ap (λ i. must_stop (Dict.get wanted i) w) (sym s) ∙ stays in
                    let g : Dict.get workers k ≡ some w = ap (Dict.get workers) (sym s) ∙ e in
                    let n : elem k existing ≡ false =
                      ap (λ i. elem i existing) (sym s) ∙ All-nat_eqb existing eid d.0 in
                    ap (after_stop (Dict.get wanted k) (Dict.get workers k)) n
                    ∙ ap (λ o. after_stop (Dict.get wanted k) o false) g
                    ∙ alive (Dict.get wanted k) w f
                    ∙ ap (λ o. after_stop (Dict.get wanted k) o true) (sym g)
                    ∙ ap
                        (λ b.
                          after_stop (Dict.get wanted k) (Dict.get workers k)
                            (b || elem k existing))
                        (sym same)
                | inr other ↦
                    ap
                      (λ b.
                        after_stop (Dict.get wanted k) (Dict.get workers k) (b || elem k existing))
                      (sym other)
              ],
            )
    ]
