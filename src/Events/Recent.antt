-- ===== src/Events/Recent.antt =====
-- What ais_server/events.py keeps of the payloads that were published.
use mathlib.Core.List.{append-nil}
use ais_server.Prelude.{
  ℕ, suc, ◌-◌, ◌≤◌, min, ◌≡◌, refl, sym, ap, ◌∙◌, inl, inr, List, [], ◌∷◌, ◌++◌, arith,
  if◌then◌else◌, Bool-cases, ◌==◌, nat_eq, length, drop, length-drop, drop-drop,
}
use ais_server.Prelude.Text.{Text, text_eqb_iff, text_eq}
use ais_server.Prelude.Int.{pos}
use ais_server.Prelude.Dict
use ais_server.Prelude.Newest.{newest, newest-append, newest_all, newest_bound}
use ais_server.Prelude.Dict.{Dict}
use ais_server.Events.{EventBus, or_empty, ring_append, last_slice, new, publish, recent}

module _ {P : Type 0} where
  unfoldable pub publish_all : EventBus P → List (Text × P) → EventBus P
  publish_all b [] = b
  publish_all b ((topic, payload) ∷ events) = publish_all (publish b topic payload).0 events

  -- The payloads of one topic.
  unfoldable pub payloads : Text → List (Text × P) → List P
  payloads t [] = []
  payloads t ((topic, payload) ∷ events) =
      let rest = payloads t events in if topic == t then payload ∷ rest else rest

  unfoldable pub ring : EventBus P → Text → List P
  ring b t = or_empty (Dict.get b.rings t)

  ring-publish :
      (b : EventBus P) (topic t : Text) (payload : P)
      → ring (publish b topic payload).0 t
        ≡ (if topic == t then newest b.ring_size (ring b t ++ payload ∷ []) else ring b t)
  unfolding ring publish ring_append or_empty
  ring-publish b topic t payload = elim (Bool-cases (topic == t)) [
    | inl same ↦
        let e : topic ≡ t = (text_eqb_iff topic t).0 same in
        rw same (
          rw
            (Dict.get-put_eq b.rings topic t
              (newest b.ring_size (or_empty (Dict.get b.rings topic) ++ payload ∷ [])) same)
            (ap (λ u. newest b.ring_size (or_empty (Dict.get b.rings u) ++ payload ∷ [])) e))
    | inr other ↦ rw other (
        ap or_empty (
          Dict.get-put_ne b.rings topic t
            (newest b.ring_size (or_empty (Dict.get b.rings topic) ++ payload ∷ [])) other))
  ]

  append_one : (xs : List P) (y : P) (ys : List P) → (xs ++ y ∷ []) ++ ys ≡ xs ++ y ∷ ys
  append_one [] y ys = refl
  append_one (x ∷ xs) y ys = ap (λ zs. x ∷ zs) (append_one xs y ys)

  ring-publish_all :
      (b : EventBus P) (t : Text) (events : List (Text × P))
      → length (ring b t) ≤ b.ring_size
      → ring (publish_all b events) t ≡ newest b.ring_size (ring b t ++ payloads t events)
  unfolding publish_all payloads publish
  ring-publish_all b t [] h =
      sym (ap (newest b.ring_size) (append-nil (ring b t)) ∙ newest_all b.ring_size (ring b t) h)
  ring-publish_all b t ((topic, payload) ∷ events) h =
      let n = b.ring_size in
      let c = (publish b topic payload).0 in
      let old = ring b t in
      let p = ring-publish b topic t payload in
      elim (Bool-cases (topic == t)) [
        | inl same ↦
            let q : ring c t ≡ newest n (old ++ payload ∷ []) =
              p ∙ ap (λ u. if u then newest n (old ++ payload ∷ []) else old) same in
            rw same (
              ring-publish_all c t events (rw q (newest_bound n (old ++ payload ∷ [])))
              ∙ ap (λ r. newest n (r ++ payloads t events)) q
              ∙ newest-append n (old ++ payload ∷ []) (payloads t events)
              ∙ ap (newest n) (append_one old payload (payloads t events)))
        | inr other ↦
            let q : ring c t ≡ old =
              p ∙ ap (λ u. if u then newest n (old ++ payload ∷ []) else old) other in
            rw other
              (ring-publish_all c t events (rw q h) ∙ ap (λ r. newest n (r ++ payloads t events)) q)
      ]

  newest-newest : (n m : ℕ) (xs : List P) → newest n (newest m xs) ≡ newest (min n m) xs
  newest-newest n m xs =
      let k = length xs - m in
      drop-drop (length (drop k xs) - n) k xs
      ∙ ap (λ i. drop i xs) (omega (arith, length-drop k xs))

  ring_of_new :
      (size : ℕ) (t : Text) (events : List (Text × P))
      → or_empty (Dict.get (publish_all (new size) events).rings t)
        ≡ newest size (payloads t events)
  unfolding new or_empty Dict.get ring
  ring_of_new size t events = ring-publish_all (new size) t events (omega arith)

  -- After any sequence of publications on any topics, `recent` with n > 0 returns the newest
  -- payloads of the topic in their order, n of them or as many as the ring holds.
  pub recent-publish_all :
      (size : ℕ) (t : Text) (n : ℕ) (events : List (Text × P))
      → recent (publish_all (new size) events) t (pos (suc n))
        ≡ newest (min (suc n) size) (payloads t events)
  unfolding recent last_slice
  recent-publish_all size t n events =
      ap (newest (suc n)) (ring_of_new size t events)
      ∙ newest-newest (suc n) size (payloads t events)

  -- With n = 0, `recent` returns all that the ring holds, not an empty list.
  pub recent-publish_all_zero :
      (size : ℕ) (t : Text) (events : List (Text × P))
      → recent (publish_all (new size) events) t (pos 0) ≡ newest size (payloads t events)
  unfolding recent last_slice
  recent-publish_all_zero size t events = ring_of_new size t events
