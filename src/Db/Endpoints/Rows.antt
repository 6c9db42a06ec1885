-- ===== src/Db/Endpoints/Rows.antt =====
-- ais_server/db.py: the table of endpoints keeps its numbers and names unique.
use ais_server.Prelude.{
  ◌≡◌, refl, ap, inl, inr, Bool, true, false, ◌&&◌, not, none, some, List, [], ◌∷◌, ◌++◌, arith,
  if◌then◌else◌, Bool-cases, All,
}
use ais_server.Prelude.Sort.{first, AtMostOne}
use ais_server.Forwarder.Worker.{Endpoint}
use ais_server.Db.{find, update_where, delete_where}

module _ (p : Endpoint → Bool) where
  pub find-first : (xs : List Endpoint) → find p xs ≡ first p xs
  unfolding find
  find-first [] = refl
  find-first (x ∷ xs) = ap (λ o. if p x then some x else o) (find-first xs)

  pub none_found : (xs : List Endpoint) → find p xs ≡ none → All (λ x. p x ≡ false) xs
  unfolding find
  none_found [] h = tt
  none_found (x ∷ xs) h = elim (Bool-cases (p x)) [
    | inl e ↦ absurd (ground (arith, e, h))
    | inr e ↦ (e, none_found xs (ground (arith, e, h)))
  ]

  pub AtMostOne-append :
      (xs : List Endpoint) (y : Endpoint)
      → AtMostOne p xs
      → All (λ x. (p x && p y) ≡ false) xs
      → AtMostOne p (xs ++ y ∷ [])
  AtMostOne-append [] y m a = (tt, tt)
  AtMostOne-append (x ∷ xs) y m a = (behind xs m.0, AtMostOne-append xs y m.1 a.1)
    where
      behind :
          (ys : List Endpoint)
          → All (λ z. (p x && p z) ≡ false) ys
          → All (λ z. (p x && p z) ≡ false) (ys ++ y ∷ [])
      behind [] b = (a.0, tt)
      behind (z ∷ ys) b = (b.0, behind ys b.1)

  module _ (q : Endpoint → Bool) where
    pub All-delete_where :
        (P : Endpoint → Type 0) (xs : List Endpoint) → All P xs → All P (delete_where q xs).0
    unfolding delete_where
    All-delete_where P [] a = tt
    All-delete_where P (x ∷ xs) a = elim (Bool-cases (q x)) [
      | inl e ↦ rw e (All-delete_where P xs a.1)
      | inr e ↦ rw e (a.0, All-delete_where P xs a.1)
    ]

    pub AtMostOne-delete_where :
        (xs : List Endpoint) → AtMostOne p xs → AtMostOne p (delete_where q xs).0
    unfolding delete_where
    AtMostOne-delete_where [] m = tt
    AtMostOne-delete_where (x ∷ xs) m = elim (Bool-cases (q x)) [
      | inl e ↦ rw e (AtMostOne-delete_where xs m.1)
      | inr e ↦
          rw e (All-delete_where (λ y. (p x && p y) ≡ false) xs m.0, AtMostOne-delete_where xs m.1)
    ]

module _ (q : Endpoint → Bool) (f : Endpoint → Endpoint) where
  pub All-update_where :
      (P R : Endpoint → Type 0) (xs : List Endpoint)
      → ((x : Endpoint) → P x → q x ≡ true → R (f x))
      → ((x : Endpoint) → P x → q x ≡ false → R x)
      → All P xs
      → All R (update_where q f xs).0
  unfolding update_where
  All-update_where P R [] hit miss a = tt
  All-update_where P R (x ∷ xs) hit miss a = elim (Bool-cases (q x)) [
    | inl e ↦ rw e (hit x a.0 e, All-update_where P R xs hit miss a.1)
    | inr e ↦ rw e (miss x a.0 e, All-update_where P R xs hit miss a.1)
  ]

  -- No row begins to pass the test.
  pub AtMostOne-update_where :
      (p : Endpoint → Bool) (xs : List Endpoint)
      → ((x : Endpoint) → p (f x) ≡ true → p x ≡ true)
      → AtMostOne p xs
      → AtMostOne p (update_where q f xs).0
  unfolding update_where
  AtMostOne-update_where p [] h m = tt
  AtMostOne-update_where p (x ∷ xs) h m = elim (Bool-cases (q x)) [
    | inl e ↦ rw e (
      All-update_where (λ y. (p x && p y) ≡ false) (λ y. (p (f x) && p y) ≡ false) xs
          (λ y a _. ground (arith, h x, h y, a)) (λ y a _. ground (arith, h x, a)) m.0,
      AtMostOne-update_where p xs h m.1,
    )
    | inr e ↦ rw e (
      All-update_where (λ y. (p x && p y) ≡ false) (λ y. (p x && p y) ≡ false) xs
          (λ y a _. ground (arith, h y, a)) (λ y a _. a) m.0,
      AtMostOne-update_where p xs h m.1,
    )
  ]

  -- Only the one row that changes may pass the test afterwards.
  pub AtMostOne-update_where_free :
      (p : Endpoint → Bool) (xs : List Endpoint)
      → All (λ x. (p x && not (q x)) ≡ false) xs
      → AtMostOne q xs
      → AtMostOne p (update_where q f xs).0
  unfolding update_where
  AtMostOne-update_where_free p [] a m = tt
  AtMostOne-update_where_free p (x ∷ xs) a m = elim (Bool-cases (q x)) [
    | inl e ↦ rw e (
      All-update_where (λ y. ((q x && q y) ≡ false) × ((p y && not (q y)) ≡ false))
          (λ y. (p (f x) && p y) ≡ false) xs (λ y b k. absurd (ground (arith, b.0, e, k)))
          (λ y b k. ground (arith, b.1, k)) (both xs m.0 a.1),
      AtMostOne-update_where_free p xs a.1 m.1,
    )
    | inr e ↦ rw e (
      All-update_where (λ y. (p x && not (q x)) ≡ false) (λ y. (p x && p y) ≡ false) xs
          (λ y b _. ground (arith, b, e)) (λ y b _. ground (arith, b, e)) (same xs a.0),
      AtMostOne-update_where_free p xs a.1 m.1,
    )
  ]
    where
      both :
          (ys : List Endpoint)
          → All (λ y. (q x && q y) ≡ false) ys
          → All (λ y. (p y && not (q y)) ≡ false) ys
          → All (λ y. ((q x && q y) ≡ false) × ((p y && not (q y)) ≡ false)) ys
      both [] b c = tt
      both (y ∷ ys) b c = ((b.0, c.0), both ys b.1 c.1)

      same :
          (ys : List Endpoint)
          → (p x && not (q x)) ≡ false
          → All (λ y. (p x && not (q x)) ≡ false) ys
      same [] b = tt
      same (y ∷ ys) b = (b, same ys b)
