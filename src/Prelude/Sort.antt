-- ===== src/Prelude/Sort.antt =====
-- Python's stable `list.sort` as insertion sort: an item stands in front of its equals that stood
-- behind it.
use Prim.Native.Nat.{ℕ, zero, suc}
use mathlib.Core.Path.{◌≡◌, refl, ap, ◌∙◌}
use mathlib.Core.Logic.{inl, inr}
use mathlib.Core.Bool.{Bool, true, false, ◌&&◌}
use mathlib.Core.Option.{Option, none, some}
use mathlib.Core.List.{List, [], ◌∷◌, Perm}
use mathlib.Core.List.Perm
use native.Mathlib.Omega.{arith}
use ais_server.Prelude.Tests.{if◌then◌else◌, Bool-cases}
use ais_server.Prelude.Lists.{length, take, drop, All, All-drop}

module _ {ℓ} {A : Type ℓ} where
  -- `before x y` tells that `x` comes before `y` whatever their places were.
  unfoldable pub insert_by : (A → A → Bool) → A → List A → List A
  insert_by before x [] = x ∷ []
  insert_by before x (y ∷ xs) =
      let rest = insert_by before x xs in if before y x then y ∷ rest else x ∷ y ∷ xs

  unfoldable pub sort_by : (A → A → Bool) → List A → List A
  unfolding insert_by
  sort_by before [] = []
  sort_by before (x ∷ xs) = insert_by before x (sort_by before xs)

  -- No item comes before one that stands in front of it.
  abbrev pub InOrder : (A → A → Bool) → List A → Type 0
  InOrder before [] = Unit
  InOrder before (x ∷ xs) = All (λ y. before y x ≡ false) xs × InOrder before xs

  -- The first item that passes a test.
  abbrev pub first : (A → Bool) → List A → Option A
  first p [] = none
  first p (x ∷ xs) = if p x then some x else first p xs

  pub All-insert_by {κ} :
      (P : A → Type κ) (before : A → A → Bool) (x : A) (xs : List A)
      → P x
      → All P xs
      → All P (insert_by before x xs)
  unfolding insert_by
  All-insert_by P before x [] p a = (p, tt)
  All-insert_by P before x (y ∷ xs) p a = elim (Bool-cases (before y x)) [
    | inl e ↦ rw e (a.0, All-insert_by P before x xs p a.1)
    | inr e ↦ rw e (p, a)
  ]

  pub All-sort_by {κ} :
      (P : A → Type κ) (before : A → A → Bool) (xs : List A) → All P xs → All P (sort_by before xs)
  unfolding sort_by
  All-sort_by P before [] a = tt
  All-sort_by P before (x ∷ xs) a =
      All-insert_by P before x (sort_by before xs) a.0 (All-sort_by P before xs a.1)

  length-insert_by :
      (before : A → A → Bool) (x : A) (xs : List A)
      → length (insert_by before x xs) ≡ suc (length xs)
  unfolding insert_by
  length-insert_by before x [] = refl
  length-insert_by before x (y ∷ xs) = ground (arith, length-insert_by before x xs)

  pub length-sort_by :
      (before : A → A → Bool) (xs : List A) → length (sort_by before xs) ≡ length xs
  unfolding sort_by
  length-sort_by before [] = refl
  length-sort_by before (x ∷ xs) =
      length-insert_by before x (sort_by before xs) ∙ ap suc (length-sort_by before xs)

  insert_by-Perm :
      (before : A → A → Bool) (x : A) (xs : List A) → Perm (insert_by before x xs) (x ∷ xs)
  unfolding insert_by
  insert_by-Perm before x [] = Perm.refl _
  insert_by-Perm before x (y ∷ xs) = elim (Bool-cases (before y x)) [
    | inl e ↦ rw e (Perm.trans (Perm.cons y (insert_by-Perm before x xs)) (Perm.swap x y xs))
    | inr e ↦ rw e (Perm.refl _)
  ]

  pub sort_by-Perm : (before : A → A → Bool) (xs : List A) → Perm (sort_by before xs) xs
  unfolding sort_by
  sort_by-Perm before [] = Perm.refl _
  sort_by-Perm before (x ∷ xs) =
      Perm.trans (insert_by-Perm before x (sort_by before xs))
        (Perm.cons x (sort_by-Perm before xs))

  -- No item behind a cut comes before one in front of it.
  pub cut-InOrder :
      (before : A → A → Bool) (n : ℕ) (xs : List A)
      → InOrder before xs
      → All (λ x. All (λ y. before y x ≡ false) (drop n xs)) (take n xs)
  cut-InOrder before zero xs s = tt
  cut-InOrder before (suc n) [] s = tt
  cut-InOrder before (suc n) (x ∷ xs) s =
      (All-drop (λ y. before y x ≡ false) n xs s.0, cut-InOrder before n xs s.1)

  -- At most one item passes the test.
  abbrev pub AtMostOne : (A → Bool) → List A → Type 0
  AtMostOne p [] = Unit
  AtMostOne p (x ∷ xs) = All (λ y. (p x && p y) ≡ false) xs × AtMostOne p xs

  first-insert_by :
      (p : A → Bool) (before : A → A → Bool) (x : A) (xs : List A)
      → All (λ y. (p x && p y) ≡ false) xs
      → first p (insert_by before x xs) ≡ first p (x ∷ xs)
  unfolding insert_by
  first-insert_by p before x [] a = refl
  first-insert_by p before x (y ∷ xs) a = elim (Bool-cases (before y x)) [
    | inl e ↦ rw e (
        ap (λ o. if p y then some y else o) (first-insert_by p before x xs a.1)
        ∙ swapped (p x) (p y) (first p xs) a.0)
    | inr e ↦ rw e refl
  ]
    where
      swapped :
          (b c : Bool) (o : Option A)
          → (b && c) ≡ false
          → (if c then some y else if b then some x else o)
            ≡ (if b then some x else if c then some y else o)
      swapped true true o h = absurd (ground arith)
      swapped true false o h = refl
      swapped false true o h = refl
      swapped false false o h = refl

  pub first-sort_by :
      (p : A → Bool) (before : A → A → Bool) (xs : List A)
      → AtMostOne p xs
      → first p (sort_by before xs) ≡ first p xs
  unfolding sort_by
  first-sort_by p before [] a = refl
  first-sort_by p before (x ∷ xs) a =
      first-insert_by p before x (sort_by before xs)
        (All-sort_by (λ y. (p x && p y) ≡ false) before xs a.0)
      ∙ ap (λ o. if p x then some x else o) (first-sort_by p before xs a.1)

  insert_by-AtMostOne :
      (p : A → Bool) (before : A → A → Bool) (x : A) (xs : List A)
      → All (λ y. (p x && p y) ≡ false) xs
      → AtMostOne p xs
      → AtMostOne p (insert_by before x xs)
  unfolding insert_by
  insert_by-AtMostOne p before x [] a m = (tt, tt)
  insert_by-AtMostOne p before x (y ∷ xs) a m = elim (Bool-cases (before y x)) [
    | inl e ↦ rw e (
      All-insert_by (λ z. (p y && p z) ≡ false) before x xs (swap_and (p x) (p y) a.0) m.0,
      insert_by-AtMostOne p before x xs a.1 m.1,
    )
    | inr e ↦ rw e (a, m)
  ]
    where
      swap_and : (b c : Bool) → (b && c) ≡ false → (c && b) ≡ false
      swap_and true true h = h
      swap_and true false h = refl
      swap_and false true h = refl
      swap_and false false h = refl

  pub sort_by-AtMostOne :
      (p : A → Bool) (before : A → A → Bool) (xs : List A)
      → AtMostOne p xs
      → AtMostOne p (sort_by before xs)
  unfolding sort_by
  sort_by-AtMostOne p before [] a = tt
  sort_by-AtMostOne p before (x ∷ xs) a =
      insert_by-AtMostOne p before x (sort_by before xs)
        (All-sort_by (λ y. (p x && p y) ≡ false) before xs a.0) (sort_by-AtMostOne p before xs a.1)

  module _ (before : A → A → Bool) (asym : (x y : A) → before x y ≡ true → before y x ≡ false)
      (trans : (x y z : A) → before y x ≡ false → before z y ≡ false → before z x ≡ false) where
    All-after :
        (x y : A) (xs : List A)
        → before y x ≡ false
        → All (λ z. before z y ≡ false) xs
        → All (λ z. before z x ≡ false) xs
    All-after x y [] h a = tt
    All-after x y (z ∷ xs) h a = (trans x y z h a.0, All-after x y xs h a.1)

    insert_by-InOrder :
        (x : A) (xs : List A) → InOrder before xs → InOrder before (insert_by before x xs)
    unfolding insert_by
    insert_by-InOrder x [] s = (tt, tt)
    insert_by-InOrder x (y ∷ xs) s = elim (Bool-cases (before y x)) [
      | inl e ↦ rw e (
        All-insert_by (λ z. before z y ≡ false) before x xs (asym y x e) s.0,
        insert_by-InOrder x xs s.1,
      )
      | inr e ↦ rw e ((e, All-after x y xs e s.0), s)
    ]

    pub sort_by-InOrder : (xs : List A) → InOrder before (sort_by before xs)
    unfolding sort_by
    sort_by-InOrder [] = tt
    sort_by-InOrder (x ∷ xs) = insert_by-InOrder x (sort_by before xs) (sort_by-InOrder xs)
