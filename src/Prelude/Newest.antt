-- ===== src/Prelude/Newest.antt =====
-- The end of a list, as a bounded queue or ring keeps it.
use Prim.Native.Nat.{ℕ, ◌+◌, ◌-◌, ◌≤◌}
use mathlib.Core.Path.{◌≡◌, refl, sym, ap, ◌∙◌}
use mathlib.Core.List.{List, ◌++◌}
use native.Mathlib.Omega.{arith}
use ais_server.Prelude.Lists.{length, drop, length-append, length-drop, drop-append, drop-drop}

-- The newest `n` of a list.
abbrev pub newest {ℓ} : {A : Type ℓ} → ℕ → List A → List A
newest n xs = drop (length xs - n) xs

module _ {ℓ} {A : Type ℓ} where
  pub newest-append : (n : ℕ) (xs ys : List A) → newest n (newest n xs ++ ys) ≡ newest n (xs ++ ys)
  newest-append n xs ys =
      let k = length xs - n in
      let l : length (drop k xs) ≡ length xs - k = length-drop k xs in
      let step : drop k xs ++ ys ≡ drop k (xs ++ ys) = sym (drop-append k xs ys (omega arith)) in
      let m : k + (length (drop k xs ++ ys) - n) ≡ length (xs ++ ys) - n =
        omega (arith, l, length-append (drop k xs) ys, length-append xs ys) in
      ap (drop (length (drop k xs ++ ys) - n)) step
      ∙ drop-drop (length (drop k xs ++ ys) - n) k (xs ++ ys)
      ∙ ap (λ i. drop i (xs ++ ys)) m

  pub newest_all : (n : ℕ) (xs : List A) → length xs ≤ n → newest n xs ≡ xs
  newest_all n xs h = let e : length xs - n ≡ 0 = omega arith in rw e refl

  pub newest_bound : (n : ℕ) (xs : List A) → length (newest n xs) ≤ n
  newest_bound n xs = omega (arith, length-drop (length xs - n) xs)
