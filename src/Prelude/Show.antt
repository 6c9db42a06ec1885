-- ===== src/Prelude/Show.antt =====
-- Python's `str` of an `int`, and that `int` reads it back.
use ais_server.Prelude.Tests.{ltb, nat_eqb, if◌then◌else◌, Bool-cases}
use Prim.Native.Nat.{ℕ, zero, suc, ◌+◌, ◌*◌, ◌/◌, ◌%◌, ◌^◌, ◌≤◌, ◌<◌}
use mathlib.Core.Path.{◌≡◌, refl, ap, ◌∙◌}
use mathlib.Core.Logic.{inl, inr}
use mathlib.Core.Bool.{Bool, true, false}
use mathlib.Core.Option.{some}
use mathlib.Core.Option
use mathlib.Core.List.{[], ◌∷◌}
use native.Mathlib.Omega.{arith}
use ais_server.Prelude.Text.{Text, rstrip}
use ais_server.Prelude.Int.{ℤ, pos, negsuc}
use ais_server.Prelude.Number.{
  is_c_space, is_decimal, digit_value, digits, max_str_digits, decimal_count, int_decimal,
}
use ais_server.Prelude.Lists.{all, length}

-- The digits of a number in front of a text; the fuel is more than the number.
unfoldable pub digits_before : ℕ → ℕ → Text → Text
digits_before zero n text = text
digits_before (suc fuel) n text =
    let more = digits_before fuel (n / 10) ((48 + n % 10) ∷ text) in
    if ltb n 10 then (48 + n) ∷ text else more

unfoldable pub show : ℕ → Text
unfolding digits_before
show n = digits_before (suc n) n []

-- `str(i)`
abbrev pub show_int : ℤ → Text
show_int (pos n) = show n
show_int (negsuc n) = b'-' ∷ show (suc n)

digit_read :
    (acc d n : ℕ) (after : Bool) (text : Text)
    → d < 10
    → acc * 10 + d ≡ n
    → digits 10 acc after ((48 + d) ∷ text) ≡ digits 10 n true text
unfolding digits
digit_read acc d n after text h e =
    let value : digit_value (48 + d) ≡ d = ground arith in
    let plain : nat_eqb (48 + d) 95 ≡ false = ground arith in
    let small : ltb d 10 ≡ true = ground arith in rw (plain, value, small, e) refl

pub digits-digits_before :
    (fuel n : ℕ) (after : Bool) (text : Text)
    → n < fuel
    → digits 10 0 after (digits_before fuel n text) ≡ digits 10 n true text
unfolding digits_before
digits-digits_before zero n after text h = elim h [ ]
digits-digits_before (suc fuel) n after text h = elim (Bool-cases (ltb n 10)) [
  | inl small ↦ rw small (digit_read 0 n n after text (ground arith) (omega arith))
  | inr large ↦ rw large (
      digits-digits_before fuel (n / 10) after ((48 + n % 10) ∷ text) (ground arith)
      ∙ digit_read (n / 10) (n % 10) n true text (omega arith) (omega arith))
]

-- Reading the digits of a number gives the number: the fuel is enough.
pub digits-show : (n : ℕ) (after : Bool) → digits 10 0 after (show n) ≡ some n
unfolding show digits
digits-show n after = digits-digits_before (suc n) n after [] (omega arith)

pub all_decimal :
    (fuel n : ℕ) (text : Text)
    → n < fuel
    → all is_decimal text ≡ true
    → all is_decimal (digits_before fuel n text) ≡ true
unfolding digits_before
all_decimal zero n text h a = elim h [ ]
all_decimal (suc fuel) n text h a = elim (Bool-cases (ltb n 10)) [
  | inl small ↦ rw small (ground arith)
  | inr large ↦
      rw large (all_decimal fuel (n / 10) ((48 + n % 10) ∷ text) (ground arith) (ground arith))
]

length-digits_before :
    (fuel n k : ℕ) (text : Text)
    → n < fuel
    → n < 10 ^ suc k
    → length (digits_before fuel n text) ≤ length text + suc k
unfolding digits_before
length-digits_before zero n k text h b = elim h [ ]
length-digits_before (suc fuel) n zero text h b =
    let small : ltb n 10 ≡ true = ground (arith, b) in rw small (omega arith)
length-digits_before (suc fuel) n (suc k) text h b = elim (Bool-cases (ltb n 10)) [
  | inl small ↦ rw small (omega arith)
  | inr large ↦
      let power : 10 ^ suc (suc k) ≡ 10 ^ suc k * 10 = grind arith in
      let fewer : n / 10 < 10 ^ suc k = omega (arith, power) in
      rw large (
        omega
          (arith, length-digits_before fuel (n / 10) k ((48 + n % 10) ∷ text) (ground arith) fewer))
]

rstrip_decimal : (s : Text) → all is_decimal s ≡ true → rstrip is_c_space s ≡ s
rstrip_decimal [] h = refl
rstrip_decimal (c ∷ s) h = ground (arith, rstrip_decimal s)

decimal_count-le : (s : Text) → decimal_count s ≤ length s
decimal_count-le [] = omega arith
decimal_count-le (c ∷ s) = ground (arith, decimal_count-le s)

-- A text of decimal digits, at most as many as `int` reads, is read digit by digit.
int_of_digits :
    (s : Text) (n : ℕ)
    → all is_decimal s ≡ true
    → length s ≤ 4300
    → digits 10 0 false s ≡ some n
    → int_decimal s ≡ some (pos n)
unfolding int_decimal
int_of_digits [] n a l d = absurd (cc d)
int_of_digits (c ∷ s) n a l d =
    let few : ltb max_str_digits (decimal_count (c ∷ s)) ≡ false =
      ground (arith, decimal_count-le (c ∷ s)) in
    let plain : is_c_space c ≡ false = ground (arith, a) in
    let no_minus : nat_eqb c b'-' ≡ false = ground (arith, a) in
    let no_plus : nat_eqb c b'+' ≡ false = ground (arith, a) in
    rw (few, plain, rstrip_decimal (c ∷ s) a, no_minus, no_plus) (ap (Option.map pos) d)

pub int_decimal-show : (n : ℕ) → n < 2 ^ 63 → int_decimal (show n) ≡ some (pos n)
unfolding show digits
int_decimal-show n h =
    int_of_digits (digits_before (suc n) n []) n (all_decimal (suc n) n [] (omega arith) refl)
      (omega (arith, length-digits_before (suc n) n 18 [] (omega arith) (omega arith)))
      (digits-digits_before (suc n) n false [] (omega arith))
