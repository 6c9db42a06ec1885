-- ===== src/Prelude/Number.antt =====
-- Python's `int(text, base)`, for ASCII texts: white space around, a sign, and digits that single
-- underscores may stand between. The prefix `0x` that base 16 allows needs more than the two
-- characters that the program passes.
use mathlib.Core.Option
use ais_server.Prelude.{
  ℕ, ◌+◌, ◌-◌, ◌*◌, Bool, true, false, ◌&&◌, ◌||◌, Option, none, some, [], ◌∷◌, ltb, leb, nat_eqb,
  if◌then◌else◌, nat_eq, length, all, filter,
}
use ais_server.Prelude.Text.{Text, text_eq, strip}
use ais_server.Prelude.Int.{ℤ, pos, neg}

-- The white space that `int` ignores is that of C.
abbrev pub is_c_space : ℕ → Bool
is_c_space c = (leb 9 c && leb c 13) || nat_eqb c 32

abbrev pub is_decimal : ℕ → Bool
is_decimal c = leb b'0' c && leb c b'9'

-- 99 stands for no digit.
abbrev pub digit_value : ℕ → ℕ
digit_value c =
    if is_decimal c
    then c - 48
    else if leb b'a' c && leb c b'z'
    then c - 87
    else if leb b'A' c && leb c b'Z'
    then c - 55
    else 99

-- `after_digit` tells whether an underscore or the end may follow.
unfoldable pub digits : ℕ → ℕ → Bool → Text → Option ℕ
digits base acc true [] = some acc
digits base acc false [] = none
digits base acc after_digit (c ∷ s) =
    let skip = digits base acc false s in
    let next = digits base (acc * base + digit_value c) true s in
    if nat_eqb c b'_'
    then if after_digit then skip else none
    else if ltb (digit_value c) base
    then next
    else none

unfoldable pub signed : ℕ → Text → Option ℤ
unfolding digits
signed base [] = none
signed base (c ∷ s) =
    if nat_eqb c b'-'
    then Option.map neg (digits base 0 false s)
    else if nat_eqb c b'+'
    then Option.map pos (digits base 0 false s)
    else Option.map pos (digits base 0 false (c ∷ s))

-- `sys.get_int_max_str_digits()`: a longer decimal text raises `ValueError`.
abbrev pub max_str_digits : ℕ
max_str_digits = 4300

abbrev pub decimal_count : Text → ℕ
decimal_count s = length (filter is_decimal s)

-- `int(text)`; `none` is `ValueError`
unfoldable pub int_decimal : Text → Option ℤ
unfolding signed
int_decimal s =
    if ltb max_str_digits (decimal_count s) then none else signed 10 (strip is_c_space s)

-- `int(text, 16)`, for at most two characters
unfoldable pub int_hex : Text → Option ℤ
unfolding signed
int_hex s = signed 16 (strip is_c_space s)

-- `text.isdigit()`
abbrev pub isdigit : Text → Bool
isdigit [] = false
isdigit s = all is_decimal s
