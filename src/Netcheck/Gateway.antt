-- ===== src/Netcheck/Gateway.antt =====
-- ais_server/netcheck.py: the default gateway, from the lines of /proc/net/route. Hexadecimal numbers
-- stand there without a prefix.
use ais_server.Prelude.{
  ℕ, ◌+◌, ◌*◌, ◌/◌, ◌%◌, ◌<◌, ◌≡◌, ◌≢◌, refl, ap, ◌∙◌, inl, inr, Bool-cases, length, Bool, true,
  false, Option, none, some, List, [], ◌∷◌, ◌++◌, arith, ltb, nat_eqb, if◌then◌else◌, take, drop,
  All,
}
use ais_server.Prelude.Text.{Text, codes, text_eqb, text_eqb_iff, words}
use ais_server.Prelude.Int.{ℤ, pos, negsuc}
use ais_server.Prelude.Number.{is_c_space, digit_value, digits, signed, int_hex}
use ais_server.Prelude.Show.{show, show_int}

-- `flags & 0x2`: the second bit, of a negative number in two's complement.
abbrev has_gateway_bit : ℤ → Bool
has_gateway_bit (pos n) = nat_eqb (n / 2 % 2) 1
has_gateway_bit (negsuc n) = nat_eqb (n / 2 % 2) 0

abbrev dotted : Option ℤ → Option Text → Option Text
dotted none rest = none
dotted (some i) none = none
dotted (some i) (some rest) = some (show_int i ++ b'.' ∷ rest)

-- The octet at a place of the hexadecimal address.
abbrev octet : Text → ℕ → Option ℤ
octet gw_hex i = int_hex (take 2 (drop i gw_hex))

abbrev last_octet : Option ℤ → Option Text
last_octet none = none
last_octet (some i) = some (show_int i)

-- A `ValueError` of any octet is no gateway.
unfoldable address_of : Text → Option Text
unfolding int_hex
address_of gw_hex =
    dotted (octet gw_hex 6)
      (dotted (octet gw_hex 4) (dotted (octet gw_hex 2) (last_octet (octet gw_hex 0))))

-- What a line with a zero destination gives, by its flags: the result of the call, or the next line.
abbrev by_flags : Text → Option Text → Option ℤ → Option Text
by_flags gw_hex rest none = none
by_flags gw_hex rest (some flags) = if has_gateway_bit flags then address_of gw_hex else rest

abbrev by_parts : List Text → Option Text → Option Text
by_parts (iface ∷ destination ∷ gw_hex ∷ flags ∷ more) rest =
    if text_eqb destination (codes "00000000") then by_flags gw_hex rest (int_hex flags) else rest
by_parts _ rest = rest

unfoldable route_loop : List Text → Option Text
unfolding words int_hex address_of
route_loop [] = none
route_loop (line ∷ lines) = by_parts (words line) (route_loop lines)

-- No lines at all, where the header should be, is a `StopIteration`; no file is an `OSError`.
unfoldable pub default_gateway : Option (List Text) → Option Text
unfolding route_loop
default_gateway none = none
default_gateway (some []) = none
default_gateway (some (header ∷ lines)) = route_loop lines

-- A hexadecimal digit and a byte, as the kernel prints them.
abbrev hex_digit : ℕ → ℕ
hex_digit n = if ltb n 10 then 48 + n else 55 + n

abbrev hex_byte : ℕ → Text
hex_byte n = hex_digit (n / 16) ∷ hex_digit (n % 16) ∷ []

digit_value-hex_digit : (n : ℕ) → n < 16 → digit_value (hex_digit n) ≡ n
digit_value-hex_digit n h = ground arith

abbrev IsPlainDigit : ℕ → Type 0
IsPlainDigit c =
    (is_c_space c ≡ false)
    × ((nat_eqb c b'-' ≡ false) × ((nat_eqb c b'+' ≡ false) × (nat_eqb c b'_' ≡ false)))

hex_digit-IsPlainDigit : (n : ℕ) → n < 16 → IsPlainDigit (hex_digit n)
hex_digit-IsPlainDigit n h = (ground arith, (ground arith, (ground arith, ground arith)))

hex_pair :
    (c d a b : ℕ)
    → IsPlainDigit c
    → IsPlainDigit d
    → digit_value c ≡ a
    → digit_value d ≡ b
    → a < 16
    → b < 16
    → int_hex (c ∷ d ∷ []) ≡ some (pos (a * 16 + b))
unfolding int_hex signed digits
hex_pair c d a b (space, (minus, (plus, under))) (space', (minus', (plus', under'))) high low h k =
    let first : ltb a 16 ≡ true = ground arith in
    let second : ltb b 16 ≡ true = ground arith in
    rw (space, space', space, minus, plus, under, under', high, low, first, second)
      (ap (λ i. some (pos i)) (omega arith))

int_hex-hex_byte : (n : ℕ) → n < 256 → int_hex (hex_byte n) ≡ some (pos n)
int_hex-hex_byte n h =
    hex_pair (hex_digit (n / 16)) (hex_digit (n % 16)) (n / 16) (n % 16)
      (hex_digit-IsPlainDigit (n / 16) (omega arith))
      (hex_digit-IsPlainDigit (n % 16) (omega arith)) (digit_value-hex_digit (n / 16) (omega arith))
      (digit_value-hex_digit (n % 16) (omega arith)) (omega arith) (omega arith)
    ∙ ap (λ i. some (pos i)) (omega arith)

-- The address as the kernel prints it on a little-endian machine: the last octet first.
abbrev hex_address : ℕ → ℕ → ℕ → ℕ → Text
hex_address a b c d = hex_byte d ++ hex_byte c ++ hex_byte b ++ hex_byte a

abbrev pub dotted_quad : ℕ → ℕ → ℕ → ℕ → Text
dotted_quad a b c d = show a ++ b'.' ∷ (show b ++ b'.' ∷ (show c ++ b'.' ∷ show d))

address_of-hex_address :
    (a b c d : ℕ)
    → (a < 256) × ((b < 256) × ((c < 256) × (d < 256)))
    → address_of (hex_address a b c d) ≡ some (dotted_quad a b c d)
unfolding address_of
address_of-hex_address a b c d (h₁, (h₂, (h₃, h₄))) =
    rw (int_hex-hex_byte a h₁, int_hex-hex_byte b h₂, int_hex-hex_byte c h₃, int_hex-hex_byte d h₄)
      refl

-- A line that the loop passes by: one with fewer than four words, another destination, or flags
-- without the gateway flag.
pub data IsOther (line : Text) : Type 0 where
  short : length (words line) < 4 → IsOther line
  other_destination :
      {iface destination : Text} {more : List Text}
      → words line ≡ iface ∷ destination ∷ more
      → destination ≢ codes "00000000"
      → IsOther line
  no_gateway :
      {iface destination gw_hex flags : Text} {more : List Text} {number : ℕ}
      → words line ≡ iface ∷ destination ∷ gw_hex ∷ flags ∷ more
      → int_hex flags ≡ some (pos number)
      → nat_eqb (number / 2 % 2) 0 ≡ true
      → IsOther line

by_parts-short :
    (parts : List Text) (rest : Option Text) → length parts < 4 → by_parts parts rest ≡ rest
by_parts-short [] rest h = refl
by_parts-short (a ∷ []) rest h = refl
by_parts-short (a ∷ b ∷ []) rest h = refl
by_parts-short (a ∷ b ∷ c ∷ []) rest h = refl
by_parts-short (a ∷ b ∷ c ∷ d ∷ more) rest h = absurd (omega arith)

by_parts-other_destination :
    (iface destination : Text) (more : List Text) (rest : Option Text)
    → destination ≢ codes "00000000"
    → by_parts (iface ∷ destination ∷ more) rest ≡ rest
by_parts-other_destination iface destination [] rest h = refl
by_parts-other_destination iface destination (g ∷ []) rest h = refl
by_parts-other_destination iface destination (g ∷ f ∷ more) rest h =
    elim (Bool-cases (text_eqb destination (codes "00000000"))) [
      | inl e ↦ absurd (h ((text_eqb_iff destination (codes "00000000")).0 e))
      | inr e ↦ rw e refl
    ]

by_parts-no_gateway :
    (iface destination gw_hex flags : Text) (more : List Text) (number : ℕ) (rest : Option Text)
    → int_hex flags ≡ some (pos number)
    → nat_eqb (number / 2 % 2) 0 ≡ true
    → by_parts (iface ∷ destination ∷ gw_hex ∷ flags ∷ more) rest ≡ rest
by_parts-no_gateway iface destination gw_hex flags more number rest f g =
    let unset : nat_eqb (number / 2 % 2) 1 ≡ false = ground (arith, g) in
    elim (Bool-cases (text_eqb destination (codes "00000000"))) [
      | inl e ↦ rw (e, f, unset) refl
      | inr e ↦ rw e refl
    ]

passed_by : (line : Text) (rest : Option Text) → IsOther line → by_parts (words line) rest ≡ rest
passed_by line rest (short h) = by_parts-short (words line) rest h
passed_by line rest (other_destination {iface = iface} {destination} {more} w h) =
    rw w (by_parts-other_destination iface destination more rest h)
passed_by line rest
      (no_gateway {iface = iface} {destination} {gw_hex} {flags} {more} {number} w f g) =
    rw w (by_parts-no_gateway iface destination gw_hex flags more number rest f g)

module _ (a b c d : ℕ) (h : (a < 256) × ((b < 256) × ((c < 256) × (d < 256)))) where
  route_loop-hex_address :
      (before : List Text) (line : Text) (after : List Text) (iface flags : Text) (more : List Text)
      → (number : ℕ) → All IsOther before
      → words line ≡ iface ∷ codes "00000000" ∷ hex_address a b c d ∷ flags ∷ more
      → int_hex flags ≡ some (pos number)
      → nat_eqb (number / 2 % 2) 1 ≡ true
      → route_loop (before ++ line ∷ after) ≡ some (dotted_quad a b c d)
  unfolding route_loop
  route_loop-hex_address [] line after iface flags more number o w f g =
      rw (w, f, g) (address_of-hex_address a b c d h)
  route_loop-hex_address (l ∷ before) line after iface flags more number (o, os) w f g =
      passed_by l (route_loop (before ++ line ∷ after)) o
      ∙ route_loop-hex_address before line after iface flags more number os w f g

  -- The default gateway is the address of the first default route that has the gateway flag, whether
  -- that route is up or not, as a dotted quad, when it is printed as eight hexadecimal digits with the
  -- last octet first and each line before it has fewer than four words, another destination, or
  -- flags without the gateway flag.
  pub default_gateway-hex_address :
      (header : Text) (before : List Text) (line : Text) (after : List Text) (iface flags : Text)
      → (more : List Text) → (number : ℕ) → All IsOther before
      → words line ≡ iface ∷ codes "00000000" ∷ hex_address a b c d ∷ flags ∷ more
      → int_hex flags ≡ some (pos number)
      → nat_eqb (number / 2 % 2) 1 ≡ true
      → default_gateway (some (header ∷ before ++ line ∷ after)) ≡ some (dotted_quad a b c d)
  unfolding default_gateway
  default_gateway-hex_address header before line after iface flags more number o w f g =
      route_loop-hex_address before line after iface flags more number o w f g
