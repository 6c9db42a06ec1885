-- ===== src/Nmea.antt =====
-- ais_server/nmea.py: checksum, canonical form and structure of an AIS sentence. The payload decoder
-- is in Nmea/Payload.
pub mod Payload
pub mod Calendar
pub mod Checksum
pub mod Canonical
pub mod Structure
pub mod Fields
pub mod Clock
mod Tests
use ais_server.Prelude.{
  ℕ, ◌+◌, ◌*◌, ◌≡◌, refl, Bool, true, false, ◌||◌, Option, none, some, List, [], ◌∷◌, ◌++◌, map,
  nat_eqb, if◌then◌else◌, take,
}
use ais_server.Prelude.Text.{
  Text, codes, starts_with, is_space, lstrip, strip, split_once, rsplit_once, split, upper,
}
use ais_server.Prelude.Int.{ℤ, pos}
use Prim.Native.Nat.{bit_xor}
use ais_server.Prelude.Number.{int_decimal, int_hex, isdigit}

-- The alternatives of `AIS_RE`, with the `!` and the comma around them.
abbrev pub ais_starts : List Text
ais_starts =
    codes "!AIVDM,"
    ∷ codes "!AIVDO,"
    ∷ codes "!BSVDM,"
    ∷ codes "!ABVDM,"
    ∷ codes "!ANVDM,"
    ∷ codes "!ARVDM,"
    ∷ codes "!AXVDM,"
    ∷ codes "!AIVDO,"
    ∷ []

abbrev pub starts_with_any : List Text → Text → Bool
starts_with_any [] s = false
starts_with_any (p ∷ ps) s = starts_with s p || starts_with_any ps s

-- `AIS_RE.match(s)`
unfoldable pub ais_re : Text → Bool
ais_re s = starts_with_any ais_starts s

-- The characters that `lstrip("!$")` takes away.
abbrev pub is_start : ℕ → Bool
is_start c = nat_eqb c b'!' || nat_eqb c b'$'

-- The loop `cs ^= ord(ch)`.
unfoldable pub xor_loop : ℕ → Text → ℕ
xor_loop cs [] = cs
xor_loop cs (ch ∷ body) = xor_loop (bit_xor cs ch) body

abbrev pub same_int : ℕ → Option ℤ → Bool
same_int cs (some (pos n)) = nat_eqb cs n
same_int cs _ = false

abbrev pub check_parts : Option (Text × Text) → Bool
check_parts none = false
check_parts (some (body, checksum)) =
    same_int (xor_loop 0 (lstrip is_start body)) (int_hex (take 2 checksum))

-- A `ValueError` of `int` is the answer `False`, as is a sentence with no `*`.
unfoldable pub validate_checksum : Text → Bool
unfolding xor_loop int_hex
validate_checksum sentence = check_parts (rsplit_once b'*' sentence)

abbrev pub canonical_parts : Text → Option (Text × Text) → Text
canonical_parts s none = s
canonical_parts s (some (body, rest)) = body ++ b'*' ∷ map upper (take 2 rest)

unfoldable pub canonicalise : Text → Text
canonicalise sentence = let s = strip is_space sentence in canonical_parts s (rsplit_once b'*' s)

pub record NmeaParse : Type 0 where
  pub sentence_type : Text
  pub fragment_count : ℤ
  pub fragment_number : ℤ
  pub message_id : Text
  pub channel : Text
  pub payload : Text
  pub fill_bits : ℤ
  pub checksum_ok : Bool

infixl 5 ◌>>=◌
abbrev ◌>>=◌ {ℓ κ} : {A : Type ℓ} {B : Type κ} → Option A → (A → Option B) → Option B
none >>= f = none
some a >>= f = f a

-- `int(parts[6]) if parts[6].isdigit() else 0`
unfoldable pub fill_of : Text → Option ℤ
unfolding int_decimal
fill_of s = if isdigit s then int_decimal s else some (pos 0)

-- The fields of a sentence whose head has been split at the commas; fewer than seven parts, or a
-- `ValueError` of `int`, give `None`.
unfoldable pub parse_parts : Bool → List Text → Option NmeaParse
parse_parts checksum_ok (p₀ ∷ p₁ ∷ p₂ ∷ p₃ ∷ p₄ ∷ p₅ ∷ p₆ ∷ more) = do
  count ← int_decimal p₁
  number ← int_decimal p₂
  fill ← fill_of p₆
  some (record {
    sentence_type = p₀;
    fragment_count = count;
    fragment_number = number;
    message_id = p₃;
    channel = p₄;
    payload = p₅;
    fill_bits = fill;
    checksum_ok = checksum_ok;
  })
parse_parts checksum_ok _ = none

unfoldable pub parse : Text → Option NmeaParse
parse sentence =
    if ais_re sentence
    then parse_parts (validate_checksum sentence) (split b',' (split_once b'*' sentence).0)
    else none

abbrev good : Text
good = codes "!AIVDM,1,1,,A,13aEOK?P00PD2wVMdLDRhgvL289?,0*26"

good_valid : validate_checksum good ≡ true
unfolding validate_checksum
good_valid = refl

good_parse :
    parse good
    ≡ some (record {
      sentence_type = codes "!AIVDM";
      fragment_count = pos 1;
      fragment_number = pos 1;
      message_id = [];
      channel = codes "A";
      payload = codes "13aEOK?P00PD2wVMdLDRhgvL289?";
      fill_bits = pos 0;
      checksum_ok = true;
    })
unfolding parse ais_re validate_checksum parse_parts fill_of
good_parse = refl

good_canonical : canonicalise (good ++ 13 ∷ 10 ∷ []) ≡ good
unfolding canonicalise
good_canonical = refl
