-- ===== src/Nmea/Payload.antt =====
-- ais_server/nmea.py: the six-bit payload decoder.
use ais_server.Prelude.{
  ℕ, ◌+◌, ◌-◌, ◌*◌, ◌/◌, ◌%◌, ◌≡◌, refl, Bool, true, false, ◌&&◌, ◌||◌, not, Option, none, some,
  List, [], ◌∷◌, ◌++◌, ltb, leb, nat_eqb, if◌then◌else◌, length, take, drop,
}
use ais_server.Prelude.Text.{Text, codes}
use ais_server.Nmea.Calendar.{datetime}

-- The value of a payload character. Python's `& 0x3F` of a negative number is its remainder by 64.
unfoldable pub sixbit : ℕ → ℕ
sixbit ch = if ltb 88 ch then (ch - 56) % 64 else (ch + 16) % 64

-- `format(v, "06b")`, a digit `1` being `true`
abbrev pub six_digits : ℕ → List Bool
six_digits v =
    nat_eqb (v / 32 % 2) 1
    ∷ nat_eqb (v / 16 % 2) 1
    ∷ nat_eqb (v / 8 % 2) 1
    ∷ nat_eqb (v / 4 % 2) 1
    ∷ nat_eqb (v / 2 % 2) 1
    ∷ nat_eqb (v % 2) 1
    ∷ []

unfoldable pub bits : Text → List Bool
bits [] = []
bits (ch ∷ payload) = six_digits (sixbit ch) ++ bits payload

abbrev pub bit : Bool → ℕ
bit true = 1
bit false = 0

-- `int(b, 2)`
unfoldable pub binary : ℕ → List Bool → ℕ
binary acc [] = acc
binary acc (d ∷ b) = binary (acc * 2 + bit d) b

-- `int(b[i:j], 2)`
unfoldable pub field : List Bool → ℕ → ℕ → ℕ
unfolding binary
field b i j = binary 0 (take (j - i) (drop i b))

unfoldable pub extract_mmsi_and_type : Text → Option ℕ × Option ℕ
unfolding bits field
extract_mmsi_and_type payload =
    let b = bits payload in
    if ltb (length b) 38 then (none, none) else (some (field b 8 38), some (field b 0 6))

-- The Boolean condition on the fields of a Type 4 or 11 message.
abbrev pub plausible : ℕ → ℕ → ℕ → ℕ → ℕ → ℕ → Bool
plausible year month day hour minute second =
    leb 1 month
    && leb month 12
    && leb 1 day
    && leb day 31
    && ltb hour 24
    && ltb minute 60
    && ltb second 60
    && leb 1970 year

-- The UNIX second; a `ValueError` of `datetime` is `None`.
abbrev pub utc_second : ℕ → ℕ → ℕ → ℕ → ℕ → ℕ → Option ℕ
utc_second year month day hour minute second =
    if plausible year month day hour minute second
    then datetime year month day hour minute second
    else none

abbrev pub is_base_station : ℕ → Bool
is_base_station msg_type = nat_eqb msg_type 4 || nat_eqb msg_type 11

unfoldable pub extract_timestamp : Text → Option ℕ
extract_timestamp payload =
    let b = bits payload in
    if ltb (length b) 6
    then none
    else if not (is_base_station (field b 0 6)) || ltb (length b) 80
    then none
    else utc_second (field b 38 52) (field b 52 56) (field b 56 61) (field b 61 66) (field b 66 72)
        (field b 72 78)

mmsi_test : extract_mmsi_and_type (codes "13aEOK?P00PD2wVMdLDRhgvL289?") ≡ (some 244670316, some 1)
unfolding extract_mmsi_and_type sixbit
mmsi_test = refl
