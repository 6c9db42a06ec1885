-- ===== src/Nmea/Fields.antt =====
-- What the payload decoder reads: the message type, the MMSI, and the time of a base station.
use ais_server.Prelude.{
  ℕ, ◌+◌, ◌*◌, ◌/◌, ◌%◌, ◌≤◌, ◌<◌, ◌≡◌, refl, ap, ◌∙◌, Bool, none, some, List, [], ◌∷◌, ◌++◌, arith,
  nat_eqb, if◌then◌else◌, lt→ltb, le→ltb_false, length, take, drop,
}
use ais_server.Prelude.Text.{Text}
use mathlib.Core.Path.{ap₂}
use ais_server.Nmea.Payload.{sixbit, six_digits, bits, bit, binary, field, extract_mmsi_and_type}

sixbit-lt : (c : ℕ) → sixbit c < 64
unfolding sixbit
sixbit-lt c = ground arith

bit-eqb : (n : ℕ) → n < 2 → bit (nat_eqb n 1) ≡ n
bit-eqb n h = ground arith

-- The digits of a six-bit value add up to it, in the parts that the fields take.
digit_sums :
    (v : ℕ)
    → v < 64
    → (v / 32 % 2 * 32 + v / 16 % 2 * 16 + v / 8 % 2 * 8 + v / 4 % 2 * 4 + v / 2 % 2 * 2 + v % 2
        ≡ v)
      × (v / 8 % 2 * 8 + v / 4 % 2 * 4 + v / 2 % 2 * 2 + v % 2 ≡ v % 16)
      × (v / 32 % 2 * 2 + v / 16 % 2 ≡ v / 16)
digit_sums v h = (omega arith, omega arith, omega arith)

pub length-bits : (payload : Text) → length (bits payload) ≡ 6 * length payload
unfolding bits
length-bits [] = refl
length-bits (c ∷ payload) = omega (arith, length-bits payload)

-- Six digits in front of the rest of a field.
binary_six :
    (acc v : ℕ) (rest : List Bool)
    → v < 64
    → binary acc (six_digits v ++ rest) ≡ binary (acc * 64 + v) rest
unfolding binary
binary_six acc v rest h =
    ap (λ n. binary n rest)
      (omega (
        arith,
        bit-eqb (v / 32 % 2) (omega arith),
        bit-eqb (v / 16 % 2) (omega arith),
        bit-eqb (v / 8 % 2) (omega arith),
        bit-eqb (v / 4 % 2) (omega arith),
        bit-eqb (v / 2 % 2) (omega arith),
        bit-eqb (v % 2) (omega arith),
      ))

-- The low four digits at the start of a field, and the high two at its end.
binary_low_four :
    (v : ℕ) (rest : List Bool)
    → v < 64
    → binary 0 (drop 2 (six_digits v) ++ rest) ≡ binary (v % 16) rest
unfolding binary
binary_low_four v rest h =
    ap (λ n. binary n rest)
      (omega (
        arith,
        bit-eqb (v / 8 % 2) (omega arith),
        bit-eqb (v / 4 % 2) (omega arith),
        bit-eqb (v / 2 % 2) (omega arith),
        bit-eqb (v % 2) (omega arith),
      ))

binary_high_two : (acc v : ℕ) → v < 64 → binary acc (take 2 (six_digits v)) ≡ acc * 4 + v / 16
unfolding binary
binary_high_two acc v h =
    omega (arith, bit-eqb (v / 32 % 2) (omega arith), bit-eqb (v / 16 % 2) (omega arith))

binary_whole : (v : ℕ) → v < 64 → binary 0 (six_digits v) ≡ v
unfolding binary
binary_whole v h = binary_six 0 v [] h ∙ omega arith

binary_mmsi :
    (v₁ v₂ v₃ v₄ v₅ v₆ : ℕ)
    → v₁ < 64
    → v₂ < 64
    → v₃ < 64
    → v₄ < 64
    → v₅ < 64
    → v₆ < 64
    → binary 0 (
        drop 2 (six_digits v₁)
        ++ (six_digits v₂
            ++ (six_digits v₃ ++ (six_digits v₄ ++ (six_digits v₅ ++ take 2 (six_digits v₆))))))
      ≡ v₁ % 16 * 67108864 + v₂ * 1048576 + v₃ * 16384 + v₄ * 256 + v₅ * 4 + v₆ / 16
binary_mmsi v₁ v₂ v₃ v₄ v₅ v₆ h₁ h₂ h₃ h₄ h₅ h₆ =
    let last = take 2 (six_digits v₆) in
    let t₅ = six_digits v₅ ++ last in
    let t₄ = six_digits v₄ ++ t₅ in
    let t₃ = six_digits v₃ ++ t₄ in
    let a₂ : ℕ = v₁ % 16 * 64 + v₂ in
    let a₃ : ℕ = a₂ * 64 + v₃ in
    let a₄ : ℕ = a₃ * 64 + v₄ in
    let a₅ : ℕ = a₄ * 64 + v₅ in
    binary_low_four v₁ (six_digits v₂ ++ t₃) h₁
    ∙ binary_six (v₁ % 16) v₂ t₃ h₂
    ∙ binary_six a₂ v₃ t₄ h₃
    ∙ binary_six a₃ v₄ t₅ h₄
    ∙ binary_six a₄ v₅ last h₅
    ∙ binary_high_two a₅ v₆ h₆
    ∙ omega arith

-- A payload of at least seven characters has a message type, its first character, and an MMSI: the
-- low four bits of the second, the next four, and the high two bits of the seventh.
pub extract_mmsi_and_type_lem :
    (c₀ c₁ c₂ c₃ c₄ c₅ c₆ : ℕ) (payload : Text)
    → extract_mmsi_and_type (c₀ ∷ c₁ ∷ c₂ ∷ c₃ ∷ c₄ ∷ c₅ ∷ c₆ ∷ payload) ≡ (
      some (
          sixbit c₁ % 16 * 67108864
          + sixbit c₂ * 1048576
          + sixbit c₃ * 16384
          + sixbit c₄ * 256
          + sixbit c₅ * 4
          + sixbit c₆ / 16),
      some (sixbit c₀),
    )
unfolding extract_mmsi_and_type
extract_mmsi_and_type_lem c₀ c₁ c₂ c₃ c₄ c₅ c₆ payload =
    let all_chars = c₀ ∷ c₁ ∷ c₂ ∷ c₃ ∷ c₄ ∷ c₅ ∷ c₆ ∷ payload in
    let b = bits all_chars in
    let long : 38 ≤ length b = omega (arith, length-bits all_chars) in
    ap (λ short. if short then (none, none) else (some (field b 8 38), some (field b 0 6)))
      (le→ltb_false (length b) 38 long)
    ∙ ap₂ (λ m t. (some m, some t))
        (binary_mmsi (sixbit c₁) (sixbit c₂) (sixbit c₃) (sixbit c₄) (sixbit c₅) (sixbit c₆)
          (sixbit-lt c₁) (sixbit-lt c₂) (sixbit-lt c₃) (sixbit-lt c₄) (sixbit-lt c₅) (sixbit-lt c₆))
        (binary_whole (sixbit c₀) (sixbit-lt c₀))

-- A shorter payload has neither.
pub extract_mmsi_and_type_short :
    (payload : Text) → length payload < 7 → extract_mmsi_and_type payload ≡ (none, none)
unfolding extract_mmsi_and_type
extract_mmsi_and_type_short payload h =
    let b = bits payload in
    ap (λ short. if short then (none, none) else (some (field b 8 38), some (field b 0 6)))
      (lt→ltb (length b) 38 (omega (arith, length-bits payload)))
