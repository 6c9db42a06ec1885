-- ===== src/Nmea/Tests.antt =====
-- Sentences of tools/samples.nmea, read by ais_server/nmea.py.
use ais_server.Prelude.{
  ◌<◌, ◌≡◌, refl, sym, ap, ◌∙◌, inl, inr, true, false, ◌&&◌, some, List, [], ◌∷◌, ◌++◌, arith, ltb,
  nat_eqb, ltb→lt, Bool-cases, all, All,
}
use ais_server.Prelude.Text.{Text, codes}
use ais_server.Prelude.Int.{pos}
use ais_server.Prelude.Number.{int_decimal, int_hex}
use ais_server.Nmea.{xor_loop, validate_checksum, canonicalise, fill_of, parse}
use ais_server.Nmea.Payload.{
  sixbit, bits, binary, field, extract_mmsi_and_type, is_base_station, extract_timestamp,
}
use ais_server.Nmea.Calendar.{days_in_month, days_before_year, days_of_months, toordinal, datetime}
use ais_server.Nmea.Checksum.{
  with_checksum, validate_checksum-with_checksum, validate_checksum_one_changed,
}
use ais_server.Nmea.Canonical.{canonicalise-canonicalise}
use ais_server.Nmea.Structure.{sentence, parse-sentence}
use ais_server.Nmea.Fields.{extract_mmsi_and_type_lem}
use ais_server.Nmea.Clock.{payload_key, extract_timestamp_mono}

abbrev body : Text
body = codes "AIVDM,1,1,,A,13aEOK?P00PD2wVMdLDRhgvL289?,0"

validate_checksum-with_checksum_example :
    validate_checksum (with_checksum body 38 []) ≡ nat_eqb (xor_loop 0 body) 38
validate_checksum-with_checksum_example =
    validate_checksum-with_checksum body [] 38 refl (omega arith) refl

All-ascii : (s : Text) → all (λ c. ltb c 128) s ≡ true → All (λ c. c < 128) s
All-ascii [] h = tt
All-ascii (c ∷ s) h = elim (Bool-cases (ltb c 128)) [
  | inl low ↦ (ltb→lt c 128 low, All-ascii s (ap (λ b. b && all (λ d. ltb d 128) s) (sym low) ∙ h))
  | inr high ↦ absurd (ground (arith, ap (λ b. b && all (λ d. ltb d 128) s) (sym high) ∙ h))
]

-- The channel `A` becomes `B`.
abbrev before : Text
before = codes "IVDM,1,1,,"

abbrev after : Text
after = codes ",13aEOK?P00PD2wVMdLDRhgvL289?,0"

validate_checksum_one_changed_example :
    validate_checksum (with_checksum (b'A' ∷ before ++ b'B' ∷ after) 38 []) ≡ false
unfolding validate_checksum xor_loop int_hex
validate_checksum_one_changed_example =
    validate_checksum_one_changed b'A' b'A' b'B' 38 before after [] refl
      (All-ascii (b'A' ∷ before) refl) (omega arith) (omega arith) (All-ascii after refl)
      (omega arith) refl (λ e. absurd (omega (arith, e))) refl

canonicalise-canonicalise_case :
    canonicalise
      (canonicalise (codes "!AIVDM,1,1,,a,13aEOK,0" ++ b'*' ∷ b'2' ∷ b'6' ∷ 13 ∷ 10 ∷ []))
    ≡ canonicalise (codes "!AIVDM,1,1,,a,13aEOK,0" ++ b'*' ∷ b'2' ∷ b'6' ∷ 13 ∷ 10 ∷ [])
canonicalise-canonicalise_case =
    canonicalise-canonicalise (codes "!AIVDM,1,1,,a,13aEOK,0") (13 ∷ 10 ∷ []) b'2' b'6' refl refl
      refl

abbrev fields : List Text
fields =
    codes "!AIVDM"
    ∷ codes "1"
    ∷ codes "1"
    ∷ []
    ∷ codes "A"
    ∷ codes "13aEOK?P00PD2wVMdLDRhgvL289?"
    ∷ codes "0"
    ∷ []

parse-sentence_example :
    parse (sentence fields (codes "26"))
    ≡ some (record {
      sentence_type = codes "!AIVDM";
      fragment_count = pos 1;
      fragment_number = pos 1;
      message_id = [];
      channel = codes "A";
      payload = codes "13aEOK?P00PD2wVMdLDRhgvL289?";
      fill_bits = pos 0;
      checksum_ok = validate_checksum (sentence fields (codes "26"));
    })
unfolding int_decimal fill_of
parse-sentence_example =
    parse-sentence (codes "!AIVDM") (codes "1") (codes "1") [] (codes "A")
      (codes "13aEOK?P00PD2wVMdLDRhgvL289?") (codes "0") [] (codes "26") (pos 1) (pos 1) (pos 0)
      (refl, (refl, (refl, (refl, (refl, (refl, (refl, tt)))))))
      (refl, (refl, (refl, (refl, (refl, (refl, (refl, tt))))))) refl refl refl refl

extract_mmsi_and_type_lem_example :
    extract_mmsi_and_type (codes "13aEOK?P00PD2wVMdLDRhgvL289?") ≡ (some 244670316, some 1)
unfolding sixbit
extract_mmsi_and_type_lem_example =
    extract_mmsi_and_type_lem b'1' b'3' b'a' b'E' b'O' b'K' b'?' (codes "P00PD2wVMdLDRhgvL289?")

-- Two reports of a base station, a second apart.
abbrev earlier : Text
earlier = codes "403OviQuMGCqWrRO9>E6fE700@GO"

abbrev later : Text
later = codes "403OviQuMGCqXrRO9>E6fE700@GO"

earlier_ts : extract_timestamp earlier ≡ some 1179172659
unfolding extract_timestamp bits field sixbit binary datetime toordinal days_in_month
    days_before_year days_of_months
earlier_ts = refl

later_ts : extract_timestamp later ≡ some 1179172660
unfolding extract_timestamp bits field sixbit binary datetime toordinal days_in_month
    days_before_year days_of_months
later_ts = refl

in_order : payload_key earlier < payload_key later
unfolding bits field sixbit binary
in_order = ltb→lt (payload_key earlier) (payload_key later) refl

extract_timestamp_mono_example :
    (1179172659 < 1179172660)
    × (is_base_station (field (bits earlier) 0 6) ≡ true)
    × (is_base_station (field (bits later) 0 6) ≡ true)
extract_timestamp_mono_example =
    extract_timestamp_mono earlier later 1179172659 1179172660 earlier_ts later_ts in_order
