-- ===== src/Dedup/Tests.antt =====
-- Runs of the duplicate detector of ais_server/dedup.py over a cache for eight entries that live ten
-- seconds, with a digest that is the text itself.
use ais_server.Prelude.{ℕ, ◌≡◌, refl, false, none, some, [], ◌∷◌, ◌++◌, arith, In}
use ais_server.Prelude.Text.{Text, codes}
use ais_server.Nmea.{canonicalise}
use ais_server.Dedup.{init, key, check}
use ais_server.Dedup.Cache.{TtlCache}
use ais_server.Dedup.Sample.{bounded_cache, find, without, add}
use ais_server.Dedup.Inherit.{Call, answer, after, call_ts, check_inherits, check_has_first_copy}

abbrev sample : TtlCache Text ℕ 10000 8
sample = bounded_cache 10000 8

abbrev digest : Text → Text
digest s = s

-- The same sentence twice, the second time with CR and LF, and another one in between.
abbrev first : Call
first = record {
  sentence = codes "!AIVDM,1,1,,A,13aEOK,0*26";
  arrival_ts = some 500;
  clock = 600;
  timer = 0;
}

abbrev other : Call
other = record {
  sentence = codes "!AIVDM,1,1,,B,15Mvlf,0*31";
  arrival_ts = none;
  clock = 1700;
  timer = 1000;
}

abbrev copy : Call
copy = record {
  sentence = codes "!AIVDM,1,1,,A,13aEOK,0*26" ++ 13 ∷ 10 ∷ [];
  arrival_ts = some 2500;
  clock = 2600;
  timer = 2000;
}

check_inherits_example :
    (answer 10000 8 sample digest (after 10000 8 sample digest (other ∷ first ∷ [])) copy).1
    ≡ some (false, 500)
unfolding canonicalise check key init find without add
check_inherits_example =
    check_inherits 10000 8 sample digest [] (other ∷ []) first copy 500 refl refl (omega arith)
      (omega arith, tt) (omega arith, tt)

no_collision :
    (a : Call)
    → In a (other ∷ first ∷ [])
    → digest (canonicalise a.sentence) ≡ digest (canonicalise copy.sentence)
    → canonicalise a.sentence ≡ canonicalise copy.sentence
no_collision a i h = h

check_has_first_copy_example :
    (a : Call) × In a (other ∷ first ∷ [])
    × (canonicalise a.sentence ≡ canonicalise copy.sentence)
    × (call_ts a ≡ 500)
check_has_first_copy_example =
    check_has_first_copy 10000 8 sample digest (other ∷ first ∷ []) copy 500 no_collision
      check_inherits_example
