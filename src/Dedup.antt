-- ===== src/Dedup.antt =====
-- ais_server/dedup.py: the duplicate detector, over the two things that it does not implement: the
-- cache of the package `cachetools` and the digest SHA-1.
pub mod Cache
pub mod Inherit
pub mod Sample
mod Tests
use ais_server.Prelude.{ℕ, ◌+◌, Bool, true, false, Option, none, some}
use ais_server.Prelude.Text.{Text}
use ais_server.Nmea.{canonicalise}
use ais_server.Reorder.{or_clock}
use ais_server.Dedup.Cache.{TtlCache}

pub record Stats : Type 0 where
  pub seen : ℕ
  pub duplicates : ℕ
  pub cache_size : ℕ

module _ (ttl max_entries : ℕ) (T : TtlCache Text ℕ ttl max_entries) (sha1 : Text → Text) where
  open T use {Cache, empty, lookup, store, size}

  pub record Deduper : Type 0 where
    pub cache : Cache
    pub seen : ℕ
    pub duplicates : ℕ

  unfoldable pub init : Deduper
  init = record { cache = empty; seen = 0; duplicates = 0 }

  unfoldable pub key : Text → Text
  key sentence = sha1 (canonicalise sentence)

  -- `self._cache[key] = arrival_ts`, which raises `ValueError` if no entry fits at all.
  abbrev pub remember : Deduper → ℕ → Option Cache → Deduper × Option (Bool × ℕ)
  remember d ts none = (d, none)
  remember d ts (some c) = (record d { cache = c }, some (true, ts))

  abbrev pub decide : Deduper → ℕ → ℕ → Text → Option ℕ → Deduper × Option (Bool × ℕ)
  decide d timer ts k none = remember d ts (store timer d.cache k ts)
  decide d timer ts k (some existing) =
      (record d { duplicates = d.duplicates + 1 }, some (false, existing))

  -- Whether the sentence is new and the arrival time of its first copy; no result is an exception.
  -- `clock` is the time of day and `timer` the clock of the cache.
  unfoldable pub check : Deduper → Text → Option ℕ → ℕ → ℕ → Deduper × Option (Bool × ℕ)
  check d sentence arrival_ts clock timer =
      let ts = or_clock arrival_ts clock in
      let k = key sentence in
      let (cache, existing) = lookup timer d.cache k in
      decide (record d { cache = cache; seen = d.seen + 1 }) timer ts k existing

  -- The counters, without the rate, which is the quotient of the second by the first.
  unfoldable pub stats : Deduper → ℕ → Stats
  stats d timer = record {
    seen = d.seen;
    duplicates = d.duplicates;
    cache_size = size timer d.cache;
  }
