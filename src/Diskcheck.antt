-- ===== src/Diskcheck.antt =====
-- ais_server/diskcheck.py: the watchdog of the free disk space, one cycle at a time. A cycle takes the
-- free bytes of the snapshot, 0 if it has none, or nothing if the snapshot failed.
mod Snapshot
mod Watched
mod Tests
use ais_server.Prelude.{
  ℕ, ◌*◌, Bool, true, false, ◌&&◌, Option, none, some, List, ◌∷◌, ltb, if◌then◌else◌,
}

pub data Level : Type 0 where
  ok : Level
  warn : Level
  low : Level

pub record DiskCheck : Type 0 where
  pub low_water : ℕ
  pub warn_water : ℕ
  pub state : Level

unfoldable pub new : ℕ → ℕ → DiskCheck
new low_water_mb warn_water_mb = record {
  low_water = low_water_mb * 1024 * 1024;
  warn_water = warn_water_mb * 1024 * 1024;
  state = ok;
}

abbrev pub level_eqb : Level → Level → Bool
level_eqb ok ok = true
level_eqb warn warn = true
level_eqb low low = true
level_eqb _ _ = false

unfoldable pub new_state : DiskCheck → ℕ → Level
new_state d free =
    if ltb 0 free && ltb free d.low_water
    then low
    else (if ltb 0 free && ltb free d.warn_water then warn else ok)

-- The second result is the level that is logged, at a change only.
unfoldable pub cycle : DiskCheck → Option ℕ → DiskCheck × Option Level
unfolding new_state
cycle d none = (d, none)
cycle d (some free) =
    let s = new_state d free in
    if level_eqb s d.state then (d, none) else (record d { state = s }, some s)

abbrev pub add_line : Option Level → List Level → List Level
add_line none log = log
add_line (some l) log = l ∷ log
