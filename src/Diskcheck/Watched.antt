-- ===== src/Diskcheck/Watched.antt =====
-- ais_server/diskcheck.py: what the watchdog logs, described by the free space and the water marks.
use mathlib.Core.Option
use ais_server.Prelude.{ℕ, ◌≤◌, ◌<◌, ◌≡◌, ◌≢◌, ◌⊎◌, Option, none, some, List, [], ◌∷◌}
use ais_server.Prelude.Text.{Text, codes}
use ais_server.Diskcheck.{Level, ok, warn, low}
use ais_server.Diskcheck.Snapshot.{Usage, Host, search_usage}

-- The answer on the journal does not raise: `journalctl` cannot be run, its text has no size, or the
-- size is a number.
pub data Readable (h : Host) : Type 0 where
  not_run : h.journalctl ≡ none → Readable h
  no_size : {out : Text} → h.journalctl ≡ some out → search_usage out ≡ none → Readable h
  sized :
      {out : Text} {figures : Text} {m bytes : ℕ}
      → h.journalctl ≡ some out
      → search_usage out ≡ some (figures, m)
      → h.scaled figures m ≡ some bytes
      → Readable h

-- It raises: the size is no number.
pub data Raises (h : Host) : Type 0 where
  not_a_number :
      {out : Text} {figures : Text} {m : ℕ}
      → h.journalctl ≡ some out
      → search_usage out ≡ some (figures, m)
      → h.scaled figures m ≡ none
      → Raises h

-- The free bytes: those of the data's disk, those of the root's if the data's cannot be read, or 0 if
-- neither can.
pub data HasFree (data_path : Text) (h : Host) : ℕ → Type 0 where
  of_data : {u : Usage} → h.disk_usage data_path ≡ some u → HasFree data_path h u.free
  of_root :
      {u : Usage}
      → h.disk_usage data_path ≡ none
      → h.disk_usage (codes "/") ≡ some u
      → HasFree data_path h u.free
  unknown : h.disk_usage data_path ≡ none → h.disk_usage (codes "/") ≡ none → HasFree data_path h 0

-- The level of some free bytes; 0 bytes count as ok.
pub data IsLevel (low_water warn_water free : ℕ) : Level → Type 0 where
  is_low : 0 < free → free < low_water → IsLevel low_water warn_water free low
  is_warn : 0 < free → low_water ≤ free → free < warn_water → IsLevel low_water warn_water free warn
  is_ok :
      (free ≡ 0) ⊎ ((low_water ≤ free) × (warn_water ≤ free)) → IsLevel low_water warn_water free ok

-- From a level, the machines that the snapshots find give these log lines.
pub data Logs (low_water warn_water : ℕ) (data_path : Text)
    : Level → List Host → List Level → Type 0 where
  ended : {l : Level} → Logs low_water warn_water data_path l [] []
  failed :
      {l : Level} {h : Host} {hosts : List Host} {log : List Level}
      → Raises h
      → Logs low_water warn_water data_path l hosts log
      → Logs low_water warn_water data_path l (h ∷ hosts) log
  same :
      {l : Level} {free : ℕ} {h : Host} {hosts : List Host} {log : List Level}
      → Readable h
      → HasFree data_path h free
      → IsLevel low_water warn_water free l
      → Logs low_water warn_water data_path l hosts log
      → Logs low_water warn_water data_path l (h ∷ hosts) log
  other :
      {l k : Level} {free : ℕ} {h : Host} {hosts : List Host} {log : List Level}
      → Readable h
      → HasFree data_path h free
      → IsLevel low_water warn_water free k
      → k ≢ l
      → Logs low_water warn_water data_path k hosts log
      → Logs low_water warn_water data_path l (h ∷ hosts) (k ∷ log)
