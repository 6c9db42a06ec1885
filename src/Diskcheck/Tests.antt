-- ===== src/Diskcheck/Tests.antt =====
-- Runs of the watchdog of ais_server/diskcheck.py.
use ais_server.Prelude.{ℕ, ◌*◌, ◌≡◌, refl, ◌⊎◌, none, some, List, [], ◌∷◌}
use ais_server.Prelude.Text.{codes}
use ais_server.Diskcheck.{Level, DiskCheck, ok, low, new, new_state, cycle}
use ais_server.Diskcheck.Snapshot.{
  Host, search_usage, journal_usage_bytes, snapshot, watch_loop, watch,
}
use ais_server.Diskcheck.Watched.{Readable, Raises, Logs}

abbrev check : DiskCheck
check = new 500 1500

abbrev mebibyte : ℕ
mebibyte = 1048576

-- A machine with some free space, whose journal has 123.4 mebibytes.
abbrev host : ℕ → Host
host free = record {
  disk_usage = λ path. some (record { total = 4000 * mebibyte; used = 0; free = free });
  journalctl = some (codes "Archived and active journals take up 123.4M in the file system.");
  file_size = λ path. none;
  scaled = λ figures mult. some mult;
}

abbrev hosts : List Host
hosts = host (2000 * mebibyte) ∷ host (400 * mebibyte) ∷ host 0 ∷ []

abbrev LogOf : DiskCheck → List Host → Host → Type 0
LogOf d hosts first =
    (Raises first × (watch (codes "/var") (codes "/ais.db") d first hosts ≡ none))
    ⊎ (Readable first
        × (last : DiskCheck) × (log : List Level) × (watch (codes "/var") (codes "/ais.db") d first
              hosts
            ≡ some (last, log))
        × Logs d.low_water d.warn_water (codes "/var") d.state hosts log)

-- A disk that is full is logged as recovered.
full_disk : (watch_loop (codes "/var") (codes "/ais.db") check hosts).1 ≡ low ∷ ok ∷ []
unfolding watch_loop cycle new new_state journal_usage_bytes snapshot
full_disk = refl

journal :
    search_usage (codes "Archived and active journals take up 123.4M in the file system.")
    ≡ some (codes "123.4", mebibyte)
unfolding search_usage
journal = refl
