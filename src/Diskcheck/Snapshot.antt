-- ===== src/Diskcheck/Snapshot.antt =====
-- ais_server/diskcheck.py: what a snapshot collects of the disk, the journal and the database, and the
-- watchdog over a sequence of snapshots. Percentages and the figures of `psutil` are left out.
use mathlib.Core.Option
use ais_server.Prelude.{
  ℕ, ◌*◌, ◌≡◌, refl, ap, Bool, true, false, ◌&&◌, ◌||◌, not, Option, none, some, List, [], ◌∷◌,
  ◌++◌, all, arith, leb, nat_eqb, if◌then◌else◌,
}
use ais_server.Prelude.Text.{Text, codes, is_space}
use ais_server.Diskcheck.{Level, DiskCheck, cycle, add_line}

pub record Usage : Type 0 where
  pub total : ℕ
  pub used : ℕ
  pub free : ℕ

-- The machine: `shutil.disk_usage`, without a result for an `OSError`; the output of `journalctl`, or
-- nothing if it cannot be run; the size of a file, if it is there and can be read; and
-- `int(float(text) * mult)`, without a result for a `ValueError`.
pub record Host : Type 0 where
  pub disk_usage : Text → Option Usage
  pub journalctl : Option Text
  pub file_size : Text → Option ℕ
  pub scaled : Text → ℕ → Option ℕ

-- A character of `[\d.]`
abbrev is_figure : ℕ → Bool
is_figure c = (leb b'0' c && leb c b'9') || nat_eqb c b'.'

abbrev mult : ℕ → Option ℕ
mult unit =
    if nat_eqb unit b'K'
    then some 1024
    else if nat_eqb unit b'M'
    then some (1024 * 1024)
    else if nat_eqb unit b'G'
    then some (1024 * 1024 * 1024)
    else if nat_eqb unit b'T'
    then some (1024 * 1024 * 1024 * 1024)
    else none

-- A figure behind a run of figures belongs to the run.
abbrev longer : ℕ → Text × Option ℕ → Text × Option ℕ
longer c (figures, unit) = (c ∷ figures, unit)

-- `\s*([KMGT])`
unfoldable unit_of : Text → Option ℕ
unit_of [] = none
unit_of (c ∷ s) = let rest = unit_of s in if is_space c then rest else mult c

-- The run of figures in front of a text, and the unit behind it.
unfoldable figures_of : Text → Text × Option ℕ
unfolding unit_of
figures_of [] = ([], none)
figures_of (c ∷ s) =
    let rest = figures_of s in if is_figure c then longer c rest else ([], unit_of (c ∷ s))

abbrev matched : Option (Text × ℕ) → Text × Option ℕ → Option (Text × ℕ)
matched later ([], unit) = later
matched later (c ∷ figures, none) = later
matched later (c ∷ figures, some m) = some (c ∷ figures, m)

-- `re.search`: the first place where the pattern fits, with the longest run.
unfoldable pub search_usage : Text → Option (Text × ℕ)
unfolding figures_of
search_usage [] = none
search_usage (c ∷ s) = matched (search_usage s) (figures_of (c ∷ s))

abbrev pub scaled_by : Host → Option (Text × ℕ) → Option (Option ℕ)
scaled_by h none = some none
scaled_by h (some (figures, m)) = Option.map some (h.scaled figures m)

abbrev pub usage_in : Host → Option Text → Option (Option ℕ)
usage_in h none = some none
usage_in h (some out) = scaled_by h (search_usage out)

-- `_journal_usage_bytes`; no result is an exception.
unfoldable pub journal_usage_bytes : Host → Option (Option ℕ)
unfolding search_usage
journal_usage_bytes h = usage_in h h.journalctl

pub record Info : Type 0 where
  pub disk : Option Usage
  pub journal : Option ℕ
  -- The database, its write-ahead log and its shared memory.
  pub db : Option (ℕ × ℕ × ℕ)
  pub state : Level

abbrev pub or_root : Option Usage → Option Usage → Option Usage
or_root root none = root
or_root root (some u) = some u

abbrev size_or_zero : Option ℕ → ℕ
size_or_zero none = 0
size_or_zero (some n) = n

abbrev db_sizes : Host → Text → Option (ℕ × ℕ × ℕ)
db_sizes h [] = none
db_sizes h (c ∷ path) = some (
  size_or_zero (h.file_size (c ∷ path)),
  size_or_zero (h.file_size ((c ∷ path) ++ codes "-wal")),
  size_or_zero (h.file_size ((c ∷ path) ++ codes "-shm")),
)

abbrev info_of : Host → Text → Text → Level → Option (Option ℕ) → Option Info
info_of h data_path db_path state none = none
info_of h data_path db_path state (some journal) = some (record {
  disk = or_root (h.disk_usage (codes "/")) (h.disk_usage data_path);
  journal = journal;
  db = db_sizes h db_path;
  state = state;
})

-- No result is an exception, which the loop logs before it goes on.
unfoldable pub snapshot : Host → Text → Text → Level → Option Info
unfolding journal_usage_bytes
snapshot h data_path db_path state = info_of h data_path db_path state (journal_usage_bytes h)

abbrev pub free_or_zero : Option Usage → ℕ
free_or_zero none = 0
free_or_zero (some u) = u.free

-- What a cycle takes from its snapshot.
abbrev free_in : Option Info → Option ℕ
free_in none = none
free_in (some info) = some (free_or_zero info.disk)

-- The loop over the machines that its snapshots find.
unfoldable pub watch_loop : Text → Text → DiskCheck → List Host → DiskCheck × List Level
unfolding cycle snapshot
watch_loop data_path db_path d [] = (d, [])
watch_loop data_path db_path d (h ∷ hosts) =
    let (d', line) = cycle d (free_in (snapshot h data_path db_path d.state)) in
    let (last, log) = watch_loop data_path db_path d' hosts in (last, add_line line log)

abbrev after_first :
    Text → Text → DiskCheck → List Host → Option Info → Option (DiskCheck × List Level)
after_first data_path db_path d hosts none = none
after_first data_path db_path d hosts (some info) = some (watch_loop data_path db_path d hosts)

-- `run`: a first snapshot, whose exception ends the thread, and the loop.
unfoldable pub watch : Text → Text → DiskCheck → Host → List Host → Option (DiskCheck × List Level)
unfolding watch_loop snapshot
watch data_path db_path d first hosts =
    after_first data_path db_path d hosts (snapshot first data_path db_path d.state)

module _ (k m : ℕ) (after : Text) (no_figure : is_figure k ≡ false) (no_space : is_space k ≡ false)
    (factor : mult k ≡ some m) where
  figures_of-append :
      (figures : Text)
      → all is_figure figures ≡ true
      → figures_of (figures ++ k ∷ after) ≡ (figures, some m)
  unfolding figures_of
  figures_of-append [] a = rw (no_figure, no_space, factor) refl
  figures_of-append (c ∷ figures) a =
      let yes : is_figure c ≡ true = ground (arith, a) in
      rw yes (ap (longer c) (figures_of-append figures (ground (arith, a))))

  -- The size of the journal is the first figures of the text times their unit, if there is one right
  -- behind them.
  search_usage-append :
      (before : Text) (c : ℕ) (figures : Text)
      → all (λ b. not (is_figure b)) before ≡ true
      → is_figure c ≡ true
      → all is_figure figures ≡ true
      → search_usage (before ++ c ∷ figures ++ k ∷ after) ≡ some (c ∷ figures, m)
  unfolding search_usage
  search_usage-append [] c figures b h a = rw h (
      ap (λ run. matched (search_usage (figures ++ k ∷ after)) (longer c run))
        (figures_of-append figures a))
  search_usage-append (d ∷ before) c figures b h a =
      let no : is_figure d ≡ false = ground (arith, b) in
      rw no (search_usage-append before c figures (ground (arith, b)) h a)
