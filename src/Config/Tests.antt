-- ===== src/Config/Tests.antt =====
-- Runs of ais_server/config.py: a merge, a write that fails, and two starts.
use ais_server.Prelude.{◌≡◌, refl, true, false, none, some, [], ◌∷◌, All}
use ais_server.Prelude.Text.{Text, codes, text_eq}
use ais_server.Prelude.Dict
use ais_server.Config.AtomicWrite.{
  Error, other_error, Faults, Disk, Written, atomic_write_text, OldOrNew,
  atomic_write_text-IsAtomic,
}
use ais_server.Config.Secret.{SecretFile, get_in, set_secret, ensure_secret_key}
use ais_server.Config.Persist.{LacksSecret, no_faults, ensure_secret_key_again}
use ais_server.Config.Load
use ais_server.Config.Load.{parsed, load_config}
use ais_server.Config.{
  other, mapping, Entries, none_left, entry, lookup, assign, deep_merge, merged_at,
  lookup-deep_merge,
}

abbrev defaults : Entries
defaults =
    entry (codes "dedup")
      (mapping (
        entry (codes "ttl_seconds") (other true (codes "30"))
          (entry (codes "max_entries") (other true (codes "200000")) none_left)))
      (entry (codes "debug") (other false (codes "false")) none_left)

abbrev file_cfg : Entries
file_cfg =
    entry (codes "dedup")
      (mapping (entry (codes "ttl_seconds") (other true (codes "10")) none_left)) none_left

lookup-deep_merge_case :
    lookup (deep_merge defaults file_cfg) (codes "dedup")
    ≡ merged_at (lookup defaults (codes "dedup")) (lookup file_cfg (codes "dedup"))
unfolding lookup
lookup-deep_merge_case = lookup-deep_merge defaults file_cfg (codes "dedup") (refl, tt)

merged_section :
    deep_merge defaults file_cfg
    ≡ entry
        (codes "dedup")
        (mapping (
          entry
            (codes "ttl_seconds")
            (other true (codes "10"))
            (entry (codes "max_entries") (other true (codes "200000")) none_left)))
        (entry (codes "debug") (other false (codes "false")) none_left)
unfolding deep_merge lookup assign
merged_section = refl

abbrev secret_path : Text
secret_path = codes "/var/lib/ais-server/secret_key"

abbrev tmp_path : Text
tmp_path = codes "/var/lib/ais-server/secret_key.x1"

-- The writing stops after two characters.
abbrev full_disk : Faults
full_disk = record no_faults { write = some (2, other_error) }

abbrev full : Written
full = atomic_write_text full_disk [] secret_path tmp_path (codes "key")

atomic_write_text-IsAtomic_example :
    All (OldOrNew [] secret_path (codes "key")) full.0
    × (full.2 ≡ none → Dict.get full.1 secret_path ≡ some (codes "key"))
    × ((e : Error)
        → full.2 ≡ some e
        → (Dict.get full.1 secret_path ≡ Dict.get {K = Text} {V = Text} [] secret_path)
          × (false ≡ false
              → Dict.get {K = Text} {V = Text} [] tmp_path ≡ none
              → Dict.get full.1 tmp_path ≡ none))
atomic_write_text-IsAtomic_example =
    atomic_write_text-IsAtomic [] secret_path tmp_path (codes "key") refl full_disk

abbrev first_start : SecretFile
first_start = record {
  disk = [];
  read_error = none;
  faults = no_faults;
  tmp = tmp_path;
  token = codes "k3y";
  ephemeral = codes "other";
}

abbrev first_disk : Disk
first_disk = (secret_path, codes "k3y") ∷ []

abbrev second_start : SecretFile
second_start = record first_start { disk = first_disk; token = codes "new" }

defaults-LacksSecret : LacksSecret Load.defaults secret_path
unfolding lookup get_in
defaults-LacksSecret = record {
  web = Load.web_defaults;
  has_web = refl;
  no_key = refl;
  path_truth = true;
  has_path = refl;
}

ensure_secret_key_again_example :
    (disk : Disk) × (ensure_secret_key first_start Load.defaults
      ≡ some (disk, set_secret Load.defaults (codes "k3y")))
    × (get_in (set_secret Load.defaults (codes "k3y")) (codes "web") (codes "secret_key")
        ≡ some (other true (codes "k3y")))
    × (second_start.disk ≡ disk
        → ensure_secret_key second_start Load.defaults
          ≡ some (disk, set_secret Load.defaults (codes "k3y")))
unfolding Dict.get
ensure_secret_key_again_example =
    ensure_secret_key_again Load.defaults secret_path first_start second_start defaults-LacksSecret
      refl refl refl refl refl

-- A list for a configuration ends the start with an exception.
list_crashes : load_config (parsed (other true (codes "[]"))) first_start none none none ≡ none
unfolding load_config
list_crashes = refl
