-- ===== src/Config/Secret.antt =====
-- ais_server/config.py: `_ensure_secret_key`.
use ais_server.Prelude.{Bool, true, false, Option, none, some, [], ◌∷◌, if◌then◌else◌}
use ais_server.Prelude.Text.{Text, codes, is_space, strip, text_eq}
use ais_server.Prelude.Dict
use ais_server.Prelude.Dict.{Dict}
use ais_server.Config.{Value, other, mapping, Entries, none_left, entry, lookup, assign}
use ais_server.Config.AtomicWrite.{
  Error, permission_error, other_error, Disk, Faults, Written, atomic_write_text,
}

-- `cfg[section]`, if it is a mapping
abbrev pub as_entries : Option Value → Option Entries
as_entries (some (mapping d)) = some d
as_entries _ = none

abbrev pub value_in : Text → Option Entries → Option Value
value_in key none = none
value_in key (some d) = lookup d key

-- `cfg[section][key]`
unfoldable pub get_in : Entries → Text → Text → Option Value
unfolding lookup
get_in cfg section key = value_in key (as_entries (lookup cfg section))

-- `cfg["web"]["secret_key"] = key`, for a section that is a mapping
abbrev pub assign_in : Entries → Text → Text → Value → Option Entries → Entries
assign_in cfg section key v none = cfg
assign_in cfg section key v (some d) = assign cfg section (mapping (assign d key v))

abbrev pub is_filled : Text → Bool
is_filled [] = false
is_filled (c ∷ s) = true

unfoldable pub set_secret : Entries → Text → Entries
unfolding lookup assign
set_secret cfg key =
    assign_in cfg (codes "web") (codes "secret_key") (other (is_filled key) key)
      (as_entries (lookup cfg (codes "web")))

abbrev pub truth : Option Value → Bool
truth none = false
truth (some (other b s)) = b
truth (some (mapping none_left)) = false
truth (some (mapping (entry k v d))) = true

-- The disk with the file of the key; whether looking for it or reading it is refused, and by which
-- error; what fails of a write; the name of its temporary file; and two random keys, of which the
-- second is for a start without access to the file.
pub record SecretFile : Type 0 where
  pub disk : Disk
  pub read_error : Option Error
  pub faults : Faults
  pub tmp : Text
  pub token : Text
  pub ephemeral : Text

abbrev pub after_write : Entries → Text → Text → Disk → Option Error → Option (Disk × Entries)
after_write cfg key ephemeral disk none = some (disk, set_secret cfg key)
after_write cfg key ephemeral disk (some permission_error) = some (disk, set_secret cfg ephemeral)
after_write cfg key ephemeral disk (some other_error) = none

abbrev pub written : SecretFile → Entries → Written → Option (Disk × Entries)
written s cfg (passed, disk, e) = after_write cfg s.token s.ephemeral disk e

abbrev pub read_or_write : SecretFile → Entries → Text → Option Text → Option (Disk × Entries)
read_or_write s cfg path (some content) = some (s.disk, set_secret cfg (strip is_space content))
read_or_write s cfg path none = written s cfg (atomic_write_text s.faults s.disk path s.tmp s.token)

abbrev pub with_access : SecretFile → Entries → Text → Option Error → Option (Disk × Entries)
with_access s cfg path none = read_or_write s cfg path (Dict.get s.disk path)
with_access s cfg path (some permission_error) = some (s.disk, set_secret cfg s.ephemeral)
with_access s cfg path (some other_error) = none

-- The path of the secret: a mapping or a missing one raises.
abbrev pub at_path : SecretFile → Entries → Option Value → Option (Disk × Entries)
at_path s cfg (some (other b path)) = with_access s cfg path s.read_error
at_path s cfg _ = none

-- No result is an exception: `cfg["web"]` is no mapping, `cfg["paths"]["secret"]` is no path, or an
-- error that is no `PermissionError`.
abbrev pub with_web : SecretFile → Entries → Option Entries → Option (Disk × Entries)
with_web s cfg none = none
with_web s cfg (some web) =
    let missing = at_path s cfg (get_in cfg (codes "paths") (codes "secret")) in
    if truth (lookup web (codes "secret_key")) then some (s.disk, cfg) else missing

unfoldable pub ensure_secret_key : SecretFile → Entries → Option (Disk × Entries)
unfolding lookup get_in set_secret atomic_write_text
ensure_secret_key s cfg = with_web s cfg (as_entries (lookup cfg (codes "web")))
