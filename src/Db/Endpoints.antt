-- ===== src/Db/Endpoints.antt =====
-- ais_server/db.py: the methods on the table of endpoints. The values that a caller passes have the
-- types of their columns.
pub mod Lookup
pub mod Rows
pub mod Sound
pub mod Wanted
use ais_server.Prelude.{
  ℕ, ◌+◌, Bool, true, false, ◌&&◌, ◌||◌, not, Option, none, some, List, [], ◌∷◌, ◌++◌, map, ltb,
  nat_eqb, if◌then◌else◌, length, filter,
}
use ais_server.Prelude.Text.{Text, text_eqb}
use ais_server.Prelude.Int.{ℤ}
use ais_server.Prelude.Sort.{sort_by}
use ais_server.Forwarder.Worker.{Endpoint}
use ais_server.Db.{Database, find, update_where, delete_where, exists}

-- The keyword arguments of `update_endpoint`.
pub data Change : Type 0 where
  set_name : Text → Change
  set_protocol : Text → Change
  set_host : Text → Change
  set_port : ℤ → Change
  set_path : Option Text → Change
  set_enabled : Bool → Change
  set_broadcast : Bool → Change
  -- Any other key.
  ignored : Change

unfoldable pub get_endpoint : Database → ℕ → Option Endpoint
unfolding find
get_endpoint db ep_id = find (λ e. nat_eqb e.id ep_id) db.endpoints

unfoldable pub add_endpoint :
    Database → Text → Text → ℤ → Text → Option Text → Bool → Bool → ℕ → Option (Database × ℕ)
unfolding find
add_endpoint db name host port protocol path enabled broadcast now =
    let row : Endpoint = record {
      id = db.next_endpoint;
      name = name;
      protocol = protocol;
      host = host;
      port = port;
      path = path;
      enabled = enabled;
      created_at = now;
      updated_at = now;
      broadcast = broadcast;
    } in
    if exists (find (λ e. text_eqb e.name name) db.endpoints)
    then none
    else some (
      record db { endpoints = db.endpoints ++ row ∷ []; next_endpoint = db.next_endpoint + 1 },
      db.next_endpoint,
    )

unfoldable pub apply : Endpoint → Change → Endpoint
apply e (set_name s) = record e { name = s }
apply e (set_protocol s) = record e { protocol = s }
apply e (set_host s) = record e { host = s }
apply e (set_port n) = record e { port = n }
apply e (set_path p) = record e { path = p }
apply e (set_enabled b) = record e { enabled = b }
apply e (set_broadcast b) = record e { broadcast = b }
apply e ignored = e

unfoldable pub apply_all : ℕ → Endpoint → List Change → Endpoint
unfolding apply
apply_all now e [] = record e { updated_at = now }
apply_all now e (c ∷ changes) = apply_all now (apply e c) changes

abbrev pub is_allowed : Change → Bool
is_allowed ignored = false
is_allowed _ = true

abbrev pub or_earlier : Text → Option Text → Option Text
or_earlier s none = some s
or_earlier s (some t) = some t

-- No key stands twice among keyword arguments.
unfoldable pub new_name : List Change → Option Text
new_name [] = none
new_name (set_name s ∷ changes) = or_earlier s (new_name changes)
new_name (c ∷ changes) = new_name changes

-- Whether the constraint on names forbids the new name for the row.
abbrev pub is_taken : List Endpoint → ℕ → Option Text → Bool
is_taken rows ep_id none = false
is_taken rows ep_id (some s) =
    exists (find (λ e. text_eqb e.name s && not (nat_eqb e.id ep_id)) rows)

-- Whether a row was changed; no result is an `IntegrityError`.
unfoldable pub update_endpoint : Database → ℕ → List Change → ℕ → Option (Database × Bool)
unfolding find update_where apply_all new_name
update_endpoint db ep_id kwargs now =
    let changes = filter is_allowed kwargs in
    let (rows, count) =
      update_where (λ e. nat_eqb e.id ep_id) (λ e. apply_all now e changes) db.endpoints in
    if nat_eqb (length changes) 0
    then some (db, false)
    else if ltb 0 count && is_taken db.endpoints ep_id (new_name changes)
    then none
    else some (record db { endpoints = rows }, ltb 0 count)

unfoldable pub delete_endpoint : Database → ℕ → Database × Bool
unfolding delete_where
delete_endpoint db ep_id =
    let (rows, count) = delete_where (λ e. nat_eqb e.id ep_id) db.endpoints in
    (record db { endpoints = rows }, ltb 0 count)

-- `ORDER BY name`: names are compared by their characters.
unfoldable pub text_ltb : Text → Text → Bool
text_ltb [] [] = false
text_ltb [] (d ∷ t) = true
text_ltb (c ∷ s) [] = false
text_ltb (c ∷ s) (d ∷ t) = ltb c d || (nat_eqb c d && text_ltb s t)

abbrev pub name_before : Endpoint → Endpoint → Bool
name_before e f = text_ltb e.name f.name

unfoldable pub list_endpoints : Database → Bool → List Endpoint
unfolding text_ltb sort_by
list_endpoints db enabled_only =
    sort_by name_before
      (if enabled_only then filter (λ e. e.enabled) db.endpoints else db.endpoints)

-- A row of `as_dict_endpoints`
pub record EndpointDict : Type 0 where
  pub id : ℕ
  pub name : Text
  pub protocol : Text
  pub host : Text
  pub port : ℤ
  pub path : Option Text
  pub enabled : Bool
  pub broadcast : Bool

unfoldable pub as_dict_endpoints : Database → List EndpointDict
unfolding list_endpoints
as_dict_endpoints db =
    map
      (λ e. record {
        id = e.id;
        name = e.name;
        protocol = e.protocol;
        host = e.host;
        port = e.port;
        path = e.path;
        enabled = e.enabled;
        broadcast = e.broadcast;
      })
      (list_endpoints db false)
