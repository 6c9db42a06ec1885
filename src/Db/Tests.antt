-- ===== src/Db/Tests.antt =====
-- Runs of the table of endpoints of ais_server/db.py.
use ais_server.Prelude.{
  ℕ, ◌≡◌, refl, true, false, none, some, List, [], ◌∷◌, arith, nat_eqb, filter,
}
use ais_server.Prelude.Int.{pos}
use ais_server.Prelude.Text.{Text, codes}
use ais_server.Forwarder.Worker.{Endpoint}
use ais_server.Db.{Database, find, exists}
use ais_server.Db.Users.{map_option}
use ais_server.Db.Endpoints.{
  Change, set_name, set_port, ignored, get_endpoint, apply_all, is_allowed, new_name,
  update_endpoint,
}
use ais_server.Db.Endpoints.Lookup.{get_endpoint-update_endpoint}

abbrev row : ℕ → Text → Endpoint
row id name = record {
  id = id;
  name = name;
  protocol = codes "tcp";
  host = codes "10.0.0.7";
  port = pos 2000;
  path = none;
  enabled = true;
  created_at = 0;
  updated_at = 0;
  broadcast = false;
}

abbrev db : Database
db = record {
  users = [];
  next_user = 1;
  endpoints = row 1 (codes "chart") ∷ row 2 (codes "log") ∷ [];
  next_endpoint = 3;
  kv = [];
}

abbrev kwargs : List Change
kwargs = set_name (codes "plotter") ∷ ignored ∷ set_port (pos 2001) ∷ []

get_endpoint-update_endpoint_case :
    (db' : Database) × (update_endpoint db 1 kwargs 60 ≡ some (db', exists (get_endpoint db 1)))
    × (get_endpoint db' 1
        ≡ map_option (λ e. apply_all 60 e (filter is_allowed kwargs)) (get_endpoint db 1))
    × ((k : ℕ) → nat_eqb 1 k ≡ false → get_endpoint db' k ≡ get_endpoint db k)
unfolding find new_name
get_endpoint-update_endpoint_case = get_endpoint-update_endpoint db 1 kwargs 60 (omega arith) refl
