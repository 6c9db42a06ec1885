-- ===== src/Web/Endpoints/Tests.antt =====
-- Runs of the requests on endpoints of ais_server/web/api.py.
use ais_server.Prelude.{
  ℕ, ◌≡◌, refl, ◌⊎◌, true, false, Option, none, some, List, [], ◌∷◌, arith, nat_eqb, nat_eq, map,
}
use ais_server.Prelude.Text.{Text, codes, text_eqb, text_eq, is_space, strip, lower}
use ais_server.Prelude.Int.{pos}
use ais_server.Prelude.Dict
use ais_server.Prelude.Dict.{Dict}
use ais_server.Forwarder.Worker.{Endpoint}
use ais_server.Forwarder.Manager.{sync}
use ais_server.Forwarder.Manager.Stopped.{expected}
use ais_server.Forwarder.Probe.{
  Network, answered, run_tcp, handler_for, test_endpoint, default_sentence,
}
use ais_server.Db.{Database, find}
use ais_server.Db.Endpoints.{get_endpoint, list_endpoints}
use ais_server.Db.Endpoints.Sound.{IsSound}
use ais_server.Db.Endpoints.Wanted.{if_enabled}
use ais_server.Web.Json.{Json, null, text, to_int, mapping, no_mapping}
use ais_server.Web.Endpoints.{Sqlite, endpoints_add, endpoints_update}
use ais_server.Web.Answer.{Answer, added, invalid, bad_port, server_error, changed, status}
use ais_server.Web.Endpoints.Requests.{
  Request, post, patch, delete, serve, serve_all, serve-unchanged, serve_all-IsSound,
}
use ais_server.Web.Endpoints.Stored.{Posts, get_endpoint-endpoints_add}
use ais_server.Web.Endpoints.Patched.{
  patch_enabled, patch_protocol, get_endpoint-patch_enabled, patch_protocol_unknown,
}
use ais_server.Web.Endpoints.Synced.{sync-requests}

-- A table of texts that takes texts and NULL, and ports of any size.
abbrev bound : Json → Option (Option Text)
bound null = some none
bound (text s) = some (some s)
bound _ = none

abbrev sqlite : Sqlite
sqlite = record { bind_text = bound; fits = λ i. true; bind_null = refl; bind_string = λ s. refl }

abbrev row : Endpoint
row = record {
  id = 1;
  name = codes "plotter";
  protocol = codes "udp";
  host = codes "10.0.0.2";
  port = pos 2000;
  path = none;
  enabled = true;
  created_at = 5;
  updated_at = 5;
  broadcast = false;
}

abbrev db : Database
db = record { users = []; next_user = 1; endpoints = row ∷ []; next_endpoint = 2; kv = [] }

db-IsSound : IsSound db
db-IsSound = record { below = (omega arith, tt); ids = λ k. (tt, tt); names = λ s. (tt, tt) }

abbrev body : Dict Text Json
body =
    (codes "name", text (codes " hub "))
    ∷ (codes "host", text (codes "hub.lan"))
    ∷ (codes "port", text (codes "10110"))
    ∷ (codes "protocol", text (codes "UDP"))
    ∷ []

body-Posts : Posts sqlite body (codes " hub ") (codes "hub.lan") (pos 10110) 85 (codes "DP")
unfolding Dict.get to_int ais_server.Prelude.Number.int_decimal
body-Posts = record {
  has_name = refl;
  has_host = refl;
  port_value = text (codes "10110");
  has_port = refl;
  is_port = refl;
  port_fits = refl;
  has_protocol = refl;
  no_path = refl;
  no_enabled = refl;
  no_broadcast = refl;
}

abbrev after_post : Database × Answer
after_post = endpoints_add sqlite db (mapping body) 9

get_endpoint-endpoints_add_example :
    ((e : Endpoint)
      → find (λ x. text_eqb x.name (strip is_space (codes " hub "))) db.endpoints ≡ some e
      → after_post ≡ (db, invalid))
    × (find (λ x. text_eqb x.name (strip is_space (codes " hub "))) db.endpoints ≡ none
        → (after_post.1 ≡ added 2)
          × (get_endpoint after_post.0 2
              ≡ some record {
                id = 2;
                name = strip is_space (codes " hub ");
                protocol = map lower (codes "UDP");
                host = strip is_space (codes "hub.lan");
                port = pos 10110;
                path = none;
                enabled = true;
                created_at = 9;
                updated_at = 9;
                broadcast = false;
              })
          × ((k : ℕ) → nat_eqb 2 k ≡ false → get_endpoint after_post.0 k ≡ get_endpoint db k))
get_endpoint-endpoints_add_example =
    get_endpoint-endpoints_add sqlite body (codes " hub ") (codes "hub.lan") (pos 10110) 85
      (codes "DP") body-Posts db 9 (omega arith, tt)

row_there : get_endpoint db 1 ≡ some row
unfolding get_endpoint
row_there = refl

get_endpoint-patch_enabled_case :
    let r = patch_enabled sqlite db 1 false 9 in
    (r.1 ≡ changed true)
    × (get_endpoint r.0 1 ≡ some (record row { enabled = false; updated_at = 9 }))
    × ((k : ℕ) → nat_eqb 1 k ≡ false → get_endpoint r.0 k ≡ get_endpoint db k)
get_endpoint-patch_enabled_case = get_endpoint-patch_enabled sqlite db 1 9 row row_there refl false

abbrev net : Network
net = record {
  send_tcp = λ host port sentence. none;
  send_udp = λ broadcast host port sentence. none;
  post = λ url sentence. answered 200;
}

patch_protocol_unknown_case :
    let r = patch_protocol sqlite db 1 (codes "UDP") 9 in
    (r.1 ≡ changed true)
    × (found : Endpoint) × (get_endpoint r.0 1 ≡ some found)
    × (found.protocol ≡ codes "UDP")
    × (handler_for found.protocol ≡ run_tcp)
    × (test_endpoint net found default_sentence ≡ (false, codes "Unknown protocol"))
patch_protocol_unknown_case =
    patch_protocol_unknown sqlite db 1 9 row row_there refl net (codes "UDP") default_sentence refl
      refl refl

abbrev requests : List (ℕ × Request)
requests =
    (9, post (mapping body))
    ∷ (10, patch 1 (mapping ((codes "name", text (codes "hub")) ∷ [])))
    ∷ (11, patch 2 (mapping ((codes "port", null) ∷ [])))
    ∷ (12, delete 1)
    ∷ []

serve_all-IsSound_example : IsSound (serve_all sqlite db requests)
serve_all-IsSound_example = serve_all-IsSound sqlite db requests db-IsSound

serve-unchanged_example :
    (status (serve sqlite db 9 (post no_mapping)).1 ≡ 200)
    ⊎ ((serve sqlite db 9 (post no_mapping)).0 ≡ db)
serve-unchanged_example = serve-unchanged sqlite db 9 (post no_mapping)

sync-requests_example :
    let db' = serve_all sqlite db requests in
    Dict.get (sync 100 (λ eid. true) [] (list_endpoints db' false) []).0 2
    ≡ expected 100 (if_enabled (get_endpoint db' 2)) none
unfolding Dict.get
sync-requests_example =
    sync-requests sqlite db requests 100 (λ eid. true) [] [] 2 db-IsSound (λ eid. refl) tt tt
      (λ j w h. absurd_none h)
  where
    absurd_none : {A B : Type 0} {w : A} → none ≡ some w → B
    absurd_none h = absurd (cc h)

-- The port `null` raises a `TypeError`, where a text that is no number is answered as a bad port.
port_null : (endpoints_update sqlite db 1 (mapping ((codes "port", null) ∷ [])) 9).1 ≡ server_error
unfolding endpoints_update Dict.get to_int
port_null = refl

port_text :
    (endpoints_update sqlite db 1 (mapping ((codes "port", text (codes "x")) ∷ [])) 9).1 ≡ bad_port
unfolding endpoints_update Dict.get to_int
port_text = refl
