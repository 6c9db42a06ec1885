-- ===== src/Web/Endpoints/Synced.antt =====
-- ais_server/web/api.py, ais_server/db.py and ais_server/forwarder.py: from requests to workers.
use ais_server.Prelude.{ℕ, ◌≡◌, ap, ◌∙◌, Bool, true, false, some, List, nat_eq}
use ais_server.Prelude.Dict
use ais_server.Forwarder.Worker.{Worker}
use ais_server.Forwarder.Manager.{Workers, sync}
use ais_server.Forwarder.Manager.Stopped.{Distinct, AreKeys, elem, expected}
use ais_server.Forwarder.Manager.Sync.{sync-expected}
use ais_server.Db.{Database}
use ais_server.Db.Endpoints.{get_endpoint, list_endpoints}
use ais_server.Db.Endpoints.Sound.{IsSound}
use ais_server.Db.Endpoints.Wanted.{if_enabled, wanted_from-get_endpoint}
use ais_server.Web.Endpoints.{Sqlite}
use ais_server.Web.Endpoints.Requests.{Request, serve_all, serve_all-IsSound}

-- After any requests on a table whose numbers and names are unique, a `sync` whose joins return gives
-- each number the worker of its row as the table then has it: none if there is no row or it is not
-- enabled, the old worker if it is for the same row, and a new one for the row otherwise.
pub sync-requests :
    (Q : Sqlite) (db : Database) (requests : List (ℕ × Request)) (queue_size : ℕ) (joins : ℕ → Bool)
    (existing : List ℕ) (workers : Workers) (k : ℕ)
    → IsSound db
    → ((eid : ℕ) → joins eid ≡ true)
    → Distinct existing
    → AreKeys workers existing
    → ((j : ℕ) (w : Worker) → Dict.get workers j ≡ some w → elem j existing ≡ true)
    → let db' = serve_all Q db requests in
      Dict.get (sync queue_size joins existing (list_endpoints db' false) workers).0 k
      ≡ expected queue_size (if_enabled (get_endpoint db' k)) (Dict.get workers k)
sync-requests Q db requests queue_size joins existing workers k v j d present complete =
    let db' = serve_all Q db requests in
    (sync-expected queue_size joins existing (list_endpoints db' false) workers j d present
        complete).1
      k
    ∙ ap (λ row. expected queue_size row (Dict.get workers k))
        (wanted_from-get_endpoint db' k (serve_all-IsSound Q db requests v))
