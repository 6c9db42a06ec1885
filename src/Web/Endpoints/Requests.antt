-- ===== src/Web/Endpoints/Requests.antt =====
-- ais_server/web/api.py: any sequence of requests on the table of endpoints.
use ais_server.Prelude.{
  ℕ, ◌≡◌, refl, inl, inr, ◌⊎◌, Bool, ◌&&◌, ◌||◌, not, Option, none, some, List, [], ◌∷◌, map,
  Bool-cases,
}
use ais_server.Prelude.Text.{Text, codes, text_eq}
use ais_server.Prelude.Dict
use ais_server.Prelude.Dict.{Dict}
use ais_server.Db.{Database, exists}
use ais_server.Db.Endpoints.{add_endpoint, update_endpoint, get_endpoint}
use ais_server.Db.Endpoints.Sound.{
  IsSound, after, add_endpoint-IsSound, update_endpoint-IsSound, delete_endpoint-IsSound,
}
use ais_server.Web.Json.{
  Json, IntResult, value, value_error, type_error, to_int, Body, mapping, no_mapping,
}
use ais_server.Web.Endpoints.{
  Sqlite, inserted, changed_or_raised, Bound, any, is_unbound, is_null, is_column, fits_id,
  changes_of, has_parameter, parse_endpoint, store_endpoint, endpoints_add, bind, run_update,
  with_broadcast, update_with, with_port, update_mapping, endpoints_update, endpoints_delete,
}
use ais_server.Web.Answer.{Result, ok, raised, NewEndpoint, Answer, status, refused}

pub data Request : Type 0 where
  post : Body → Request
  patch : ℕ → Body → Request
  delete : ℕ → Request

module _ (Q : Sqlite) where
  -- A request that arrives at a time.
  abbrev pub serve : Database → ℕ → Request → Database × Answer
  serve db now (post body) = endpoints_add Q db body now
  serve db now (patch ep_id body) = endpoints_update Q db ep_id body now
  serve db now (delete ep_id) = endpoints_delete Q db ep_id

  unfoldable pub serve_all : Database → List (ℕ × Request) → Database
  serve_all db [] = db
  serve_all db ((now, request) ∷ requests) = serve_all (serve db now request).0 requests

  -- What a request leaves: a sound database, and an unchanged one unless the answer is 200.
  record Leaves (db : Database) (r : Database × Answer) : Type 0 where
    sound : IsSound db → IsSound r.0
    unchanged : (status r.1 ≡ 200) ⊎ (r.0 ≡ db)

  inserted-Leaves :
      (db : Database) (o : Option (Database × ℕ))
      → (IsSound db → IsSound (after db o))
      → Leaves db (inserted db o)
  inserted-Leaves db none h = record { sound = h; unchanged = inr refl }
  inserted-Leaves db (some (db', id)) h = record { sound = h; unchanged = inl refl }

  changed_or_raised-Leaves :
      (db : Database) (o : Option (Database × Bool))
      → (IsSound db → IsSound (after db o))
      → Leaves db (changed_or_raised db o)
  changed_or_raised-Leaves db none h = record { sound = h; unchanged = inr refl }
  changed_or_raised-Leaves db (some (db', b)) h = record { sound = h; unchanged = inl refl }

  refused-Leaves : (db : Database) (a : Answer) → Leaves db (db, a)
  refused-Leaves db a = record { sound = λ v. v; unchanged = inr refl }

  store_endpoint-Leaves :
      (db : Database) (now : ℕ) (r : Result NewEndpoint) → Leaves db (store_endpoint Q db now r)
  store_endpoint-Leaves db now (raised f) = refused-Leaves db (refused f)
  store_endpoint-Leaves db now (ok e) =
      inserted-Leaves db
        (add_endpoint db e.name e.host e.port e.protocol e.path e.enabled e.broadcast now)
        (add_endpoint-IsSound db e.name e.host e.port e.protocol e.path e.enabled e.broadcast now)

  run_update-Leaves :
      (db : Database) (ep_id : ℕ) (bounds : List Bound) (now : ℕ)
      → Leaves db (run_update Q db ep_id bounds now)
  unfolding run_update
  run_update-Leaves db ep_id bounds now =
      elim (Bool-cases (
        any is_unbound bounds
        || (any is_null bounds && exists (get_endpoint db ep_id))
        || (any is_column bounds && not (fits_id Q ep_id)))) [
          | inl bad ↦ rw bad (refused-Leaves db Answer.server_error)
          | inr good ↦ rw good (
              changed_or_raised-Leaves db (update_endpoint db ep_id (changes_of bounds) now)
                (update_endpoint-IsSound db ep_id (changes_of bounds) now))
        ]

  update_with-Leaves :
      (db : Database) (ep_id : ℕ) (body : Dict Text Json) (now : ℕ)
      → Leaves db (update_with Q db ep_id body now)
  unfolding update_with
  update_with-Leaves db ep_id body now =
      let kwargs = with_broadcast Q body (Dict.get body (codes "broadcast")) in
      elim (Bool-cases (has_parameter kwargs)) [
        | inl bad ↦ rw bad (refused-Leaves db Answer.server_error)
        | inr good ↦ rw good (run_update-Leaves db ep_id (map (bind Q) kwargs) now)
      ]

  update_mapping-Leaves :
      (db : Database) (ep_id : ℕ) (body : Dict Text Json) (now : ℕ) (port : Option Json)
      → Leaves db (update_mapping Q db ep_id body now port)
  update_mapping-Leaves db ep_id body now none = update_with-Leaves db ep_id body now
  update_mapping-Leaves db ep_id body now (some v) = by_int (to_int v)
    where
      by_int : (i : IntResult) → Leaves db (with_port Q db ep_id body now i)
      by_int (value i) = update_with-Leaves db ep_id _ now
      by_int value_error = refused-Leaves db Answer.bad_port
      by_int type_error = refused-Leaves db Answer.server_error

  serve-Leaves : (db : Database) (now : ℕ) (request : Request) → Leaves db (serve db now request)
  unfolding endpoints_add endpoints_update endpoints_delete
  serve-Leaves db now (post no_mapping) = refused-Leaves db Answer.invalid
  serve-Leaves db now (post (mapping body)) = store_endpoint-Leaves db now (parse_endpoint Q body)
  serve-Leaves db now (patch ep_id no_mapping) = refused-Leaves db Answer.server_error
  serve-Leaves db now (patch ep_id (mapping body)) =
      update_mapping-Leaves db ep_id body now (Dict.get body (codes "port"))
  serve-Leaves db now (delete ep_id) = elim (Bool-cases (fits_id Q ep_id)) [
    | inl fits ↦ rw fits (record { sound = delete_endpoint-IsSound db ep_id; unchanged = inl refl })
    | inr large ↦ rw large (refused-Leaves db Answer.server_error)
  ]

  -- Whatever a request on the endpoints holds: if its answer is not 200, the database is unchanged.
  pub serve-unchanged :
      (db : Database) (now : ℕ) (request : Request)
      → (status (serve db now request).1 ≡ 200) ⊎ ((serve db now request).0 ≡ db)
  serve-unchanged db now request = (serve-Leaves db now request).unchanged

  -- Over any requests on the endpoints, whatever they hold: if the numbers of the table are below the
  -- next one and no number and no name stands twice, this is so afterwards.
  pub serve_all-IsSound :
      (db : Database) (requests : List (ℕ × Request)) → IsSound db → IsSound (serve_all db requests)
  unfolding serve_all
  serve_all-IsSound db [] v = v
  serve_all-IsSound db ((now, request) ∷ requests) v =
      serve_all-IsSound (serve db now request).0 requests ((serve-Leaves db now request).sound v)
