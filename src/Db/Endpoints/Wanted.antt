-- ===== src/Db/Endpoints/Wanted.antt =====
-- ais_server/db.py and ais_server/forwarder.py: which rows the manager wants workers for, by number.
use ais_server.Prelude.{
  ℕ, ◌≡◌, refl, sym, ap, ◌∙◌, inl, inr, Bool, true, false, ◌&&◌, Option, none, some, List, [], ◌∷◌,
  arith, nat_eqb, nat_eq, if◌then◌else◌, Bool-cases, All,
}
use ais_server.Prelude.Sort.{sort_by, first, AtMostOne, first-sort_by, sort_by-AtMostOne}
use ais_server.Prelude.Dict
use ais_server.Prelude.Dict.{Dict}
use ais_server.Forwarder.Worker.{Endpoint}
use ais_server.Forwarder.Manager.{wanted_from}
use ais_server.Db.{Database}
use ais_server.Db.Endpoints.{get_endpoint, name_before, list_endpoints}
use ais_server.Db.Endpoints.Rows.{find-first}
use ais_server.Db.Endpoints.Sound.{IsSound}

-- The row if it is enabled.
abbrev pub if_enabled : Option Endpoint → Option Endpoint
if_enabled none = none
if_enabled (some e) = if e.enabled then some e else none

abbrev or_else : Option Endpoint → Option Endpoint → Option Endpoint
or_else none o = o
or_else (some e) o = some e

module _ (k : ℕ) where
  gone :
      (rows : List Endpoint)
      → All (λ e. (true && nat_eqb e.id k) ≡ false) rows
      → first (λ e. nat_eqb e.id k) rows ≡ none
  gone [] a = refl
  gone (e ∷ rows) a = ground (arith, a.0, gone rows a.1)

  wanted_from_lem :
      (rows : List Endpoint) (d : Dict ℕ Endpoint)
      → AtMostOne (λ e. nat_eqb e.id k) rows
      → Dict.get (wanted_from d rows) k
        ≡ or_else (if_enabled (first (λ e. nat_eqb e.id k) rows)) (Dict.get d k)
  unfolding wanted_from
  wanted_from_lem [] d m = refl
  wanted_from_lem (e ∷ rows) d m =
      wanted_from_lem rows (if e.enabled then Dict.put d e.id e else d) m.1
      ∙ elim (Bool-cases (nat_eqb e.id k)) [
        | inl hit ↦
            let none_left : first (λ (x : Endpoint). nat_eqb x.id k) rows ≡ none =
              gone rows (rw hit at m.0) in
            rw (hit, none_left) (put_hit e.enabled hit)
        | inr miss ↦ rw miss (put_miss e.enabled miss)
      ]
    where
      put_hit :
          (on : Bool)
          → nat_eqb e.id k ≡ true
          → Dict.get (if on then Dict.put d e.id e else d) k
            ≡ or_else (if on then some e else none) (Dict.get d k)
      put_hit true hit = Dict.get-put_eq d e.id k e hit
      put_hit false hit = refl

      put_miss :
          (on : Bool)
          → nat_eqb e.id k ≡ false
          → or_else
              (if_enabled (first (λ (x : Endpoint). nat_eqb x.id k) rows))
              (Dict.get (if on then Dict.put d e.id e else d) k)
            ≡ or_else (if_enabled (first (λ (x : Endpoint). nat_eqb x.id k) rows)) (Dict.get d k)
      put_miss true miss =
          ap (or_else (if_enabled (first (λ (x : Endpoint). nat_eqb x.id k) rows)))
            (Dict.get-put_ne d e.id k e miss)
      put_miss false miss = refl

or_else-none : (o : Option Endpoint) → or_else o none ≡ o
or_else-none none = refl
or_else-none (some e) = refl

-- If no number stands twice in the table, the manager wants a worker for a number exactly if its row is
-- enabled, and with that row.
pub wanted_from-get_endpoint :
    (db : Database) (k : ℕ)
    → IsSound db
    → Dict.get (wanted_from [] (list_endpoints db false)) k ≡ if_enabled (get_endpoint db k)
unfolding list_endpoints get_endpoint Dict.get
wanted_from-get_endpoint db k v =
    let p : Endpoint → Bool = λ e. nat_eqb e.id k in
    wanted_from_lem k (sort_by name_before db.endpoints) []
      (sort_by-AtMostOne p name_before db.endpoints (v.ids k))
    ∙ or_else-none (if_enabled (first p (sort_by name_before db.endpoints)))
    ∙ ap if_enabled
        (first-sort_by p name_before db.endpoints (v.ids k) ∙ sym (find-first p db.endpoints))
