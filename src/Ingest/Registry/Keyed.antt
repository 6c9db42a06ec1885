-- ===== src/Ingest/Registry/Keyed.antt =====
-- What the sessions do to the registry, as seen through the keys.
use ais_server.Prelude.{
  ℕ, ◌≡◌, refl, sym, ap, ◌∙◌, Bool, true, false, Option, none, some, if◌then◌else◌, ◌==◌, nat_eq,
  ==_refl, length,
}
use ais_server.Prelude.Text.{Text, text_eqb_iff, text_eq}
use ais_server.Prelude.Dict
use ais_server.Prelude.Dict.{Dict}
use ais_server.Ingest.Registry.{
  NodeInfo, NodeRegistry, new_node, register, session_key, start_update, update_object,
  find_or_register, on_session_start, update_at, update_key,
}
use mathlib.Core.Path.{subst}
use ais_server.Ingest.Registry.Views.{
  deref, view, map_node, WellKeyed, view-update_key, update_key-WellKeyed, register-WellKeyed,
  view-register,
}

-- The node that a session finds, or makes.
abbrev pub found_or : NodeInfo → Option NodeInfo → NodeInfo
found_or n none = n
found_or n (some m) = m

ensure : NodeRegistry → NodeInfo → NodeRegistry
ensure r n = (find_or_register r n (Dict.get r.nodes n.key)).0

ensure-WellKeyed : (r : NodeRegistry) (n : NodeInfo) → WellKeyed r → WellKeyed (ensure r n)
unfolding ensure
ensure-WellKeyed r n w = by_place (Dict.get r.nodes n.key)
  where
    by_place : (o : Option ℕ) → WellKeyed (find_or_register r n o).0
    by_place none = register-WellKeyed r n w
    by_place (some i) = w

view-ensure :
    (r : NodeRegistry) (n : NodeInfo) (j : Text)
    → WellKeyed r
    → view (ensure r n) j ≡ (if n.key == j then some (found_or n (view r n.key)) else view r j)
unfolding ensure
view-ensure r n j w = by_place (Dict.get r.nodes n.key) refl
  where
    has_object :
        (i : ℕ) → Dict.get r.nodes n.key ≡ some i → (m : NodeInfo) × (view r n.key ≡ some m)
    has_object i e = let (m, f, _) = w n.key i e in (m, unfold view in ap (deref r.objects) e ∙ f)

    has_none : Dict.get r.nodes n.key ≡ none → view r n.key ≡ none
    has_none e = unfold view in ap (deref r.objects) e

    by_place :
        (o : Option ℕ)
        → Dict.get r.nodes n.key ≡ o
        → view (find_or_register r n o).0 j
          ≡ (if n.key == j then some (found_or n (view r n.key)) else view r j)
    by_place none e =
        view-register r n j w
        ∙ ap (λ o. if n.key == j then some (found_or n o) else view r j) (sym (has_none e))
    by_place (some i) e =
        let (m, f) = has_object i e in
        old (n.key == j) m f (λ h. ap (view r) (sym ((text_eqb_iff n.key j).0 h)))
      where
        old :
            (b : Bool) (m : NodeInfo)
            → view r n.key ≡ some m
            → (b ≡ true → view r j ≡ view r n.key)
            → view r j ≡ (if b then some (found_or n (view r n.key)) else view r j)
        old true m f g = g refl ∙ f ∙ sym (ap (λ o. some (found_or n o)) f)
        old false m f g = refl

start_ensure :
    (r : NodeRegistry) (peer host : Text) (source_id : Option Text) (now : ℕ)
    → (on_session_start r peer host source_id now).0
      ≡ update_key
          (ensure r (new_node (session_key source_id host) host source_id now now))
          (session_key source_id host)
          (start_update peer host now)
unfolding on_session_start ensure update_key
start_ensure r peer host source_id now = by_place (Dict.get r.nodes k) refl
  where
    k : Text
    k = session_key source_id host

    n : NodeInfo
    n = new_node k host source_id now now

    by_place :
        (o : Option ℕ)
        → Dict.get r.nodes k ≡ o
        → update_object
            (find_or_register r n o).0
            (find_or_register r n o).1
            (start_update peer host now)
          ≡ update_at
              (find_or_register r n o).0
              (start_update peer host now)
              (Dict.get (find_or_register r n o).0.nodes k)
    by_place none e = sym (
        ap (update_at (register r n) (start_update peer host now))
          (Dict.get-put_eq r.nodes k k (length r.objects) (==_refl k)))
    by_place (some i) e = sym (ap (update_at r (start_update peer host now)) e)

-- A session makes its node, or takes the one of its key, and counts itself in; no other key changes.
pub view-on_session_start :
    (r : NodeRegistry) (peer host : Text) (source_id : Option Text) (now : ℕ) (j : Text)
    → WellKeyed r
    → view (on_session_start r peer host source_id now).0 j ≡ (
        if session_key source_id host == j
        then some (
            start_update peer host now (
              found_or
                (new_node (session_key source_id host) host source_id now now)
                (view r (session_key source_id host))))
        else view r j)
view-on_session_start r peer host source_id now j w =
    let k = session_key source_id host in
    let n = new_node k host source_id now now in
    ap (λ s. view s j) (start_ensure r peer host source_id now)
    ∙ view-update_key (ensure r n) k j (start_update peer host now) (ensure-WellKeyed r n w)
    ∙ ap (λ o. if k == j then map_node (start_update peer host now) o else o) (view-ensure r n j w)
    ∙ both (k == j) _ _
  where
    both :
        (b : Bool) (m : NodeInfo) (o : Option NodeInfo)
        → (if b
            then map_node (start_update peer host now) (if b then some m else o)
            else (if b then some m else o))
          ≡ (if b then some (start_update peer host now m) else o)
    both true m o = refl
    both false m o = refl

pub on_session_start-WellKeyed :
    (r : NodeRegistry) (peer host : Text) (source_id : Option Text) (now : ℕ)
    → WellKeyed r
    → WellKeyed (on_session_start r peer host source_id now).0
on_session_start-WellKeyed r peer host source_id now w =
    let k = session_key source_id host in
    let n = new_node k host source_id now now in
    subst WellKeyed (sym (start_ensure r peer host source_id now)) (
      update_key-WellKeyed (ensure r n) k (start_update peer host now) (λ m. refl)
        (ensure-WellKeyed r n w))
