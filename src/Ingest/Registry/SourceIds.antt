-- ===== src/Ingest/Registry/SourceIds.antt =====
-- ais_server/ingest.py: what set_source_id does to the nodes that the registry shows.
use ais_server.Prelude.{
  ℕ, ◌≡◌, refl, sym, ap, ◌∙◌, Bool, true, false, ◌||◌, Option, none, some, [], if◌then◌else◌, ◌==◌,
  nat_eq,
}
use ais_server.Prelude.Text.{Text, text_eq}
use ais_server.Prelude.Dict
use ais_server.Prelude.Dict.{Dict}
use ais_server.Ingest.Registry.{
  NodeInfo, NodeRegistry, new_node, upgrade_update, is_some, known_node, upgrade, set_source_id,
}
use ais_server.Ingest.Registry.Views.{deref, view, map_node, WellKeyed, register-WellKeyed}
use ais_server.Ingest.Registry.Moves.{moved-WellKeyed, view-moved}

view_none→get :
    (r : NodeRegistry) (k : Text) → WellKeyed r → view r k ≡ none → Dict.get r.nodes k ≡ none
unfolding view
view_none→get r k w h = by_place (Dict.get r.nodes k) refl
  where
    by_place : (o : Option ℕ) → Dict.get r.nodes k ≡ o → Dict.get r.nodes k ≡ none
    by_place none e = e
    by_place (some i) e =
        let (n, f, _) = w k i e in
        let g : none ≡ some n = sym h ∙ ap (deref r.objects) e ∙ f in absurd (cc)

view_some→get :
    (r : NodeRegistry) (k : Text) (n : NodeInfo)
    → view r k ≡ some n
    → (i : ℕ) × (Dict.get r.nodes k ≡ some i)
unfolding view
view_some→get r k n h = by_place (Dict.get r.nodes k) refl
  where
    by_place : (o : Option ℕ) → Dict.get r.nodes k ≡ o → (i : ℕ) × (Dict.get r.nodes k ≡ some i)
    by_place none e = let g : none ≡ some n = sym (ap (deref r.objects) e) ∙ h in absurd (cc)
    by_place (some i) e = (i, e)

-- If the new key is not taken, the node of the old key moves to it, with all its counters, and no
-- other key changes.
pub view-set_source_id :
    (r : NodeRegistry) (old source : Text) (now : ℕ) (n : NodeInfo) (j : Text)
    → WellKeyed r
    → (old == source) ≡ false
    → view r source ≡ none
    → view r old ≡ some n
    → view (set_source_id r old source now).0 j ≡ (
        if source == j then some (upgrade_update source n) else if old == j then none else view r j)
unfolding set_source_id
view-set_source_id r old source now n j w ne free held =
    let (i, e) = view_some→get r old n held in
    let no_source = view_none→get r source w free in
    ap
      (λ b.
        view
          (if b || is_some (Dict.get r.nodes source)
            then (r, known_node r old source)
            else upgrade r old source (Dict.get r.nodes old) now).0
          j)
      ne
    ∙ ap
        (λ o.
          view
            (if is_some o
              then (r, known_node r old source)
              else upgrade r old source (Dict.get r.nodes old) now).0
            j)
        no_source
    ∙ ap (λ o. view (upgrade r old source o now).0 j) e
    ∙ view-moved r old source now w i j e
    ∙ ap
        (λ o.
          if source == j
          then map_node (upgrade_update source) o
          else if old == j
          then none
          else view r j)
        held

-- If the new key is taken, or is the old one, the registry stays as it is.
pub set_source_id_taken :
    (r : NodeRegistry) (old source : Text) (now : ℕ) (m : NodeInfo)
    → view r source ≡ some m
    → (set_source_id r old source now).0 ≡ r
unfolding set_source_id
set_source_id_taken r old source now m held =
    let (i, e) = view_some→get r source m held in
    ap
      (λ o.
        (if old == source || is_some o
          then (r, known_node r old source)
          else upgrade r old source (Dict.get r.nodes old) now).0)
      e
    ∙ by_test (old == source)
  where
    by_test :
        (b : Bool)
        → (if b || true
            then (r, known_node r old source)
            else upgrade r old source (Dict.get r.nodes old) now).0
          ≡ r
    by_test true = refl
    by_test false = refl

-- A change of the key of a node keeps every key at an object with that key, on all branches.
pub set_source_id-WellKeyed :
    (r : NodeRegistry) (old source : Text) (now : ℕ)
    → WellKeyed r
    → WellKeyed (set_source_id r old source now).0
unfolding set_source_id
set_source_id-WellKeyed r old source now w =
    by_test (old == source || is_some (Dict.get r.nodes source))
  where
    by_place : (o : Option ℕ) → Dict.get r.nodes old ≡ o → WellKeyed (upgrade r old source o now).0
    by_place none e = register-WellKeyed r (new_node source [] (some source) now 0) w
    by_place (some i) e = moved-WellKeyed r old source now w i e

    by_test :
        (b : Bool)
        → WellKeyed
            (if b
              then (r, known_node r old source)
              else upgrade r old source (Dict.get r.nodes old) now).0
    by_test true = w
    by_test false = by_place (Dict.get r.nodes old) refl
