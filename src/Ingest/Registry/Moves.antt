-- ===== src/Ingest/Registry/Moves.antt =====
-- How a node moves from one key to another.
use ais_server.Prelude.{
  ℕ, ◌≡◌, refl, sym, ap, ◌∙◌, Bool, true, false, Option, none, some, List, arith, nat_eqb,
  if◌then◌else◌, nat_eqb_iff, ◌==◌, nat_eq, get_elem?,
}
use ais_server.Prelude.Text.{Text, text_eqb_iff, text_eq}
use ais_server.Prelude.Dict
use ais_server.Prelude.Dict.{Dict}
use ais_server.Ingest.Registry.{
  NodeInfo, NodeRegistry, modify, end_update, on_session_end, upgrade_update, upgrade, touch_update,
  touch,
}
use ais_server.Ingest.Registry.Views.{
  deref, view, map_node, WellKeyed, get_elem?-modify, view-update_key, update_key-WellKeyed,
  same_place,
}

pub view-on_session_end :
    (r : NodeRegistry) (k j : Text)
    → WellKeyed r
    → view (on_session_end r k) j ≡ (if k == j then map_node end_update (view r j) else view r j)
unfolding on_session_end
view-on_session_end r k j w = view-update_key r k j end_update w

end_key : (n : NodeInfo) → (end_update n).key ≡ n.key
end_key n = ground arith

pub on_session_end-WellKeyed :
    (r : NodeRegistry) (k : Text) → WellKeyed r → WellKeyed (on_session_end r k)
unfolding on_session_end
on_session_end-WellKeyed r k w = update_key-WellKeyed r k end_update end_key w

pub view-touch :
    (r : NodeRegistry) (k j : Text) (nbytes now : ℕ) (msg invalid : Bool)
    → WellKeyed r
    → view (touch r k nbytes msg invalid now) j
      ≡ (if k == j then map_node (touch_update nbytes msg invalid now) (view r j) else view r j)
unfolding touch
view-touch r k j nbytes now msg invalid w =
    view-update_key r k j (touch_update nbytes msg invalid now) w

pub touch-WellKeyed :
    (r : NodeRegistry) (k : Text) (nbytes now : ℕ) (msg invalid : Bool)
    → WellKeyed r
    → WellKeyed (touch r k nbytes msg invalid now)
unfolding touch
touch-WellKeyed r k nbytes now msg invalid w =
    update_key-WellKeyed r k (touch_update nbytes msg invalid now) (λ n. refl) w

some_inj : {a b : ℕ} → some a ≡ some b → a ≡ b
some_inj h = cc

modify_here :
    (ns : List NodeInfo) (i : ℕ) (f : NodeInfo → NodeInfo)
    → get_elem? (modify ns i f) i ≡ map_node f (get_elem? ns i)
modify_here ns i f =
    get_elem?-modify ns i i f
    ∙ ap (λ b. if b then map_node f (get_elem? ns i) else get_elem? ns i) ((nat_eqb_iff i i).1 refl)

modify_other :
    (ns : List NodeInfo) (i l : ℕ) (f : NodeInfo → NodeInfo)
    → nat_eqb i l ≡ false
    → get_elem? (modify ns i f) l ≡ get_elem? ns l
modify_other ns i l f h =
    get_elem?-modify ns i l f
    ∙ ap (λ b. if b then map_node f (get_elem? ns l) else get_elem? ns l) h

module _ (r : NodeRegistry) (old source : Text) (now : ℕ) (w : WellKeyed r) where
  -- The registry after the node at place `i` has moved from the old key to the new one.
  abbrev pub moved : ℕ → NodeRegistry
  moved i = (upgrade r old source (some i) now).0

  place_of :
      (i : ℕ) (j : Text)
      → Dict.get (moved i).nodes j
        ≡ (if source == j then some i else if old == j then none else Dict.get r.nodes j)
  place_of i j =
      Dict.get-put (Dict.remove r.nodes old) source j i
      ∙ ap (λ o. if source == j then some i else o) (Dict.get-remove r.nodes old j)

  other_place :
      (i l : ℕ) (j : Text)
      → Dict.get r.nodes old ≡ some i
      → (old == j) ≡ false
      → Dict.get r.nodes j ≡ some l
      → nat_eqb i l ≡ false
  other_place i l j e f g = same_place r old j i l w e g ∙ f

  pub moved-WellKeyed : (i : ℕ) → Dict.get r.nodes old ≡ some i → WellKeyed (moved i)
  moved-WellKeyed i e j l h = by_key (source == j) (old == j) refl refl (sym (place_of i j) ∙ h)
    where
      by_key :
          (a b : Bool)
          → (source == j) ≡ a
          → (old == j) ≡ b
          → (if a then some i else if b then none else Dict.get r.nodes j) ≡ some l
          → (n : NodeInfo) × (get_elem? (modify r.objects i (upgrade_update source)) l ≡ some n)
            × (n.key ≡ j)
      by_key true b f g q =
          let (n, o, _) = w old i e in
          (
            upgrade_update source n,
            ap (get_elem? (modify r.objects i (upgrade_update source))) (sym (some_inj q))
                ∙ modify_here r.objects i (upgrade_update source)
                ∙ ap (map_node (upgrade_update source)) o,
            (text_eqb_iff source j).0 f,
          )
      by_key false true f g q = absurd (cc)
      by_key false false f g q =
          let (n, o, k) = w j l q in
          (n, modify_other r.objects i l (upgrade_update source) (other_place i l j e g q) ∙ o, k)

  pub view-moved :
      (i : ℕ) (j : Text)
      → Dict.get r.nodes old ≡ some i
      → view (moved i) j ≡ (
          if source == j
          then map_node (upgrade_update source) (view r old)
          else if old == j
          then none
          else view r j)
  unfolding view
  view-moved i j e =
      ap (deref (modify r.objects i (upgrade_update source))) (place_of i j)
      ∙ by_key (source == j) (old == j) (Dict.get r.nodes j) refl refl
    where
      by_key :
          (a b : Bool) (o : Option ℕ)
          → (old == j) ≡ b
          → Dict.get r.nodes j ≡ o
          → deref
              (modify r.objects i (upgrade_update source))
              (if a then some i else if b then none else o)
            ≡ (if a
                then map_node (upgrade_update source) (deref r.objects (Dict.get r.nodes old))
                else if b
                then none
                else deref r.objects o)
      by_key true b o f g =
          modify_here r.objects i (upgrade_update source)
          ∙ sym (ap (λ p. map_node (upgrade_update source) (deref r.objects p)) e)
      by_key false true o f g = refl
      by_key false false none f g = refl
      by_key false false (some l) f g =
          modify_other r.objects i l (upgrade_update source) (other_place i l j e f g)
