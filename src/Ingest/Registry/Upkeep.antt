-- ===== src/Ingest/Registry/Upkeep.antt =====
-- ais_server/ingest.py: what pruning removes from the registry.
use ais_server.Prelude.{
  ℕ, ◌+◌, ◌≤◌, ◌<◌, ◌≡◌, refl, sym, ap, ◌∙◌, Bool, true, false, ◌||◌, Option, none, some, List, [],
  ◌∷◌, arith, nat_eqb, if◌then◌else◌, ◌==◌, nat_eq,
}
use ais_server.Prelude.Text.{Text, text_eqb_iff, text_eq}
use ais_server.Prelude.Dict
use ais_server.Prelude.Dict.{Dict, keys}
use ais_server.Ingest.Registry.{NodeInfo, NodeRegistry}
use ais_server.Ingest.Registry.Views.{deref, view}
use ais_server.Ingest.Registry.Housekeeping.{is_stale, prune_node, prune_loop, prune_inactive}

-- What pruning leaves of a node.
abbrev unless_stale : ℕ → ℕ → Option NodeInfo → Option NodeInfo
unless_stale max_age now none = none
unless_stale max_age now (some n) = if is_stale max_age now n then none else some n

abbrev removed_key : NodeRegistry → Text → NodeRegistry
removed_key r k = record r { nodes = Dict.remove r.nodes k; last_log = Dict.remove r.last_log k }

view-removed :
    (r : NodeRegistry) (k j : Text) → view (removed_key r k) j ≡ (if k == j then none else view r j)
unfolding view
view-removed r k j = ap (deref r.objects) (Dict.get-remove r.nodes k j) ∙ by_test (k == j)
  where
    by_test :
        (b : Bool)
        → deref r.objects (if b then none else Dict.get r.nodes j)
          ≡ (if b then none else deref r.objects (Dict.get r.nodes j))
    by_test true = refl
    by_test false = refl

view-prune_node :
    (r : NodeRegistry) (k j : Text) (max_age now : ℕ)
    → view (prune_node r k max_age now (view r k)).0 j
      ≡ (if k == j then unless_stale max_age now (view r j) else view r j)
view-prune_node r k j max_age now = by_node (view r k) refl
  where
    by_node :
        (o : Option NodeInfo)
        → view r k ≡ o
        → view (prune_node r k max_age now o).0 j
          ≡ (if k == j then unless_stale max_age now (view r j) else view r j)
    by_node none e = at_key (k == j) (λ h. ap (view r) (sym ((text_eqb_iff k j).0 h)) ∙ e)
      where
        at_key :
            (b : Bool)
            → (b ≡ true → view r j ≡ none)
            → view r j ≡ (if b then unless_stale max_age now (view r j) else view r j)
        at_key true f = f refl ∙ sym (ap (unless_stale max_age now) (f refl))
        at_key false f = refl
    by_node (some n) e = by_age (is_stale max_age now n) refl
      where
        at_key :
            (a b : Bool)
            → is_stale max_age now n ≡ a
            → (b ≡ true → view r j ≡ some n)
            → (if a then (if b then none else view r j) else view r j)
              ≡ (if b then unless_stale max_age now (view r j) else view r j)
        at_key true true g f =
            sym (ap (unless_stale max_age now) (f refl) ∙ ap (λ c. if c then none else some n) g)
        at_key false true g f =
            f refl
            ∙ sym (ap (unless_stale max_age now) (f refl) ∙ ap (λ c. if c then none else some n) g)
        at_key true false g f = refl
        at_key false false g f = refl

        seen : (k == j) ≡ true → view r j ≡ some n
        seen h = ap (view r) (sym ((text_eqb_iff k j).0 h)) ∙ e

        by_age :
            (a : Bool)
            → is_stale max_age now n ≡ a
            → view (if◌then◌else◌ {A = NodeRegistry × ℕ} a (removed_key r k, 1) (r, 0)).0 j
              ≡ (if k == j then unless_stale max_age now (view r j) else view r j)
        by_age true g = view-removed r k j ∙ at_key true (k == j) g seen
        by_age false g = at_key false (k == j) g seen

has_key : Text → List Text → Bool
has_key j [] = false
has_key j (k ∷ ks) = k == j || has_key j ks

view-prune_loop :
    (r : NodeRegistry) (ks : List Text) (max_age now removed : ℕ) (j : Text)
    → view (prune_loop r ks max_age now removed).0 j
      ≡ (if has_key j ks then unless_stale max_age now (view r j) else view r j)
unfolding prune_loop has_key
view-prune_loop r [] max_age now removed j = refl
view-prune_loop r (k ∷ ks) max_age now removed j =
    let (r', gone) = prune_node r k max_age now (view r k) in
    view-prune_loop r' ks max_age now (removed + gone) j
    ∙ ap (λ o. if has_key j ks then unless_stale max_age now o else o)
        (view-prune_node r k j max_age now)
    ∙ twice (k == j) (has_key j ks) (view r j)
  where
    again :
        (o : Option NodeInfo)
        → unless_stale max_age now (unless_stale max_age now o) ≡ unless_stale max_age now o
    again none = refl
    again (some n) = ground arith

    twice :
        (a b : Bool) (o : Option NodeInfo)
        → (if b
            then unless_stale max_age now (if a then unless_stale max_age now o else o)
            else (if a then unless_stale max_age now o else o))
          ≡ (if a || b then unless_stale max_age now o else o)
    twice true true o = again o
    twice true false o = refl
    twice false true o = refl
    twice false false o = refl

has_key-keys : (d : Dict Text ℕ) (j : Text) → has_key j (keys d) ≡ false → Dict.get d j ≡ none
unfolding has_key Dict.get
has_key-keys [] j h = refl
has_key-keys ((k, i) ∷ d) j h = ground (arith, has_key-keys d j)

view-prune_unless :
    (r : NodeRegistry) (max_age now : ℕ) (j : Text)
    → 0 < max_age
    → view (prune_inactive r max_age now).0 j ≡ unless_stale max_age now (view r j)
unfolding prune_inactive
view-prune_unless r max_age now j p =
    ap
      (λ b.
        view
          (if◌then◌else◌ {A = NodeRegistry × ℕ} b (r, 0)
            (prune_loop r (keys r.nodes) max_age now 0)).0
          j)
      (positive max_age p)
    ∙ view-prune_loop r (keys r.nodes) max_age now 0 j
    ∙ by_key (has_key j (keys r.nodes)) refl
  where
    positive : (m : ℕ) → 0 < m → nat_eqb m 0 ≡ false
    positive m h = ground arith

    absent : has_key j (keys r.nodes) ≡ false → view r j ≡ none
    absent h = unfold view in ap (deref r.objects) (has_key-keys r.nodes j h)

    by_key :
        (b : Bool)
        → has_key j (keys r.nodes) ≡ b
        → (if b then unless_stale max_age now (view r j) else view r j)
          ≡ unless_stale max_age now (view r j)
    by_key true h = refl
    by_key false h = absent h ∙ sym (ap (unless_stale max_age now) (absent h))

-- With a positive age limit: a node without a session that was last seen longer ago than the limit is
-- gone after the pruning; a node with a session, and one that was seen within the limit, is shown as
-- before; and no node appears.
pub view-prune_inactive :
    (r : NodeRegistry) (max_age now : ℕ) (j : Text)
    → 0 < max_age
    → (view r j ≡ none → view (prune_inactive r max_age now).0 j ≡ none)
      × ((n : NodeInfo)
          → view r j ≡ some n
          → (n.active_sessions ≡ 0
              → n.last_seen + max_age < now
              → view (prune_inactive r max_age now).0 j ≡ none)
            × (0 < n.active_sessions → view (prune_inactive r max_age now).0 j ≡ some n)
            × (now ≤ n.last_seen + max_age → view (prune_inactive r max_age now).0 j ≡ some n))
view-prune_inactive r max_age now j p =
    let pruned = view-prune_unless r max_age now j p in
    (
      λ e. pruned ∙ ap (unless_stale max_age now) e,
      λ n e.
          let left = pruned ∙ ap (unless_stale max_age now) e in
          (
            λ idle old.
                let gone : is_stale max_age now n ≡ true = ground (arith, idle, old) in
                left ∙ ap (λ b. if b then none else some n) gone,
            λ busy.
                let stays : is_stale max_age now n ≡ false = ground (arith, busy) in
                left ∙ ap (λ b. if b then none else some n) stays,
            λ young.
                let stays : is_stale max_age now n ≡ false = ground (arith, young) in
                left ∙ ap (λ b. if b then none else some n) stays,
          ),
    )
