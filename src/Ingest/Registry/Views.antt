-- ===== src/Ingest/Registry/Views.antt =====
-- What a key shows of the registry, and how the primitive steps change it.
use ais_server.Prelude.{
  ℕ, zero, suc, ◌≡◌, refl, sym, ap, ◌∙◌, inl, inr, Bool, true, false, Option, none, some, List, [],
  ◌∷◌, ◌++◌, arith, nat_eqb, if◌then◌else◌, nat_eqb_iff, Bool-cases, Bool-eq, Option-cases, ◌==◌,
  nat_eq, length, get_elem?,
}
use ais_server.Prelude.Text.{Text, text_eqb_iff, text_eq}
use ais_server.Prelude.Dict
use ais_server.Prelude.Dict.{Dict}
use ais_server.Ingest.Registry.{NodeInfo, NodeRegistry, modify, register, update_at, update_key}

abbrev pub deref : List NodeInfo → Option ℕ → Option NodeInfo
deref objects none = none
deref objects (some i) = get_elem? objects i

-- The node of a key, as the program reads it.
unfoldable pub view : NodeRegistry → Text → Option NodeInfo
view r key = deref r.objects (Dict.get r.nodes key)

abbrev pub map_node : (NodeInfo → NodeInfo) → Option NodeInfo → Option NodeInfo
map_node f none = none
map_node f (some n) = some (f n)

-- Each key leads to an object that holds the same key; so two keys never share an object.
abbrev pub WellKeyed : NodeRegistry → Type 0
WellKeyed r =
    (k : Text) (i : ℕ)
    → Dict.get r.nodes k ≡ some i
    → (n : NodeInfo) × (get_elem? r.objects i ≡ some n) × (n.key ≡ k)

some_inj : {a b : ℕ} → some a ≡ some b → a ≡ b
some_inj h = cc

pub get_elem?-modify :
    (ns : List NodeInfo) (i j : ℕ) (f : NodeInfo → NodeInfo)
    → get_elem? (modify ns i f) j
      ≡ (if nat_eqb i j then map_node f (get_elem? ns j) else get_elem? ns j)
get_elem?-modify [] i j f = ground arith
get_elem?-modify (n ∷ ns) zero zero f = refl
get_elem?-modify (n ∷ ns) zero (suc j) f = ground arith
get_elem?-modify (n ∷ ns) (suc i) zero f = ground arith
get_elem?-modify (n ∷ ns) (suc i) (suc j) f = ground (arith, get_elem?-modify ns i j f)

pub get_elem?-last :
    (ns : List NodeInfo) (n : NodeInfo) → get_elem? (ns ++ n ∷ []) (length ns) ≡ some n
get_elem?-last [] n = refl
get_elem?-last (m ∷ ns) n = get_elem?-last ns n

pub get_elem?-earlier :
    (ns : List NodeInfo) (n m : NodeInfo) (i : ℕ)
    → get_elem? ns i ≡ some m
    → get_elem? (ns ++ n ∷ []) i ≡ some m
get_elem?-earlier [] n m i h = cc
get_elem?-earlier (x ∷ ns) n m zero h = h
get_elem?-earlier (x ∷ ns) n m (suc i) h = get_elem?-earlier ns n m i h

pub key_of_object :
    (r : NodeRegistry) (k j : Text) (i : ℕ)
    → WellKeyed r
    → Dict.get r.nodes k ≡ some i
    → Dict.get r.nodes j ≡ some i
    → k ≡ j
key_of_object r k j i w p q = let (n, e, f) = w k i p in let (m, g, h) = w j i q in cc

-- Two keys lead to the same place exactly if they are the same.
pub same_place :
    (r : NodeRegistry) (k j : Text) (i l : ℕ)
    → WellKeyed r
    → Dict.get r.nodes k ≡ some i
    → Dict.get r.nodes j ≡ some l
    → nat_eqb i l ≡ (k == j)
same_place r k j i l w p q = Bool-eq (nat_eqb i l) (k == j) one_key one_place
  where
    one_key : nat_eqb i l ≡ true → (k == j) ≡ true
    one_key e =
        let p' : Dict.get r.nodes k ≡ some l = p ∙ ap some ((nat_eqb_iff i l).0 e) in
        (text_eqb_iff k j).1 (key_of_object r k j l w p' q)

    one_place : (k == j) ≡ true → nat_eqb i l ≡ true
    one_place e =
        let p' : Dict.get r.nodes j ≡ some i =
          ap (Dict.get r.nodes) (sym ((text_eqb_iff k j).0 e)) ∙ p in
        (nat_eqb_iff i l).1 (cc)

pub view-update_key :
    (r : NodeRegistry) (k j : Text) (f : NodeInfo → NodeInfo)
    → WellKeyed r
    → view (update_key r k f) j ≡ (if k == j then map_node f (view r j) else view r j)
unfolding update_key view
view-update_key r k j f w = elim (Option-cases (Dict.get r.nodes k)) [
  | inl missing ↦ ap (λ o. view (update_at r f o) j) missing ∙ absent missing
  | inr (i, found) ↦
      ap (λ o. view (update_at r f o) j) found ∙ elim (Option-cases (Dict.get r.nodes j)) [
        | inl missing ↦
            ap (deref (modify r.objects i f)) missing
            ∙ sym (
                ap (λ o. if k == j then map_node f (deref r.objects o) else deref r.objects o)
                  missing
                ∙ both_none (k == j))
        | inr (l, other) ↦
            ap (deref (modify r.objects i f)) other
            ∙ at_object i l found other
            ∙ sym (
                ap (λ o. if k == j then map_node f (deref r.objects o) else deref r.objects o)
                  other)
      ]
]
  where
    both_none : (b : Bool) → (if b then map_node f none else none) ≡ none
    both_none b = ground arith

    absent :
        Dict.get r.nodes k ≡ none
        → deref r.objects (Dict.get r.nodes j) ≡ (
            if k == j
            then map_node f (deref r.objects (Dict.get r.nodes j))
            else deref r.objects (Dict.get r.nodes j))
    absent missing = ground (arith, text_eqb_iff k j)

    at_object :
        (i l : ℕ)
        → Dict.get r.nodes k ≡ some i
        → Dict.get r.nodes j ≡ some l
        → get_elem? (modify r.objects i f) l
          ≡ (if k == j then map_node f (get_elem? r.objects l) else get_elem? r.objects l)
    at_object i l p q =
        get_elem?-modify r.objects i l f
        ∙ ap (λ b. if b then map_node f (get_elem? r.objects l) else get_elem? r.objects l)
            (same_place r k j i l w p q)

pub update_key-WellKeyed :
    (r : NodeRegistry) (k : Text) (f : NodeInfo → NodeInfo)
    → ((n : NodeInfo) → (f n).key ≡ n.key)
    → WellKeyed r
    → WellKeyed (update_key r k f)
unfolding update_key
update_key-WellKeyed r k f same w = keyed (Dict.get r.nodes k)
  where
    written :
        (i l : ℕ) (n : NodeInfo) (b : Bool)
        → nat_eqb i l ≡ b
        → get_elem? r.objects l ≡ some n
        → get_elem? (modify r.objects i f) l ≡ (if b then some (f n) else some n)
    written i l n b c e =
        get_elem?-modify r.objects i l f
        ∙ ap (λ b. if b then map_node f (get_elem? r.objects l) else get_elem? r.objects l) c
        ∙ ap (λ o. if b then map_node f o else o) e

    at_place :
        (i l : ℕ) (j : Text) (b : Bool)
        → nat_eqb i l ≡ b
        → (n : NodeInfo) × (get_elem? r.objects l ≡ some n) × (n.key ≡ j)
        → (n : NodeInfo) × (get_elem? (modify r.objects i f) l ≡ some n) × (n.key ≡ j)
    at_place i l j true c (n, e, g) = (f n, written i l n true c e, same n ∙ g)
    at_place i l j false c (n, e, g) = (n, written i l n false c e, g)

    keyed : (o : Option ℕ) → WellKeyed (update_at r f o)
    keyed none j l h = w j l h
    keyed (some i) j l h = at_place i l j (nat_eqb i l) refl (w j l h)

-- A new object is in the registry under its key, and nothing else changes.
pub register-WellKeyed : (r : NodeRegistry) (n : NodeInfo) → WellKeyed r → WellKeyed (register r n)
register-WellKeyed r n w j l h = elim (Bool-cases (n.key == j)) [
  | inl same ↦
      let p : length r.objects ≡ l =
        some_inj (sym (Dict.get-put_eq r.nodes n.key j (length r.objects) same) ∙ h) in
      (
        n,
        ap (get_elem? (r.objects ++ n ∷ [])) (sym p) ∙ get_elem?-last r.objects n,
        (text_eqb_iff n.key j).0 same,
      )
  | inr other ↦
      let (m, e, g) = w j l (sym (Dict.get-put_ne r.nodes n.key j (length r.objects) other) ∙ h) in
      (m, get_elem?-earlier r.objects n m l e, g)
]

pub view-register :
    (r : NodeRegistry) (n : NodeInfo) (j : Text)
    → WellKeyed r
    → view (register r n) j ≡ (if n.key == j then some n else view r j)
unfolding view
view-register r n j w =
    ap (deref (r.objects ++ n ∷ [])) (Dict.get-put r.nodes n.key j (length r.objects))
    ∙ found (n.key == j) (Dict.get r.nodes j) (w j)
  where
    found :
        (b : Bool) (o : Option ℕ)
        → ((i : ℕ) → o ≡ some i → (m : NodeInfo) × (get_elem? r.objects i ≡ some m) × (m.key ≡ j))
        → deref (r.objects ++ n ∷ []) (if b then some (length r.objects) else o)
          ≡ (if b then some n else deref r.objects o)
    found true o g = get_elem?-last r.objects n
    found false none g = refl
    found false (some i) g = let (m, e, _) = g i refl in get_elem?-earlier r.objects n m i e ∙ sym e
