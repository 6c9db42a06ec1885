-- ===== src/Config.antt =====
-- ais_server/config.py: the merge of the configuration file over the defaults.
pub mod AtomicWrite
pub mod Secret
pub mod Persist
pub mod Load
mod Tests
use ais_server.Prelude.{
  ◌-◌, ◌≡◌, refl, sym, ap, ◌∙◌, inl, inr, Bool, Option, none, some, arith, if◌then◌else◌,
  Bool-cases,
}
use ais_server.Prelude.Text.{Text, text_eqb, text_eqb_iff}

-- A value of YAML: a mapping, or anything else, which is taken as a whole, and whether it is true.
mutual
  pub data Value : Type 0 where
    other : Bool → Text → Value
    mapping : Entries → Value

  pub data Entries : Type 0 where
    none_left : Entries
    entry : Text → Value → Entries → Entries

unfoldable pub lookup : Entries → Text → Option Value
lookup none_left k = none
lookup (entry j v d) k = if text_eqb j k then some v else lookup d k

-- `out[k] = v`
unfoldable pub assign : Entries → Text → Value → Entries
assign none_left k v = entry k v none_left
assign (entry j w d) k v = if text_eqb j k then entry j v d else entry j w (assign d k v)

-- What `out[k]` becomes, by what it was, and the merge.
unfoldable mutual
  pub merged : Option Value → Value → Value
  merged (some (mapping base)) (mapping override) = mapping (deep_merge base override)
  merged (some (other b s)) (mapping override) = mapping override
  merged none (mapping override) = mapping override
  merged old (other b s) = other b s

  pub deep_merge : Entries → Entries → Entries
  deep_merge out none_left = out
  deep_merge out (entry k v override) = deep_merge (assign out k (merged (lookup out k) v)) override

-- No key stands in a mapping twice.
abbrev pub Distinct : Entries → Type 0
Distinct none_left = Unit
Distinct (entry k v d) = (lookup d k ≡ none) × Distinct d

-- The value under a key that both, one or none of the two mappings hold.
unfoldable pub merged_at : Option Value → Option Value → Option Value
merged_at old none = old
merged_at old (some v) = some (merged old v)

pub lookup-assign :
    (d : Entries) (k j : Text) (v : Value)
    → lookup (assign d k v) j ≡ (if text_eqb k j then some v else lookup d j)
unfolding lookup assign
lookup-assign none_left k j v = refl
lookup-assign (entry i w d) k j v =
    ground (arith, lookup-assign d k j v, text_eqb_iff k j, text_eqb_iff i k, text_eqb_iff i j)

-- What the merge holds under a key is the override's value, merged into the base's value if both
-- are mappings, and the base's value if the override does not have the key.
pub lookup-deep_merge :
    (base override : Entries) (k : Text)
    → Distinct override
    → lookup (deep_merge base override) k ≡ merged_at (lookup base k) (lookup override k)
unfolding deep_merge lookup merged_at
lookup-deep_merge base none_left k d = refl
lookup-deep_merge base (entry j v override) k d =
    let out = assign base j (merged (lookup base j) v) in
    let step = lookup-assign base j k (merged (lookup base j) v) in
    lookup-deep_merge out override k d.1 ∙ elim (Bool-cases (text_eqb j k)) [
      | inl same ↦
          let here : j ≡ k = (text_eqb_iff j k).0 same in
          let gone : lookup override k ≡ none = ap (lookup override) (sym here) ∙ d.0 in
          ap (merged_at (lookup out k)) gone
          ∙ step
          ∙ ap (λ b. if b then some (merged (lookup base j) v) else lookup base k) same
          ∙ ap (λ i. some (merged (lookup base i) v)) here
          ∙ ap (λ b. merged_at (lookup base k) (if b then some v else lookup override k)) (sym same)
      | inr differs ↦
          ap (λ o. merged_at o (lookup override k))
            (step ∙ ap (λ b. if b then some (merged (lookup base j) v) else lookup base k) differs)
          ∙ ap (λ b. merged_at (lookup base k) (if b then some v else lookup override k))
              (sym differs)
    ]
