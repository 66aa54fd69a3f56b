-- ===== src/Catalog/Releases/Rows/Laws.antt =====
-- The collisions of aliases: which alias is stored as SAFE, and which document is refused.
use role_model_helper_v.Prelude.{
  ◌≤◌, ◌≡◌, ◌≢◌, String, true, ◌==◌, ◌&&◌, ◌++◌, All, ==-cases, refl, sym, ap, ◌∙◌, List, [], ◌∷◌,
  map, ltb, Bool-cases, inl, inr, Among, nat_eq, string_eq, list_eq, pair_eq, arith,
}
use role_model_helper_v.Text.{Text, codes}
use role_model_helper_v.Catalog.Bundle.{Document}
use role_model_helper_v.Catalog.Releases.Rows.{
  CollectedAlias, AliasRow, collected_aliases, collision_count, alias_row, alias_rows,
}

collision_count_pos :
    (a : CollectedAlias) (aliases : List CollectedAlias)
    → Among a aliases
    → 1 ≤ collision_count a.entity_type a.alias_normalized aliases
unfolding collision_count
collision_count_pos a [] m = absurd m
collision_count_pos a (b ∷ aliases) (inl e) = ground (
  arith,
  ap (λ (x : CollectedAlias). x.entity_type) e,
  ap (λ (x : CollectedAlias). x.alias_normalized) e,
)
collision_count_pos a (b ∷ aliases) (inr m) = ground (arith, collision_count_pos a aliases m)

abbrev pub alias_key : CollectedAlias → String × Text
alias_key a = (a.entity_type, a.alias_normalized)

-- The aliases have one with this key, and none of the others, before it or behind it, has it.
abbrev pub HasOne : String × Text → List CollectedAlias → Type 0
HasOne key aliases =
    (before : List CollectedAlias) × (a : CollectedAlias) × (after : List CollectedAlias) × (aliases
      ≡ before ++ a ∷ after)
    × (alias_key a ≡ key)
    × All (λ b. alias_key b ≢ key) before
    × All (λ b. alias_key b ≢ key) after

-- An alias row that is stored as SAFE stands alone: no other alias of its type has its words.
abbrev pub StandsAlone : Document → AliasRow → Type 0
StandsAlone document r =
    HasOne (r.entity_type, r.alias_normalized) (collected_aliases document)
    × (r.collision_count ≡ 1)

collision_count-none :
    (t : String) (w : Text) (aliases : List CollectedAlias)
    → collision_count t w aliases ≡ 0
    → All (λ b. alias_key b ≢ (t, w)) aliases
unfolding collision_count
collision_count-none t w [] h = tt
collision_count-none t w (b ∷ aliases) h =
    elim (Bool-cases (t == b.entity_type && w == b.alias_normalized)) [
      | inl hit ↦ absurd (ground (arith, h, hit))
      | inr miss ↦ (
        λ e.
            ground
              (arith, miss, ap (λ (k : String × Text). k.0) e, ap (λ (k : String × Text). k.1) e),
        collision_count-none t w aliases (ground (arith, h, miss)),
      )
    ]

key_hit :
    (t : String) (w : Text) (b : CollectedAlias)
    → (t == b.entity_type && w == b.alias_normalized) ≡ true
    → alias_key b ≡ (t, w)
key_hit t w b h = elim (==-cases t b.entity_type) [
  | inr n ↦ absurd (ground (arith, n, h))
  | inl (e, p) ↦ elim (==-cases w b.alias_normalized) [
    | inr n ↦ absurd (ground (arith, n, h))
    | inl (f, q) ↦ rw (e, f) refl
  ]
]

collision_count-HasOne :
    (t : String) (w : Text) (aliases : List CollectedAlias)
    → collision_count t w aliases ≡ 1
    → HasOne (t, w) aliases
unfolding collision_count
collision_count-HasOne t w [] h = absurd (ground (arith, h))
collision_count-HasOne t w (b ∷ aliases) h =
    elim (Bool-cases (t == b.entity_type && w == b.alias_normalized)) [
      | inl hit ↦ (
        [],
        b,
        aliases,
        refl,
        key_hit t w b hit,
        tt,
        collision_count-none t w aliases (ground (arith, h, hit)),
      )
      | inr miss ↦
          let (before, a, after, e, k, none_before, none_after) =
            collision_count-HasOne t w aliases (ground (arith, h, miss)) in
          (
            b ∷ before,
            a,
            after,
            ap (λ (xs : List CollectedAlias). b ∷ xs) e,
            k,
            (
              λ e. ground (
                arith,
                miss,
                ap (λ (k : String × Text). k.0) e,
                ap (λ (k : String × Text). k.1) e,
              ),
              none_before,
            ),
            none_after,
          )
    ]

among_map :
    {A B : Type 0} (f : A → B) (y : B) (xs : List A)
    → Among y (map f xs)
    → (x : A) × (Among x xs) × (y ≡ f x)
among_map f y [] m = absurd m
among_map f y (x ∷ xs) (inl e) = (x, inl refl, e)
among_map f y (x ∷ xs) (inr m) = let (z, there, e) = among_map f y xs m in (z, inr there, e)

ambiguous_not_safe : codes "AMBIGUOUS" ≡ codes "SAFE" → ⊥
unfolding codes
ambiguous_not_safe e = ground arith

alias_row-alone :
    (aliases : List CollectedAlias) (a : CollectedAlias)
    → Among a aliases
    → (alias_row aliases a).safety ≡ codes "SAFE"
    → collision_count a.entity_type a.alias_normalized aliases ≡ 1
unfolding alias_row
alias_row-alone aliases a m safe =
    elim (Bool-cases (ltb 1 (collision_count a.entity_type a.alias_normalized aliases))) [
      | inl many ↦ absurd (ambiguous_not_safe (rw (many, alias_row) at safe))
      | inr few ↦ ground (arith, few, collision_count_pos a aliases m)
    ]

-- An alias that is stored as SAFE is the only alias of the entities of its type with its words:
-- among the aliases of the document one has the type and the words of its row, and no other has
-- them, before it or behind it. Its collision count is 1.
pub alias_rows-StandsAlone :
    (document : Document) (r : AliasRow)
    → Among r (alias_rows document)
    → r.safety ≡ codes "SAFE"
    → StandsAlone document r
unfolding alias_rows alias_row
alias_rows-StandsAlone document r m safe =
    let (a, there, e) =
      among_map (alias_row (collected_aliases document)) r (collected_aliases document) m in
    let alone =
      alias_row-alone (collected_aliases document) a there
        (ap (λ (x : AliasRow). x.safety) (sym e) ∙ safe) in
    (
      collision_count-HasOne r.entity_type r.alias_normalized (collected_aliases document)
          (rw e alone),
      rw e alone,
    )
