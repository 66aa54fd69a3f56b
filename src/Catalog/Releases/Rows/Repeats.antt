-- ===== src/Catalog/Releases/Rows/Repeats.antt =====
-- A document whose entity has one alias twice is refused when it is published.
use role_model_helper_v.Prelude.{
  ◌⊎◌, ◌≡◌, refl, ap, ◌∙◌, String, true, Eq, none, List, [], ◌∷◌, ◌++◌, map, contains, ==-cases,
  ==-refl, inl, inr, Among, nat_eq, string_eq, list_eq, pair_eq, arith,
}
use role_model_helper_v.Prelude.Dict
use role_model_helper_v.Text.{Text, codes, strip}
use role_model_helper_v.Catalog.Normalization.{normalize_query}
use role_model_helper_v.Catalog.Bundle.{Alias, System, DepartmentEntry, PositionEntry, Document}
use role_model_helper_v.Catalog.Releases.{Releases, refused, publish}
use role_model_helper_v.Catalog.Releases.Rows.{
  CollectedAlias, collected_alias, collect_aliases, collected_aliases, alias_row, alias_rows,
  has_repeats, alias_keys, keys_collide,
}

module _ {ℓ} {K : Type ℓ} ⦃e : Eq K⦄ where
  contains-append_left :
      (xs ys : List K) (k : K) → contains xs k ≡ true → contains (xs ++ ys) k ≡ true
  contains-append_left [] ys k h = cc
  contains-append_left (x ∷ xs) ys k h = ground (arith, contains-append_left xs ys k)

  has_repeats-append_left : (xs ys : List K) → has_repeats xs ≡ true → has_repeats (xs ++ ys) ≡ true
  unfolding has_repeats
  has_repeats-append_left [] ys h = cc
  has_repeats-append_left (x ∷ xs) ys h =
      ground (arith, contains-append_left xs ys x, has_repeats-append_left xs ys)

  has_repeats-append_right :
      (xs ys : List K) → has_repeats ys ≡ true → has_repeats (xs ++ ys) ≡ true
  unfolding has_repeats
  has_repeats-append_right [] ys h = h
  has_repeats-append_right (x ∷ xs) ys h = ground (arith, has_repeats-append_right xs ys)

module _ {ℓ κ} {K : Type ℓ} {L : Type κ} ⦃e : Eq K⦄ ⦃d : Eq L⦄ (f : K → L) where
  contains-map : (xs : List K) (k : K) → contains xs k ≡ true → contains (map f xs) (f k) ≡ true
  contains-map [] k h = cc
  contains-map (x ∷ xs) k h = elim (==-cases k x) [
    | inl (same, hit) ↦ rw (ap f same, ==-refl (f x))
    | inr miss ↦ ground (arith, contains-map xs k (ground (arith, miss, h)))
  ]

  has_repeats-map : (xs : List K) → has_repeats xs ≡ true → has_repeats (map f xs) ≡ true
  unfolding has_repeats
  has_repeats-map [] h = cc
  has_repeats-map (x ∷ xs) h = ground (arith, contains-map xs x, has_repeats-map xs)

map-append {ℓ κ} :
    {A : Type ℓ} {B : Type κ} (f : A → B) (xs ys : List A) → map f (xs ++ ys) ≡ map f xs ++ map f ys
map-append f [] ys = refl
map-append f (x ∷ xs) ys = ap (λ zs. f x ∷ zs) (map-append f xs ys)

-- The words of an alias, as they are stored.
abbrev pub words_of : Alias → Text
words_of a = normalize_query (codes (strip a.value))

abbrev key_of : CollectedAlias → String × (String × Text)
key_of a = (a.entity_type, (a.entity_id, a.alias_normalized))

alias_keys_of :
    (aliases some_aliases : List CollectedAlias)
    → alias_keys (map (alias_row aliases) some_aliases) ≡ map key_of some_aliases
unfolding alias_row
alias_keys_of aliases [] = refl
alias_keys_of aliases (a ∷ rest) = ap (λ ks. key_of a ∷ ks) (alias_keys_of aliases rest)

keys_of_system :
    (t id : String) (aliases : List Alias)
    → map key_of (map (collected_alias t id) aliases)
      ≡ map (λ w. (t, (id, w))) (map words_of aliases)
unfolding collected_alias
keys_of_system t id [] = refl
keys_of_system t id (a ∷ aliases) =
    ap (λ ks. (t, (id, words_of a)) ∷ ks) (keys_of_system t id aliases)

module _ {A : Type 0} (t : String) (ident : A → String) (aliases : A → List Alias) where
  has_repeats-collect_aliases :
      (entities : List A) (e : A)
      → Among e entities
      → has_repeats (map words_of (aliases e)) ≡ true
      → has_repeats (map key_of (collect_aliases t ident aliases entities)) ≡ true
  unfolding collect_aliases
  has_repeats-collect_aliases [] e m h = absurd m
  has_repeats-collect_aliases (x ∷ entities) e (inl same) h =
      rw
        (
          map-append key_of (map (collected_alias t (ident x)) (aliases x))
              (collect_aliases t ident aliases entities),
          keys_of_system t (ident x) (aliases x),
        )
        (has_repeats-append_left _ _ (
          has_repeats-map (λ (w : Text). (t, (ident x, w))) (map words_of (aliases x))
            (rw (ap aliases same) at h)))
  has_repeats-collect_aliases (x ∷ entities) e (inr m) h =
      rw
        (map-append key_of (map (collected_alias t (ident x)) (aliases x))
          (collect_aliases t ident aliases entities))
        (has_repeats-append_right _ _ (has_repeats-collect_aliases entities e m h))

abbrev collect_departments : Document → List CollectedAlias
collect_departments document =
    collect_aliases "department" (λ (d : DepartmentEntry). d.id)
      (λ (d : DepartmentEntry). d.aliases) document.departments

abbrev collect_positions : Document → List CollectedAlias
collect_positions document =
    collect_aliases "position" (λ (p : PositionEntry). p.id) (λ (p : PositionEntry). p.aliases)
      document.positions

abbrev collect_systems : Document → List CollectedAlias
collect_systems document =
    collect_aliases "system" (λ (x : System). x.id) (λ (x : System). x.aliases) document.systems

split_keys :
    (document : Document)
    → map key_of (collected_aliases document)
      ≡ map key_of (collect_departments document)
        ++ (map key_of (collect_positions document) ++ map key_of (collect_systems document))
unfolding collected_aliases
split_keys document =
    map-append key_of (collect_departments document) _
    ∙ ap (λ ks. map key_of (collect_departments document) ++ ks)
        (map-append key_of (collect_positions document) (collect_systems document))

-- A department, a position or a system has two aliases of the same words.
abbrev pub RepeatsAlias : Document → Type 0
RepeatsAlias document =
    ((d : DepartmentEntry) × Among d document.departments
      × (has_repeats (map words_of d.aliases) ≡ true))
    ⊎ (((p : PositionEntry) × Among p document.positions
          × (has_repeats (map words_of p.aliases) ≡ true))
        ⊎ ((s : System) × Among s document.systems × (has_repeats (map words_of s.aliases) ≡ true)))

repeated_keys :
    (document : Document)
    → RepeatsAlias document
    → has_repeats (
        map key_of (collect_departments document)
        ++ (map key_of (collect_positions document) ++ map key_of (collect_systems document)))
      ≡ true
repeated_keys document (inl (d, m, h)) =
    has_repeats-append_left (map key_of (collect_departments document)) _
      (has_repeats-collect_aliases "department" _ _ document.departments d m h)
repeated_keys document (inr (inl (p, m, h))) =
    has_repeats-append_right (map key_of (collect_departments document)) _ (
      has_repeats-append_left (map key_of (collect_positions document)) _
        (has_repeats-collect_aliases "position" _ _ document.positions p m h))
repeated_keys document (inr (inr (s, m, h))) =
    has_repeats-append_right (map key_of (collect_departments document)) _ (
      has_repeats-append_right (map key_of (collect_positions document)) _
        (has_repeats-collect_aliases "system" _ _ document.systems s m h))

keys_collide_repeated : (document : Document) → RepeatsAlias document → keys_collide document ≡ true
unfolding keys_collide alias_rows collected_aliases
keys_collide_repeated document h =
    let all_keys : has_repeats (map key_of (collected_aliases document)) ≡ true =
      rw (split_keys document) (repeated_keys document h) in
    let repeated : has_repeats
          (alias_keys (map (alias_row (collected_aliases document)) (collected_aliases document)))
        ≡ true =
      rw (alias_keys_of (collected_aliases document) (collected_aliases document)) all_keys in
    ground (arith, repeated)

-- A document of a new version in which a department, a position or a system has two aliases of the
-- same words is refused, with the error that its version exists; nothing is changed.
pub publish_repeated_alias :
    (sha : String) (document : Document) (db : Releases)
    → Dict.get db.releases document.version ≡ none
    → RepeatsAlias document
    → publish sha document db ≡ (refused document.version, db)
unfolding publish
publish_repeated_alias sha document db new h = rw (new, keys_collide_repeated document h, publish)
