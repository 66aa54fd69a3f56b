-- ===== src/Catalog/Validation/Laws.antt =====
-- What the validation of a document guarantees to those that use its bundle.
use role_model_helper_v.Prelude.{
  String, Bool, true, ◌≡◌, refl, ◌≢◌, inl, inr, none, some, List, [], ◌∷◌, map, all, contains, All,
  arith, Option-cases, string_eq,
}
use role_model_helper_v.Prelude.Dict
use role_model_helper_v.Prelude.Dict.{Dict}
use role_model_helper_v.Text.{strip}
use role_model_helper_v.Catalog.Bundle.{
  System, Access, Instruction, DepartmentEntry, PositionEntry, ProfileEntry, Document, or_empty,
  index_systems, from_mapping,
}
use role_model_helper_v.Catalog.Validation.{
  unique_from, instruction_item, role_owners, access_fits, profile_fits, entries_fit,
  references_fit, validate_catalog,
}

-- The document passed each group of tests, and only its version is changed.
pub record IsValidated (d d' : Document) (owners : Dict String String) : Type 0 where
  pub same : d' ≡ record d { version = strip d.version }
  pub entries : entries_fit d ≡ true
  pub roles : role_owners d.systems [] ≡ some owners
  pub references : references_fit d owners ≡ true

validate_catalog-IsValidated :
    (d d' : Document)
    → validate_catalog d ≡ some d'
    → (owners : Dict String String) × IsValidated d d' owners
unfolding validate_catalog
validate_catalog-IsValidated d d' h = elim (Option-cases (role_owners d.systems [])) [
  | inl none_made ↦ absurd (ground (arith, none_made))
  | inr (owners, made) ↦ (
    owners,
    record {
      same = ground (arith, made);
      entries = ground (arith, made);
      roles = made;
      references = ground (arith, made);
    },
  )
]

strip_empty : strip "" ≡ ""
unfolding strip
strip_empty = refl

unique_from-titles :
    (seen : List String) (is : List Instruction)
    → unique_from seen (map instruction_item is) ≡ true
    → All (λ (i : Instruction). (t : String) × (i.title ≡ some t)) is
unfolding unique_from
unique_from-titles seen [] h = tt
unique_from-titles seen (i ∷ is) h = (
  elim (Option-cases i.title) [
    | inr titled ↦ titled
    | inl untitled ↦ absurd (ground (arith, untitled, strip_empty))
  ],
  unique_from-titles (strip i.id ∷ seen) is (ground arith),
)

-- Every instruction of a validated document has a title.
pub validate_catalog-titles :
    (d d' : Document)
    → validate_catalog d ≡ some d'
    → All (λ (i : Instruction). (t : String) × (i.title ≡ some t)) d'.instructions
unfolding entries_fit
validate_catalog-titles d d' h =
    let (owners, v) = validate_catalog-IsValidated d d' h in
    rw v.same (unique_from-titles [] d.instructions (ground (arith, v.entries)))

index_systems-keeps :
    (d : Dict String System) (systems : List System) (id : String)
    → Dict.get d id ≢ none
    → Dict.get (index_systems d systems) id ≢ none
unfolding index_systems
index_systems-keeps d [] id h = h
index_systems-keeps d (s ∷ systems) id h =
    index_systems-keeps (Dict.insert s.id s d) systems id
      (λ q. ground (arith, q, Dict.get-insert d s.id id s, h))

abbrev id_of : System → String
id_of s = s.id

index_systems-contains :
    (d : Dict String System) (systems : List System) (id : String)
    → contains (map id_of systems) id ≡ true
    → Dict.get (index_systems d systems) id ≢ none
unfolding index_systems
index_systems-contains d [] id h = absurd (ground arith)
index_systems-contains d (s ∷ systems) id h = elim (string_eq.dec id s.id) [
  | yes e ↦
      index_systems-keeps (Dict.insert s.id s d) systems id
        (λ q. ground (arith, q, e, Dict.get-insert d s.id id s))
  | no e ↦ index_systems-contains (Dict.insert s.id s d) systems id (ground (arith, e))
]

-- A system of the bundle that the document makes.
abbrev pub HasSystem : Document → String → Type 0
HasSystem d id = (s : System) × (Dict.get (from_mapping d).systems id ≡ some s)

contains-HasSystem :
    (d : Document) (id : String) → contains (map id_of d.systems) id ≡ true → HasSystem d id
unfolding from_mapping
contains-HasSystem d id h = elim (Option-cases (Dict.get (index_systems [] d.systems) id)) [
  | inl gone ↦ absurd (index_systems-contains [] d.systems id h gone)
  | inr there ↦ there
]

all-All :
    {A : Type 0} (P : A → Type 0) (p : A → Bool) (xs : List A)
    → ((x : A) → p x ≡ true → P x)
    → all p xs ≡ true
    → All P xs
all-All P p [] f h = tt
all-All P p (x ∷ xs) f h = (f x (ground arith), all-All P p xs f (ground arith))

abbrev pub AccessKnown : Document → ProfileEntry → Type 0
AccessKnown d p = All (λ (a : Access). HasSystem d a.system_id) p.access

profile_fits-AccessKnown :
    (d : Document) (departments positions : List String) (owners : Dict String String)
    (p : ProfileEntry)
    → profile_fits departments positions (map id_of d.systems) owners p ≡ true
    → AccessKnown d p
unfolding profile_fits access_fits
profile_fits-AccessKnown d departments positions owners p h =
    all-All (λ (a : Access). HasSystem d a.system_id) (access_fits (map id_of d.systems) owners)
      p.access (λ a k. contains-HasSystem d a.system_id (ground arith)) (ground arith)

references_fit-known :
    (d : Document) (owners : Dict String String)
    → references_fit d owners ≡ true
    → All (AccessKnown d) d.profiles
      × All (λ (i : Instruction). HasSystem d (or_empty i.system_id)) d.instructions
unfolding references_fit
references_fit-known d owners h = (
  all-All (AccessKnown d)
      (profile_fits (map (λ (e : DepartmentEntry). e.id) d.departments)
        (map (λ (e : PositionEntry). e.id) d.positions) (map id_of d.systems) owners)
      d.profiles (λ p k. profile_fits-AccessKnown d _ _ owners p k) (ground arith),
  all-All (λ (i : Instruction). HasSystem d (or_empty i.system_id))
      (λ (i : Instruction). contains (map id_of d.systems) (or_empty i.system_id)) d.instructions
      (λ i k. contains-HasSystem d (or_empty i.system_id) k) (ground arith),
)

-- In the bundle of a validated document every system that a profile has access to and every system
-- that an instruction is for is there.
pub validate_catalog-HasSystem :
    (d d' : Document)
    → validate_catalog d ≡ some d'
    → All (AccessKnown d') d'.profiles
      × All (λ (i : Instruction). HasSystem d' (or_empty i.system_id)) d'.instructions
unfolding from_mapping
validate_catalog-HasSystem d d' h =
    let (owners, v) = validate_catalog-IsValidated d d' h in
    rw v.same (references_fit-known d owners v.references)
