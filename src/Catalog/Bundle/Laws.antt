-- ===== src/Catalog/Bundle/Laws.antt =====
-- A bundle that was built from a document is indexed by the ids of its entries.
use role_model_helper_v.Prelude.{String, ◌≡◌, refl, some, List, [], ◌∷◌, All, arith, string_eq}
use role_model_helper_v.Prelude.Dict
use role_model_helper_v.Prelude.Dict.{Dict}
use role_model_helper_v.Catalog.Bundle.{
  System, Profile, ProfileEntry, Document, CatalogBundle, index_systems, index_profiles,
  from_mapping, profile_of,
}

pub record IsIndexed (b : CatalogBundle) : Type 0 where
  pub systems : (k : String) (s : System) → Dict.get b.systems k ≡ some s → s.id ≡ k
  pub profiles : (k : String) (p : Profile) → Dict.get b.profiles k ≡ some p → p.id ≡ k

index_systems-indexed :
    (d : Dict String System) (systems : List System)
    → ((k : String) (s : System) → Dict.get d k ≡ some s → s.id ≡ k)
    → (k : String) (s : System) → Dict.get (index_systems d systems) k ≡ some s
    → s.id ≡ k
unfolding index_systems
index_systems-indexed d [] h k s e = h k s e
index_systems-indexed d (t ∷ systems) h k s e =
    index_systems-indexed (Dict.insert t.id t d) systems
      (λ j u q. ground (arith, Dict.get-insert d t.id j t, h j u)) k s e

index_profiles-indexed :
    (d : Dict String Profile) (profiles : List ProfileEntry)
    → ((k : String) (p : Profile) → Dict.get d k ≡ some p → p.id ≡ k)
    → (k : String) (p : Profile) → Dict.get (index_profiles d profiles) k ≡ some p
    → p.id ≡ k
unfolding index_profiles
index_profiles-indexed d [] h k p e = h k p e
index_profiles-indexed d (raw ∷ profiles) h k p e =
    index_profiles-indexed (Dict.insert (profile_of raw).id (profile_of raw) d) profiles
      (λ j u q. ground (arith, Dict.get-insert d (profile_of raw).id j (profile_of raw), h j u)) k p
      e

-- In a bundle that `from_mapping` built, the entry found under an id is an entry with that id.
pub from_mapping-IsIndexed : (payload : Document) → IsIndexed (from_mapping payload)
unfolding from_mapping Dict.get
from_mapping-IsIndexed payload = record {
  systems = index_systems-indexed [] payload.systems (λ k s e. cc);
  profiles = index_profiles-indexed [] payload.profiles (λ k p e. cc);
}

abbrev Keyed : Dict String System → Type 0
Keyed = All (λ ((k, s) : String × System). s.id ≡ k)

insert-Keyed : (s : System) (d : Dict String System) → Keyed d → Keyed (Dict.insert s.id s d)
unfolding Dict.insert
insert-Keyed s [] h = (refl, tt)
insert-Keyed s ((j, t) ∷ d) (p, h) = ground (arith, p, h, insert-Keyed s d h)

index_systems-Keyed :
    (d : Dict String System) (systems : List System) → Keyed d → Keyed (index_systems d systems)
unfolding index_systems
index_systems-Keyed d [] h = h
index_systems-Keyed d (s ∷ systems) h =
    index_systems-Keyed (Dict.insert s.id s d) systems (insert-Keyed s d h)

-- The id of an entry is a key.
abbrev pub IsKnown : Dict String System → System → Type 0
IsKnown d s = (t : System) × (Dict.get d s.id ≡ some t)

IsKnown-cons :
    (j : String) (w : System) (d : Dict String System) (ss : List System)
    → All (IsKnown d) ss
    → All (IsKnown ((j, w) ∷ d)) ss
unfolding Dict.get
IsKnown-cons j w d [] h = tt
IsKnown-cons j w d (s ∷ ss) ((t, e), h) = (
  elim (string_eq.dec s.id j) [ yes p ↦ (w, ground (arith, p)) | no p ↦ (t, ground (arith, p, e)) ],
  IsKnown-cons j w d ss h,
)

Keyed-IsKnown : (d : Dict String System) → Keyed d → All (IsKnown d) (Dict.values d)
unfolding Dict.values Dict.get
Keyed-IsKnown [] h = tt
Keyed-IsKnown ((j, w) ∷ d) (p, h) =
    ((w, ground (arith, p)), IsKnown-cons j w d (Dict.values d) (Keyed-IsKnown d h))

pub index_systems-IsKnown :
    (systems : List System)
    → All (IsKnown (index_systems [] systems)) (Dict.values (index_systems [] systems))
index_systems-IsKnown systems =
    Keyed-IsKnown (index_systems [] systems) (index_systems-Keyed [] systems tt)
