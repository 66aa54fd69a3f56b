-- ===== src/Catalog/Validation/Owners.antt =====
-- The systems that the validation gives to the roles: each role of a system is owned by it.
use role_model_helper_v.Prelude.{
  ◌≡◌, String, Bool, true, false, some, List, [], ◌∷◌, ◌==◌, string_eq, map, Option-cases, inl, inr,
  arith, ◌&&◌, ◌||◌, contains,
}
use role_model_helper_v.Prelude.Dict
use role_model_helper_v.Prelude.Dict.{Dict}
use role_model_helper_v.Catalog.Bundle.{Role, System}
use role_model_helper_v.Catalog.Validation.{add_roles, role_owners}

abbrev has_role : String → List Role → Bool
has_role id roles = contains (map (λ (r : Role). r.id) roles) id

-- A system with the id has a role with the id.
abbrev pub holds_role : String → String → List System → Bool
holds_role system_id id [] = false
holds_role system_id id (s ∷ systems) =
    (system_id == s.id && has_role id s.roles) || holds_role system_id id systems

add_roles-keeps :
    (sid : String) (roles : List Role) (owners out : Dict String String) (k v : String)
    → Dict.get owners k ≡ some v
    → add_roles sid roles owners ≡ some out
    → Dict.get out k ≡ some v
unfolding add_roles
add_roles-keeps sid [] owners out k v h e = ground (arith, h, e)
add_roles-keeps sid (r ∷ roles) owners out k v h e = ground (
  arith,
  Dict.get-insert owners r.id k sid,
  add_roles-keeps sid roles (Dict.insert r.id sid owners) out k v,
)

add_roles-owns :
    (sid : String) (roles : List Role) (owners out : Dict String String) (id : String)
    → has_role id roles ≡ true
    → add_roles sid roles owners ≡ some out
    → Dict.get out id ≡ some sid
unfolding add_roles
add_roles-owns sid [] owners out id h e = cc
add_roles-owns sid (r ∷ roles) owners out id h e = ground (
  arith,
  Dict.get-insert owners r.id id sid,
  add_roles-keeps sid roles (Dict.insert r.id sid owners) out id sid,
  add_roles-owns sid roles (Dict.insert r.id sid owners) out id,
)

role_owners-keeps :
    (ss : List System) (owners out : Dict String String) (k v : String)
    → Dict.get owners k ≡ some v
    → role_owners ss owners ≡ some out
    → Dict.get out k ≡ some v
unfolding role_owners
role_owners-keeps [] owners out k v h e = ground (arith, h, e)
role_owners-keeps (s ∷ ss) owners out k v h e =
    elim (Option-cases (add_roles s.id s.roles owners)) [
      | inl twice ↦ absurd (ground (arith, twice))
      | inr (more, added) ↦
          role_owners-keeps ss more out k v (add_roles-keeps s.id s.roles owners more k v h added)
            (ground (arith, added))
    ]

-- A role of a system is owned by that system, where no role is there twice.
pub role_owners-owns :
    (ss : List System) (owners out : Dict String String) (sid id : String)
    → holds_role sid id ss ≡ true
    → role_owners ss owners ≡ some out
    → Dict.get out id ≡ some sid
unfolding role_owners
role_owners-owns [] owners out sid id h e = cc
role_owners-owns (s ∷ ss) owners out sid id h e =
    elim (Option-cases (add_roles s.id s.roles owners)) [
      | inl twice ↦ absurd (ground (arith, twice))
      | inr (more, added) ↦ ground (
        arith,
        added,
        add_roles-owns s.id s.roles owners more id,
        role_owners-keeps ss more out id s.id,
        role_owners-owns ss more out sid id,
      )
    ]
