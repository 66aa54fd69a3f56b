-- ===== src/Catalog/Snapshot/Access/Laws.antt =====
-- What the loop over `accesses_raw` makes: every role that a profile is granted is a role of the
-- system under which it is granted.
use role_model_helper_v.Prelude.{
  ℕ, ◌≡◌, refl, String, true, some, List, [], ◌∷◌, ◌++◌, Bool-cases, Option-cases, inl, inr, nat_eq,
  string_eq, all, map, All, all_mono, All_mono, arith,
}
use role_model_helper_v.Prelude.Dict
use role_model_helper_v.Prelude.Dict.{Dict}
use role_model_helper_v.Prelude.Dict.Laws.{insert-All, get_or-All}
use mathlib.Core.Option.{some-injective}
use role_model_helper_v.Catalog.Bundle.{Role, System}
use role_model_helper_v.Catalog.Validation.Owners.{holds_role}
use role_model_helper_v.Catalog.Snapshot.Rows.{AccessRow}
use role_model_helper_v.Catalog.Snapshot.Rows.Laws.{all-append_new}
use role_model_helper_v.Catalog.Snapshot.Access.{
  Accesses, has_role, has_system, with_role, add_role, grant, add_access, add_accesses,
}

contains-append_last : (xs : List Role) (r : Role) → has_role r.id (xs ++ r ∷ []) ≡ true
contains-append_last [] r = ground arith
contains-append_last (x ∷ xs) r = ground (arith, contains-append_last xs r)

contains-append :
    (xs : List Role) (r : Role) (id : String)
    → has_role id xs ≡ true
    → has_role id (xs ++ r ∷ []) ≡ true
contains-append [] r id h = cc
contains-append (x ∷ xs) r id h = ground (arith, contains-append xs r id)

with_role-has_role : (r : Role) (s : System) → has_role r.id (with_role r s).roles ≡ true
unfolding with_role
with_role-has_role r s = elim (Bool-cases (has_role r.id s.roles)) [
  | inl old ↦ rw old old
  | inr new ↦ rw new (contains-append_last s.roles r)
]

with_role-keeps :
    (r : Role) (s : System) (id : String)
    → has_role id s.roles ≡ true
    → has_role id (with_role r s).roles ≡ true
unfolding with_role
with_role-keeps r s id h = elim (Bool-cases (has_role r.id s.roles)) [
  | inl old ↦ rw old h
  | inr new ↦ rw new (contains-append s.roles r id h)
]

with_role-id : (r : Role) (s : System) → (with_role r s).id ≡ s.id
unfolding with_role
with_role-id r s = ground arith

-- Adding a role keeps the ids of the systems, in their order.
pub add_role-ids :
    (sid : String) (r : Role) (ss : List System)
    → map (λ (s : System). s.id) (add_role sid r ss) ≡ map (λ (s : System). s.id) ss
unfolding add_role
add_role-ids sid r [] = refl
add_role-ids sid r (s ∷ ss) = ground (arith, with_role-id r s, add_role-ids sid r ss)

add_role-holds_role :
    (sid : String) (r : Role) (ss : List System)
    → has_system sid ss ≡ true
    → holds_role sid r.id (add_role sid r ss) ≡ true
unfolding add_role
add_role-holds_role sid r [] h = cc
add_role-holds_role sid r (s ∷ ss) h =
    ground (arith, with_role-id r s, with_role-has_role r s, add_role-holds_role sid r ss)

add_role-keeps :
    (sid : String) (r : Role) (ss : List System) (tid id : String)
    → holds_role tid id ss ≡ true
    → holds_role tid id (add_role sid r ss) ≡ true
unfolding add_role
add_role-keeps sid r [] tid id h = cc
add_role-keeps sid r (s ∷ ss) tid id h =
    ground (arith, with_role-id r s, with_role-keeps r s id, add_role-keeps sid r ss tid id)

-- A system that is granted is there and has the granted roles.
abbrev pub Granted : List System → String → List String → Type 0
Granted ss sid ids = (has_system sid ss ≡ true) × (all (λ id. holds_role sid id ss) ids ≡ true)

abbrev pub AllGranted : List System → Dict String (List String) → Type 0
AllGranted ss = All (λ b. Granted ss b.0 b.1)

abbrev pub IsGranted : List System → Dict ℕ (Dict String (List String)) → Type 0
IsGranted ss = All (λ b. AllGranted ss b.1)

module _ (sid : String) (r : Role) (ss : List System) where
  Granted-mono :
      (tid : String) (ids : List String) → Granted ss tid ids → Granted (add_role sid r ss) tid ids
  Granted-mono tid ids (there, held) = (
    rw (add_role-ids sid r ss) there,
    all_mono (λ id. holds_role tid id ss) (λ id. holds_role tid id (add_role sid r ss)) ids
        (λ id. add_role-keeps sid r ss tid id) held,
  )

  IsGranted-mono :
      (d : Dict ℕ (Dict String (List String))) → IsGranted ss d → IsGranted (add_role sid r ss) d
  IsGranted-mono d = All_mono _ _ d λ b.
      All_mono (λ (c : String × List String). Granted ss c.0 c.1) _ b.1 λ c. Granted-mono c.0 c.1

grant-IsGranted :
    (ss : List System) (pid : ℕ) (sid id : String) (d : Dict ℕ (Dict String (List String)))
    → has_system sid ss ≡ true
    → holds_role sid id ss ≡ true
    → IsGranted ss d
    → IsGranted ss (grant pid sid id d)
unfolding grant
grant-IsGranted ss pid sid id d there held h =
    let granted : AllGranted ss (Dict.get_or d pid []) =
      get_or-All (λ _ v. AllGranted ss v) d pid [] h tt in
    let before : Granted ss sid (Dict.get_or (Dict.get_or d pid []) sid []) =
      get_or-All (Granted ss) (Dict.get_or d pid []) sid [] granted (there, refl) in
    insert-All (λ _ v. AllGranted ss v) d pid _ h
      (insert-All (Granted ss) (Dict.get_or d pid []) sid _ granted
        (there, all-append_new (λ id'. holds_role sid id' ss) _ id before.1 held))

-- The ids that the rows are given are ids of the systems.
abbrev pub IdsKnown : Dict ℕ String → List System → Type 0
IdsKnown ids ss = All (λ b. has_system b.1 ss ≡ true) ids

IdsKnown-add_role :
    (ids : Dict ℕ String) (sid : String) (r : Role) (ss : List System)
    → IdsKnown ids ss
    → IdsKnown ids (add_role sid r ss)
IdsKnown-add_role ids sid r ss = All_mono _ _ ids λ b there. rw (add_role-ids sid r ss) there

IdsKnown-add_access :
    (ids : Dict ℕ String) (sid : String) (row : AccessRow) (made : Accesses)
    → IdsKnown ids made.systems
    → IdsKnown ids (add_access sid row made).systems
unfolding add_access
IdsKnown-add_access ids sid row made = IdsKnown-add_role ids sid _ made.systems

add_access-IsGranted :
    (sid : String) (row : AccessRow) (made : Accesses)
    → has_system sid made.systems ≡ true
    → IsGranted made.systems made.by_profile
    → IsGranted (add_access sid row made).systems (add_access sid row made).by_profile
unfolding add_access
add_access-IsGranted sid row made there h =
    grant-IsGranted _ row.profile_id sid _ made.by_profile
      (rw (add_role-ids sid _ made.systems) there) (add_role-holds_role sid _ made.systems there)
      (IsGranted-mono sid _ made.systems made.by_profile h)

pub add_accesses-IsGranted :
    (ids : Dict ℕ String) (made : Accesses) (rows : List AccessRow) {out : Accesses}
    → IdsKnown ids made.systems
    → IsGranted made.systems made.by_profile
    → add_accesses ids made rows ≡ some out
    → IsGranted out.systems out.by_profile
unfolding add_accesses
add_accesses-IsGranted ids made [] known h e = rw (← some-injective _ _ e) h
add_accesses-IsGranted ids made (row ∷ rows) {out} known h e =
    elim (Option-cases (Dict.get ids row.system_id)) [
      | inl missing ↦ cc (rw (missing, add_accesses) at e)
      | inr (sid, found) ↦
          let there =
            Dict.get-All (λ id. has_system id made.systems ≡ true) ids row.system_id known found in
          add_accesses-IsGranted ids (add_access sid row made) rows
            (IdsKnown-add_access ids sid row made known) (add_access-IsGranted sid row made there h)
            (rw (found, add_accesses) at e)
    ]
