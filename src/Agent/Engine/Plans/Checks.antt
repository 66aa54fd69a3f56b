-- ===== src/Agent/Engine/Plans/Checks.antt =====
-- The checks that a plan passes before it is answered, and the plans that pass them.
use role_model_helper_v.Prelude.{
  ℕ, ◌≤◌, ◌*◌, String, Bool, true, false, ◌||◌, ◌≡◌, refl, sym, ap, ◌↔◌, ◌⊎◌, inl, inr, none, some,
  List, [], ◌∷◌, arith, Option-cases,
}
use role_model_helper_v.Prelude.{◌==◌, contains, string_eq, All, Among, map, nat_eq, list_eq}
use Prim.Derive.{fst_path}
use role_model_helper_v.Prelude.Dict
use role_model_helper_v.Score.{Score, Float, nan, minus, plus, fraction, in_unit, below}
use role_model_helper_v.Agent.Models.{Plan}
use role_model_helper_v.Agent.Dialogue.Reply.{slot}
use role_model_helper_v.Catalog.Bundle.{Department, System, CatalogBundle}
use role_model_helper_v.Text.{Text, codes}
use role_model_helper_v.Agent.Phrases.{normalize}
use role_model_helper_v.Agent.Engine.{
  is_allowed_action, is_well_formed, allowed_slot_keys, has_allowed_keys, knows_facts, knows_system,
  knows_city, knows_department, refusal,
}

abbrev pub allowed_pairs : List (String × String)
allowed_pairs =
    ("ROLE_DISCOVERY", "SEARCH_ROLES")
    ∷ ("SYSTEM_DISCOVERY", "SEARCH_SYSTEMS")
    ∷ ("ROLE_ACQUISITION", "GET_INSTRUCTION")
    ∷ ("INSTRUCTION_LOOKUP", "GET_INSTRUCTION")
    ∷ []

-- The plans that are answered.
pub record IsAcceptable (b : CatalogBundle) (plan : Plan) : Type 0 where
  pub action : Among {A = String × String} (plan.intent, plan.action) allowed_pairs
  pub keys : All (λ ((key, value) : String × String). Among key allowed_slot_keys) plan.slots
  pub confidence :
      (c : Score) × (plan.confidence ≡ plus c) × (55 * c.den ≤ c.num * 100) × (c.num ≤ c.den)
  pub version : plan.catalog_version ≡ b.version
  pub system :
      (slot plan.slots "system_id" ≡ "")
      ⊎ ((s : System) × (Dict.get b.systems (slot plan.slots "system_id") ≡ some s))
  pub city :
      (slot plan.slots "city" ≡ "")
      ⊎ ((d : Department) × Among d b.departments
          × (normalize (codes d.city) ≡ normalize (codes (slot plan.slots "city"))))
  pub department :
      (slot plan.slots "department" ≡ "")
      ⊎ ((d : Department) × Among d b.departments
          × (normalize (codes d.name) ≡ normalize (codes (slot plan.slots "department"))))

-- What the checks decide, one by one.
refusal-checks :
    (b : CatalogBundle) (plan : Plan)
    → refusal b plan ≡ none
    → (is_allowed_action plan.intent plan.action ≡ true)
      × (has_allowed_keys plan.slots ≡ true)
      × (in_unit plan.confidence ≡ true)
      × (below plan.confidence (fraction 55 100) ≡ false)
      × (plan.catalog_version ≡ b.version)
      × (knows_facts b plan.slots ≡ true)
unfolding refusal is_well_formed
refusal-checks b plan h = ground arith

is_allowed_action-Among :
    (intent action : String)
    → is_allowed_action intent action ≡ true
    → Among {A = String × String} (intent, action) allowed_pairs
unfolding is_allowed_action
is_allowed_action-Among intent action h = ground arith

has_allowed_keys-All :
    (slots : Dict.Dict String String)
    → has_allowed_keys slots ≡ true
    → All (λ ((key, value) : String × String). Among key allowed_slot_keys) slots
has_allowed_keys-All [] h = tt
has_allowed_keys-All ((k, v) ∷ slots) h = ground (arith, has_allowed_keys-All slots)

confidence-bounds :
    (c : Float)
    → in_unit c ≡ true
    → below c (fraction 55 100) ≡ false
    → (s : Score) × (c ≡ plus s) × (55 * s.den ≤ s.num * 100) × (s.num ≤ s.den)
unfolding in_unit below
confidence-bounds nan h l = absurd (ground arith)
confidence-bounds (minus s) h l = absurd (ground arith)
confidence-bounds (plus s) h l = (s, refl, ground arith, ground arith)

contains-map :
    (f : Department → Text) (ds : List Department) (t : Text)
    → contains (map f ds) t ≡ true
    → (d : Department) × Among d ds × (f d ≡ t)
contains-map f [] t h = absurd (ground arith)
contains-map f (d ∷ ds) t h = elim ((list_eq {A = ℕ}).dec t (f d)) [
  | yes e ↦ (d, inl refl, sym e)
  | no e ↦ let (x, m, p) = contains-map f ds t (ground (arith, e)) in (x, inr m, p)
]

known :
    (b : CatalogBundle) (slots : Dict.Dict String String)
    → knows_facts b slots ≡ true
    → ((slot slots "system_id" ≡ "") ⊎ (knows_system b (slot slots "system_id") ≡ true))
      × ((slot slots "city" ≡ "") ⊎ (knows_city b (slot slots "city") ≡ true))
      × ((slot slots "department" ≡ "") ⊎ (knows_department b (slot slots "department") ≡ true))
unfolding knows_facts
known b slots h = ground arith

known_system :
    (b : CatalogBundle) (id : String)
    → knows_system b id ≡ true
    → (s : System) × (Dict.get b.systems id ≡ some s)
unfolding knows_system
known_system b id h = elim (Option-cases (Dict.get b.systems id)) [
  | inl missing ↦ absurd (ground (arith, missing))
  | inr there ↦ there
]

pub refusal-IsAcceptable :
    (b : CatalogBundle) (plan : Plan) → refusal b plan ≡ none → IsAcceptable b plan
unfolding knows_city knows_department
refusal-IsAcceptable b plan h =
    let (action, keys, unit, low, version, facts) = refusal-checks b plan h in
    let (system, city, department) = known b plan.slots facts in
    record {
      action = is_allowed_action-Among plan.intent plan.action action;
      keys = has_allowed_keys-All plan.slots keys;
      confidence = confidence-bounds plan.confidence unit low;
      version = version;
      system = elim system [ inl e ↦ inl e | inr k ↦ inr (known_system b _ k) ];
      city = elim city [
        | inl e ↦ inl e
        | inr k ↦ inr (contains-map (λ (d : Department). normalize (codes d.city)) _ _ k)
      ];
      department = elim department [
        | inl e ↦ inl e
        | inr k ↦ inr (contains-map (λ (d : Department). normalize (codes d.name)) _ _ k)
      ];
    }

map-contains :
    (f : Department → Text) (ds : List Department) (d : Department) (t : Text)
    → Among d ds
    → f d ≡ t
    → contains (map f ds) t ≡ true
map-contains f [] d t m e = absurd m
map-contains f (d' ∷ ds) d t (inl same) e = ground (arith, same, ap f same, e)
map-contains f (d' ∷ ds) d t (inr m) e = ground (arith, map-contains f ds d t m e)

Among-is_allowed_action :
    (intent action : String)
    → Among {A = String × String} (intent, action) allowed_pairs
    → is_allowed_action intent action ≡ true
unfolding is_allowed_action string_eq
Among-is_allowed_action intent action (inl p) =
    rw (fst_path p, ap (λ (x : String × String). x.1) p) refl
Among-is_allowed_action intent action (inr (inl p)) =
    rw (fst_path p, ap (λ (x : String × String). x.1) p) refl
Among-is_allowed_action intent action (inr (inr (inl p))) =
    rw (fst_path p, ap (λ (x : String × String). x.1) p) refl
Among-is_allowed_action intent action (inr (inr (inr (inl p)))) =
    rw (fst_path p, ap (λ (x : String × String). x.1) p) refl
Among-is_allowed_action intent action (inr (inr (inr (inr none_left)))) = absurd none_left

All-has_allowed_keys :
    (slots : Dict.Dict String String)
    → All (λ ((key, value) : String × String). Among key allowed_slot_keys) slots
    → has_allowed_keys slots ≡ true
All-has_allowed_keys [] h = refl
All-has_allowed_keys ((k, v) ∷ slots) (p, h) = ground (arith, p, All-has_allowed_keys slots h)

bounds-confidence :
    (c : Float) (s : Score)
    → c ≡ plus s
    → 55 * s.den ≤ s.num * 100
    → s.num ≤ s.den
    → (in_unit c ≡ true) × (below c (fraction 55 100) ≡ false)
unfolding in_unit below
bounds-confidence c s e low high = rw e (ground arith)

empty_or : (x : String) (k : Bool) → (x ≡ "") ⊎ (k ≡ true) → (x == "" || k) ≡ true
empty_or x k (inl e) = ground arith
empty_or x k (inr e) = ground arith

IsAcceptable-knows_facts :
    (b : CatalogBundle) (plan : Plan) → IsAcceptable b plan → knows_facts b plan.slots ≡ true
unfolding knows_facts knows_system knows_city knows_department
IsAcceptable-knows_facts b plan a = ground (
  arith,
  empty_or (slot plan.slots "system_id") (knows_system b (slot plan.slots "system_id"))
      (elim a.system [ inl e ↦ inl e | inr (s, there) ↦ inr (rw (there, knows_system) refl) ]),
  empty_or (slot plan.slots "city") (knows_city b (slot plan.slots "city")) (elim a.city [
    | inl e ↦ inl e
    | inr (d, m, e) ↦ inr (map-contains (λ (d : Department). normalize (codes d.city)) _ d _ m e)
  ]),
  empty_or (slot plan.slots "department") (knows_department b (slot plan.slots "department"))
      (elim a.department [
        | inl e ↦ inl e
        | inr (d, m, e) ↦
            inr (map-contains (λ (d : Department). normalize (codes d.name)) _ d _ m e)
      ]),
)

IsAcceptable-refusal :
    (b : CatalogBundle) (plan : Plan) → IsAcceptable b plan → refusal b plan ≡ none
unfolding refusal is_well_formed
IsAcceptable-refusal b plan a =
    let (c, e, low, high) = a.confidence in
    ground (
      arith,
      a,
      Among-is_allowed_action plan.intent plan.action a.action,
      All-has_allowed_keys plan.slots a.keys,
      bounds-confidence plan.confidence c e low high,
      IsAcceptable-knows_facts b plan a,
    )

-- A plan passes the checks exactly if it is acceptable: an intent with its action, no slots but
-- the three, a confidence between 0.55 and 1, the version of the bundle, and a system, a city and
-- a department of the bundle where it names them.
pub refusal-none : (b : CatalogBundle) (plan : Plan) → (refusal b plan ≡ none) ↔ IsAcceptable b plan
refusal-none b plan = (refusal-IsAcceptable b plan, IsAcceptable-refusal b plan)
