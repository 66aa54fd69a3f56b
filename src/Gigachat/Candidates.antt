-- ===== src/Gigachat/Candidates.antt =====
-- `GigaChatHttpPlanner._catalog_candidates` of app/providers/gigachat.py: the few entries of the
-- catalog that the model is shown.
pub mod Laws
use role_model_helper_v.Prelude.{
  ℕ, ◌*◌, String, Bool, any, true, false, ◌&&◌, ◌||◌, Option, none, some, List, [], ◌∷◌, map, take,
  ◌==◌, nat_eq, string_eq, if◌then◌else◌,
}
use Prim.Native.Nat.{Ordering}
use Prim.Native.String.{compare}
use role_model_helper_v.Prelude.Dict
use role_model_helper_v.Prelude.Dict.{Dict}
use role_model_helper_v.Score.{Score, fraction, lt_score, max_score}
use role_model_helper_v.Catalog.Bundle.{System, CatalogBundle}
use role_model_helper_v.Tools.Search.{
  ToolCandidate, search_systems, search_roles, search_roles_raises, search_departments,
  search_positions,
}
use role_model_helper_v.Agent.Models.{TurnRequest}

pub record MatchedRole : Type 0 where
  pub id : String
  pub label : String
  pub access_level : Option ℕ

pub record SystemMatch : Type 0 where
  pub id : String
  pub label : String
  pub score : Score
  pub matched_roles : List MatchedRole

pub record DepartmentMatch : Type 0 where
  pub id : String
  pub label : String
  pub city : Option String
  pub number : Option ℕ
  pub score : Score

pub record PositionMatch : Type 0 where
  pub id : String
  pub label : String
  pub score : Score

pub record Candidates : Type 0 where
  pub systems : List SystemMatch
  pub departments : List DepartmentMatch
  pub positions : List PositionMatch

abbrev pub Matches : Type 0
Matches = Dict String SystemMatch

-- The loop over the systems that the text names.
unfoldable pub direct_matches : Matches → List ToolCandidate → Matches
direct_matches made [] = made
direct_matches made (c ∷ cs) =
    direct_matches
      (Dict.insert c.id (record { id = c.id; label = c.label; score = c.score; matched_roles = [] })
        made)
      cs

abbrev pub matched_role : ToolCandidate → MatchedRole
matched_role c = record { id = c.id; label = c.label; access_level = c.context.access_level }

-- `max(item.score for item in …)`, from a score that has been read
unfoldable pub best_score : Score → List ToolCandidate → Score
unfolding max_score
best_score best [] = best
best_score best (c ∷ cs) = best_score (max_score best c.score) cs

-- The entry of a system whose roles match the text.
unfoldable pub with_roles : SystemMatch → ToolCandidate → List ToolCandidate → SystemMatch
unfolding best_score max_score
with_roles entry c cs = record entry {
  score = max_score entry.score (best_score c.score cs);
  matched_roles = map matched_role (take 3 (c ∷ cs));
}

abbrev pub bare_match : String → System → SystemMatch
bare_match id s = record { id = id; label = s.name; score = fraction 0 1; matched_roles = [] }

-- A search of the roles of some system raises; the other searches raise nothing.
unfoldable pub candidates_raise : TurnRequest → CatalogBundle → Bool
candidates_raise request b =
    any (λ (system : String × System). search_roles_raises b system.0 [] (some request.text) none)
      b.systems

-- One round of the loop over the systems of the bundle, given the roles that matched.
unfoldable pub add_matches : String → System → List ToolCandidate → Matches → Matches
unfolding with_roles
add_matches id s [] made = made
add_matches id s (c ∷ cs) made =
    Dict.insert id (with_roles (Dict.get_or made id (bare_match id s)) c cs) made

unfoldable pub role_matches : CatalogBundle → String → Dict String System → Matches → Matches
unfolding add_matches
role_matches b text [] made = made
role_matches b text ((id, s) ∷ systems) made =
    role_matches b text systems
      (add_matches id s (search_roles b id [] (some text) none 3).candidates made)

-- The system of the state comes with the score 1.0.
unfoldable pub with_state_system : CatalogBundle → String → Matches → Matches
with_state_system b id made = elim (Dict.get b.systems id) [
  | none ↦ made
  | some s ↦
      Dict.insert id
        (record {
          id = id;
          label = s.name;
          score = fraction 1 1;
          matched_roles = elim (Dict.get made id) [ none ↦ [] | some m ↦ m.matched_roles ];
        })
        made
]

-- The order of the sort key `(-score, label, id)`.
unfoldable pub match_before : SystemMatch → SystemMatch → Bool
match_before a b =
    lt_score b.score a.score
    || a.score.num * b.score.den == b.score.num * a.score.den && (elim (compare a.label b.label) [
      | Ordering.lt ↦ true
      | Ordering.gt ↦ false
      | Ordering.eq ↦ elim (compare a.id b.id) [ Ordering.lt ↦ true | _ ↦ false ]
    ])

unfoldable pub insert_match : SystemMatch → List SystemMatch → List SystemMatch
unfolding match_before
insert_match m [] = m ∷ []
insert_match m (n ∷ ns) =
    let rest = insert_match m ns in if match_before n m then n ∷ rest else m ∷ n ∷ ns

-- `sorted(system_matches.values(), key=…)`
unfoldable pub sorted_matches : List SystemMatch → List SystemMatch
unfolding insert_match
sorted_matches [] = []
sorted_matches (m ∷ ms) = insert_match m (sorted_matches ms)

abbrev pub department_match : ToolCandidate → DepartmentMatch
department_match c = record {
  id = c.id;
  label = c.label;
  city = c.context.city;
  number = c.context.number;
  score = c.score;
}

abbrev pub position_match : ToolCandidate → PositionMatch
position_match c = record { id = c.id; label = c.label; score = c.score }

-- `_catalog_candidates`
unfoldable pub catalog_candidates : TurnRequest → CatalogBundle → Candidates
unfolding direct_matches role_matches with_state_system sorted_matches
catalog_candidates request b =
    let direct = direct_matches [] (search_systems b (some request.text) [] 5).candidates in
    let matched = role_matches b request.text b.systems direct in
    let all_systems =
      with_state_system b (Dict.get_or request.state.slots "system_id" "") matched in
    record {
      systems = take 5 (sorted_matches (Dict.values all_systems));
      departments = map department_match (search_departments b request.text none 5).candidates;
      positions = map position_match (search_positions b request.text none none 5).candidates;
    }
