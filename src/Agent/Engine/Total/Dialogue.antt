-- ===== src/Agent/Engine/Total/Dialogue.antt =====
-- The other handlers of the deterministic path raise nothing on such a bundle.
use role_model_helper_v.Prelude.{
  String, ◌≡◌, refl, ◌≢◌, ◌⊎◌, inl, inr, Bool, false, Option, none, some, List, [], ◌∷◌, ◌++◌, map,
  arith, Among, Among-All, if-holds, Option-cases, string_eq,
}
use role_model_helper_v.Prelude.Dict
use role_model_helper_v.Prelude.Dict.{Dict}
use role_model_helper_v.Tools.Rank.{safe, safety_of}
use role_model_helper_v.Score.{Score}
use role_model_helper_v.Text.{Text}
use role_model_helper_v.Agent.Models.{Candidate, PendingQuestion, TurnState, TurnRequest}
use role_model_helper_v.Agent.Matches.{
  Weak, Hit, sure, maybe, no_hit, match_aliases, match_systems, system_matches,
}
use role_model_helper_v.Agent.Dialogue.Reply.{slot, candidate_clarification}
use role_model_helper_v.Agent.Dialogue.Slot.{
  Canonical, settled, asked, missing, handle_pending_slot, with_value, canonical_value, city_value,
  system_value, from_search, first_id,
}
use role_model_helper_v.Agent.Deterministic.{
  reset_reply, intent_reply, selected_reply, selection_reply, pending_reply, system_reply,
  match_reply, deterministic_reply,
}
use role_model_helper_v.Catalog.Bundle.{Alias, System, CatalogBundle}
use role_model_helper_v.Tools.Search.{
  ToolCandidate, ToolResult, found, search_departments, search_positions,
}
use role_model_helper_v.Tools.Search.Laws.{IsMatched, result-IsMatched}
use role_model_helper_v.Agent.Engine.Total.{
  IsComplete, is_raised, Fine, roles_answer-some, instruction_answer-some, respond_with-Fine,
  or_else-Fine, finish_profile_access-Fine, organization_request-Fine,
}

abbrev settles : Canonical → Bool
settles (asked h) = is_raised h
settles (settled key value) = false
settles missing = false

abbrev Sound : Canonical → Type 0
Sound c = settles c ≡ false

city_value-Sound : (b : CatalogBundle) (value : Text) → Sound (city_value b value)
unfolding city_value
city_value-Sound b value = ground arith

system_value-Sound :
    (state : TurnState) (m : Option System × List Weak) → Sound (system_value state m)
unfolding system_value
system_value-Sound state (some s, weak) = refl
system_value-Sound state (none, []) = refl
system_value-Sound state (none, w ∷ weak) = refl

first_id-Sound : (key : String) (cs : List ToolCandidate) → cs ≢ [] → Sound (first_id key cs)
unfolding first_id
first_id-Sound key [] h = absurd (h refl)
first_id-Sound key (c ∷ cs) h = refl

candidates-some : (r : ToolResult) → IsMatched r → r.status ≡ found → r.candidates ≢ []
candidates-some r m e q = let (c, rest, there) = m.1 e in absurd (ground (arith, there))

from_search-Sound :
    (state : TurnState) (topic key message : String) (r : ToolResult)
    → IsMatched r
    → Sound (from_search state topic key message r)
unfolding from_search candidate_clarification
from_search-Sound state topic key message r m =
    ground (
      arith,
      m.0,
      λ (e : r.status ≡ found). first_id-Sound key r.candidates (candidates-some r m e),
    )

canonical_value-Sound :
    (b : CatalogBundle) (request : TurnRequest) (pending : PendingQuestion)
    → Sound (canonical_value b request pending)
unfolding canonical_value search_departments search_positions
canonical_value-Sound b request pending = search (
  if-holds Sound,
  city_value-Sound,
  from_search-Sound request.state,
  system_value-Sound,
  result-IsMatched b,
)

with_value-Fine :
    (b : CatalogBundle) (request : TurnRequest) (pending : PendingQuestion) (c : Canonical)
    → IsComplete b
    → Sound c
    → Fine (with_value b request pending c)
unfolding with_value
with_value-Fine b request pending (asked h) i t = t
with_value-Fine b request pending missing i t = refl
with_value-Fine b request pending (settled key value) i t =
    search (if-holds Fine, finish_profile_access-Fine request.state, i)

handle_pending_slot-Fine :
    (b : CatalogBundle) (request : TurnRequest) (pending : PendingQuestion)
    → IsComplete b
    → Fine (handle_pending_slot b request pending)
unfolding handle_pending_slot
handle_pending_slot-Fine b request pending c =
    with_value-Fine b request pending (canonical_value b request pending) c
      (canonical_value-Sound b request pending)

intent_reply-Fine :
    (b : CatalogBundle) (text : Text) (state : TurnState)
    → IsComplete b
    → Fine (intent_reply b text state)
unfolding intent_reply
intent_reply-Fine b text state c =
    elim (Option-cases (Dict.get b.systems (slot state.slots "system_id"))) [
      | inl out ↦ rw (out, intent_reply) refl
      | inr (s, there) ↦ search (
        if-holds Fine,
        respond_with-Fine,
        roles_answer-some b (slot state.slots "system_id") s c there,
        instruction_answer-some b (slot state.slots "system_id") s c there,
      )
    ]

selected_reply-Fine :
    (b : CatalogBundle) (state : TurnState) (topic : String) (c : Option Candidate)
    → IsComplete b
    → Fine (selected_reply b state topic c)
unfolding selected_reply
selected_reply-Fine b state topic none i = refl
selected_reply-Fine b state topic (some c) i =
    search (if-holds Fine, finish_profile_access-Fine state b)

pending_reply-Fine :
    (b : CatalogBundle) (text : Text) (request : TurnRequest) (q : Option PendingQuestion)
    → IsComplete b
    → Fine (pending_reply b text request q)
unfolding pending_reply selection_reply
pending_reply-Fine b text request none c = refl
pending_reply-Fine b text request (some q) c =
    search (if-holds Fine, intent_reply-Fine b, handle_pending_slot-Fine b, selected_reply-Fine b)

system_reply-Fine :
    (b : CatalogBundle) (text : Text) (state : TurnState) (s t : System)
    → IsComplete b
    → Dict.get b.systems s.id ≡ some t
    → Fine (system_reply b text state s)
unfolding system_reply
system_reply-Fine b text state s t c e = search (
  if-holds Fine,
  respond_with-Fine,
  roles_answer-some b s.id t c e,
  instruction_answer-some b s.id t c e,
)

match_reply-Fine :
    (b : CatalogBundle) (text : Text) (state : TurnState) (m : Option System × List Weak)
    → IsComplete b
    → ((s : System) → m.0 ≡ some s → (t : System) × (Dict.get b.systems s.id ≡ some t))
    → Fine (match_reply b text state m)
unfolding match_reply
match_reply-Fine b text state (some s, weak) c h =
    let (t, there) = h s refl in system_reply-Fine b text state s t c there
match_reply-Fine b text state (none, []) c h = refl
match_reply-Fine b text state (none, w ∷ weak) c h = refl

Hit-cases : (h : Hit) → (h ≡ sure) ⊎ ((h ≡ no_hit) ⊎ ((k : Score) × (h ≡ maybe k)))
Hit-cases sure = inl refl
Hit-cases no_hit = inr (inl refl)
Hit-cases (maybe k) = inr (inr (k, refl))

match_systems-Among :
    (text : Text) (systems : List System) (weak : List Weak) (s : System)
    → (match_systems text systems weak).0 ≡ some s
    → Among s systems
unfolding match_systems
match_systems-Among text [] weak s e = absurd (ground arith)
match_systems-Among text (t ∷ systems) weak s e =
    elim (Hit-cases (
      match_aliases text
        ((t.name, safe) ∷ map (λ (a : Alias). (a.value, safety_of a.safety)) t.aliases))) [
          | inl hit ↦ ground (arith, hit)
          | inr (inl hit) ↦ ground (arith, hit, match_systems-Among text systems weak s)
          | inr (inr (k, hit)) ↦
              ground (arith, hit, match_systems-Among text systems (weak ++ (t, k) ∷ []) s)
        ]

system_matches-Among :
    (b : CatalogBundle) (text : Text) (s : System)
    → (system_matches text b).0 ≡ some s
    → Among s (Dict.values b.systems)
unfolding system_matches
system_matches-Among b text s e =
    match_systems-Among text (Dict.values b.systems) [] s (ground arith)

known_match :
    (b : CatalogBundle) (text : Text) (s : System)
    → IsComplete b
    → (system_matches text b).0 ≡ some s
    → (t : System) × (Dict.get b.systems s.id ≡ some t)
known_match b text s c e =
    Among-All _ (Dict.values b.systems) s c.systems (system_matches-Among b text s e)

pub deterministic_reply-Fine :
    (b : CatalogBundle) (request : TurnRequest)
    → IsComplete b
    → Fine (deterministic_reply b request)
unfolding deterministic_reply reset_reply
deterministic_reply-Fine b request c = search (
  if-holds Fine,
  or_else-Fine,
  pending_reply-Fine b,
  organization_request-Fine b,
  match_reply-Fine b,
  known_match b,
)
