-- ===== src/Agent/Engine/Total/Handler.antt =====
-- The handler raises nothing on a bundle that was built from a document in order.
use role_model_helper_v.Prelude.{
  String, ◌≡◌, ◌≢◌, inl, inr, Option, none, some, List, [], ◌∷◌, true, ==-cases, sym, ◌∙◌, arith,
  All, if-holds, Option-cases, string_eq,
}
use mathlib.Core.Option.{some-injective}
use mathlib.Core.Path.{subst}
use role_model_helper_v.Prelude.Dict
use role_model_helper_v.Prelude.Dict.{Dict}
use role_model_helper_v.Catalog.Bundle.Laws.{index_systems-IsKnown}
use role_model_helper_v.Telemetry.{Clock, TurnTrace}
use role_model_helper_v.Catalog.Validation.{validate_catalog}
use role_model_helper_v.Catalog.Validation.Laws.{validate_catalog-titles}
use role_model_helper_v.Catalog.Cache.{Cache, current}
use role_model_helper_v.Agent.Engine.{
  Planner, PlannerReply, planned, malformed, timed_out, broken, refusal, planned_reply,
  planned_answer, system_answer, plan_result, fallback, handle_with, handle_bundle, handle,
}
use role_model_helper_v.Agent.Engine.Plans.Checks.{IsAcceptable, refusal-none}
use role_model_helper_v.Agent.Models.{TurnState, TurnRequest, TurnResult, Answer, Plan}
use role_model_helper_v.Agent.Dialogue.Reply.{Handled, reply, unhandled, raised, slot}
use role_model_helper_v.Catalog.Bundle.{
  has_levels, index_systems, System, Document, CatalogBundle, from_mapping,
}
use role_model_helper_v.Agent.Engine.Total.{
  IsComplete, Fine, roles_answer-some, IsTitled, instruction_answer-some,
}
use role_model_helper_v.Agent.Engine.Total.Dialogue.{deterministic_reply-Fine}

system_answer-some :
    (b : CatalogBundle) (id : String) (s : System)
    → Dict.get b.systems id ≡ some s
    → system_answer b id ≢ none
unfolding system_answer
system_answer-some b id s e q = ground (arith, e, q)

planned_answer-some :
    (b : CatalogBundle) (intent id : String) (s : System)
    → IsComplete b
    → Dict.get b.systems id ≡ some s
    → planned_answer b intent id ≢ none
unfolding planned_answer system_answer
planned_answer-some b intent id s c e = search (
  if-holds {A = Option Answer} (λ a. a ≢ none),
  roles_answer-some b id s c e,
  instruction_answer-some b id s c e,
  system_answer-some b id s e,
)

planned_reply-some :
    (b : CatalogBundle) (state : TurnState) (plan : Plan)
    → IsComplete b
    → IsAcceptable b plan
    → planned_reply b state plan ≢ none
unfolding planned_reply
planned_reply-some b state plan c a q = elim a.system [
  | inl e ↦ ground (arith, e, q)
  | inr (s, there) ↦
      ground (arith, q, planned_answer-some b plan.intent (slot plan.slots "system_id") s c there)
]

-- The access levels of the roles of a system are numbers, or missing.
abbrev pub HasLevels : System → Type 0
HasLevels s = has_levels s.roles ≡ true

index_systems-HasLevels :
    (d : Dict String System) (systems : List System)
    → ((k : String) (s : System) → Dict.get d k ≡ some s → HasLevels s)
    → All HasLevels systems
    → (k : String) (s : System) → Dict.get (index_systems d systems) k ≡ some s
    → HasLevels s
unfolding index_systems
index_systems-HasLevels d [] h levels k s e = h k s e
index_systems-HasLevels d (t ∷ systems) h (first, levels) k s e =
    index_systems-HasLevels (Dict.insert t.id t d) systems (λ j u q. inserted d t j u h first q)
      levels k s e
  where
    inserted :
        (d : Dict String System) (t : System) (j : String) (u : System)
        → ((k : String) (s : System) → Dict.get d k ≡ some s → HasLevels s)
        → HasLevels t
        → Dict.get (Dict.insert t.id t d) j ≡ some u
        → HasLevels u
    inserted d t j u h first q = elim (==-cases j t.id) [
      | inl (same, hit) ↦
          subst HasLevels (some-injective _ _ (rw hit at (sym (Dict.get-insert d t.id j t) ∙ q)))
            first
      | inr miss ↦ h j u (rw miss at (sym (Dict.get-insert d t.id j t) ∙ q))
    ]

from_mapping-IsComplete :
    (payload : Document)
    → All IsTitled payload.instructions
    → All HasLevels payload.systems
    → IsComplete (from_mapping payload)
unfolding from_mapping Dict.get
from_mapping-IsComplete payload titled levels = record {
  systems = index_systems-IsKnown payload.systems;
  titles = titled;
  levels = index_systems-HasLevels [] payload.systems (λ k s e. ground arith) levels;
}

module _ (clock : Clock) where
  plan_result-some :
      (b : CatalogBundle) (request : TurnRequest) (trace : TurnTrace) (plan : Plan)
      → IsComplete b
      → plan_result clock b request trace plan ≢ none
  unfolding plan_result
  plan_result-some b request trace plan c q = elim (Option-cases (refusal b plan)) [
    | inr (r, refused) ↦ ground (arith, refused, q)
    | inl passed ↦ ground (
      arith,
      passed,
      q,
      planned_reply-some b request.state plan c ((refusal-none b plan).0 passed),
    )
  ]

  fallback-some :
      (b : CatalogBundle) (request : TurnRequest) (trace : TurnTrace) (a : PlannerReply)
      → IsComplete b
      → fallback clock b request trace a ≢ none
  unfolding fallback
  fallback-some b request trace timed_out c q = cc
  fallback-some b request trace broken c q = cc
  fallback-some b request trace malformed c q = cc
  fallback-some b request trace (planned plan) c q = plan_result-some b request _ plan c q

  handle_with-some :
      (planner : Planner) (b : CatalogBundle) (request : TurnRequest) (trace : TurnTrace)
      (h : Handled)
      → IsComplete b
      → Fine h
      → handle_with clock planner b request trace h ≢ none
  unfolding handle_with
  handle_with-some planner b request trace raised c f q = cc
  handle_with-some planner b request trace (reply r) c f q = cc
  handle_with-some planner b request trace unhandled c f q =
      fallback-some b request trace (planner request b) c q

  -- The handler raises nothing, whatever the request and whatever the planner does, while the active
  -- bundle was built from a document whose instructions all have a title and whose access levels
  -- are numbers or missing.
  pub handle_total :
      (planner : Planner) (cache : Cache) (payload : Document) (trace_id : String)
      (request : TurnRequest)
      → current cache ≡ some (from_mapping payload)
      → All IsTitled payload.instructions
      → All HasLevels payload.systems
      → (result : TurnResult) × (handle clock planner cache trace_id request ≡ some result)
  unfolding handle handle_bundle
  handle_total planner cache payload trace_id request active titled levels =
      elim (Option-cases (handle clock planner cache trace_id request)) [
        | inr there ↦ there
        | inl raises ↦ absurd (
            handle_with-some planner (from_mapping payload) request _ _
              (from_mapping-IsComplete payload titled levels)
              (deterministic_reply-Fine (from_mapping payload) request
                (from_mapping-IsComplete payload titled levels))
              (rw (active, handle) at raises))
      ]

  -- The handler raises nothing, whatever the request and whatever the planner does, while the active
  -- bundle is that of a document that passed the validation of the catalog and whose roles have
  -- access levels that can be read as numbers, or none, which the validation does not ask for.
  pub handle_validated :
      (planner : Planner) (cache : Cache) (payload document : Document) (trace_id : String)
      (request : TurnRequest)
      → validate_catalog payload ≡ some document
      → current cache ≡ some (from_mapping document)
      → All HasLevels document.systems
      → (result : TurnResult) × (handle clock planner cache trace_id request ≡ some result)
  handle_validated planner cache payload document trace_id request valid active levels =
      handle_total planner cache document trace_id request active
        (validate_catalog-titles payload document valid) levels
