-- ===== src/Agent/Engine/Replies/Dialogue.antt =====
-- The replies to pending questions, and the whole deterministic path.
use role_model_helper_v.Prelude.{String, refl, if-holds, Option, none, some, List, [], ◌∷◌, arith}
use role_model_helper_v.Prelude.{string_eq}
use role_model_helper_v.Text.{Text}
use role_model_helper_v.Agent.Models.{Candidate, PendingQuestion, TurnState, TurnRequest}
use role_model_helper_v.Agent.Matches.{Weak}
use role_model_helper_v.Agent.Dialogue.Slot.{
  Canonical, settled, asked, missing, handle_pending_slot, with_value, canonical_value, city_value,
  system_value, from_search, first_id,
}
use role_model_helper_v.Agent.Deterministic.{
  reset_reply, selected_reply, intent_reply, selection_reply, pending_reply, system_reply,
  match_reply, deterministic_reply,
}
use role_model_helper_v.Catalog.Bundle.{System, CatalogBundle}
use role_model_helper_v.Tools.Search.{ToolResult}
use role_model_helper_v.Agent.Engine.Replies.{
  Turns, none_fits, Asks, weak_options-length, candidate_clarification-Turns, respond-Turns,
  respond_with-Turns, or_else-Turns, finish_profile_access-Turns, organization_request-Turns,
}

city_value-Asks :
    (state : TurnState) (b : CatalogBundle) (value : Text) → Asks state (city_value b value)
unfolding city_value
city_value-Asks state b value = ground arith

system_value-Turns :
    (state : TurnState) (m : Option System × List Weak) → Asks state (system_value state m)
unfolding system_value
system_value-Turns state (some s, weak) = tt
system_value-Turns state (none, []) = tt
system_value-Turns state (none, w ∷ weak) =
    respond-Turns state _ _ _ refl refl (λ h. weak_options-length (w ∷ weak))

from_search-Turns :
    (state : TurnState) (topic key message : String) (r : ToolResult)
    → Asks state (from_search state topic key message r)
unfolding from_search first_id
from_search-Turns state topic key message r =
    ground (arith, candidate_clarification-Turns state topic r state.slots message)

canonical_value-Turns :
    (b : CatalogBundle) (request : TurnRequest) (pending : PendingQuestion)
    → Asks request.state (canonical_value b request pending)
unfolding canonical_value
canonical_value-Turns b request pending = search (
  if-holds (Asks request.state),
  city_value-Asks request.state,
  from_search-Turns request.state,
  system_value-Turns request.state,
)

with_value-Turns :
    (b : CatalogBundle) (request : TurnRequest) (pending : PendingQuestion) (c : Canonical)
    → Asks request.state c
    → Turns request.state (with_value b request pending c)
unfolding with_value
with_value-Turns b request pending (asked h) t = t
with_value-Turns b request pending missing t = respond-Turns request.state _ _ _ refl refl (λ h. h)
with_value-Turns b request pending (settled key value) t = search (
  if-holds (Turns request.state),
  finish_profile_access-Turns request.state,
  respond-Turns request.state,
  none_fits,
)

handle_pending_slot-Turns :
    (b : CatalogBundle) (request : TurnRequest) (pending : PendingQuestion)
    → Turns request.state (handle_pending_slot b request pending)
unfolding handle_pending_slot
handle_pending_slot-Turns b request pending =
    with_value-Turns b request pending (canonical_value b request pending)
      (canonical_value-Turns b request pending)

intent_reply-Turns :
    (b : CatalogBundle) (text : Text) (state : TurnState) → Turns state (intent_reply b text state)
unfolding intent_reply
intent_reply-Turns b text state =
    search (if-holds (Turns state), respond_with-Turns state, respond-Turns state, none_fits)

selected_reply-Turns :
    (b : CatalogBundle) (state : TurnState) (topic : String) (c : Option Candidate)
    → Turns state (selected_reply b state topic c)
unfolding selected_reply
selected_reply-Turns b state topic none = tt
selected_reply-Turns b state topic (some c) =
    search
      (if-holds (Turns state), finish_profile_access-Turns state, respond-Turns state, none_fits)

pending_reply-Turns :
    (b : CatalogBundle) (text : Text) (request : TurnRequest) (q : Option PendingQuestion)
    → Turns request.state (pending_reply b text request q)
unfolding pending_reply selection_reply
pending_reply-Turns b text request none = tt
pending_reply-Turns b text request (some q) = search (
  if-holds (Turns request.state),
  intent_reply-Turns b text,
  handle_pending_slot-Turns b,
  selected_reply-Turns b,
  respond-Turns request.state,
)

system_reply-Turns :
    (b : CatalogBundle) (text : Text) (state : TurnState) (s : System)
    → Turns state (system_reply b text state s)
unfolding system_reply
system_reply-Turns b text state s =
    search (if-holds (Turns state), respond_with-Turns state, respond-Turns state, none_fits)

match_reply-Turns :
    (b : CatalogBundle) (text : Text) (state : TurnState) (m : Option System × List Weak)
    → Turns state (match_reply b text state m)
unfolding match_reply
match_reply-Turns b text state (some s, weak) = system_reply-Turns b text state s
match_reply-Turns b text state (none, []) = tt
match_reply-Turns b text state (none, w ∷ weak) =
    respond-Turns state _ _ _ refl refl (λ h. weak_options-length (w ∷ weak))

-- A reply of the deterministic path keeps the session, adds one to the revision, has an answer and
-- no failure, and offers at most five options if the state before it did.
pub deterministic_reply-Turns :
    (b : CatalogBundle) (request : TurnRequest)
    → Turns request.state (deterministic_reply b request)
unfolding deterministic_reply reset_reply
deterministic_reply-Turns b request = search (
  if-holds (Turns request.state),
  respond-Turns request.state,
  none_fits,
  or_else-Turns request.state,
  pending_reply-Turns b,
  organization_request-Turns b,
  match_reply-Turns b,
)
