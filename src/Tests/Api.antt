-- ===== src/Tests/Api.antt =====
-- The HTTP interface on a small catalog.
use role_model_helper_v.Prelude.{◌≡◌, refl, ◌↔◌, some, none, list_eq, nat_eq}
use role_model_helper_v.Catalog.Bundle.{CatalogBundle}
use role_model_helper_v.Catalog.Cache.{current, active_version_of}
use role_model_helper_v.Text.{codes, is_blank}
use role_model_helper_v.Api.{Body, negative, nonnegative, message_request, post_message, health}
use role_model_helper_v.Api.Laws.{health_of_catalog}
use role_model_helper_v.Api.Posts.{Ends, post_message-Ends}
use role_model_helper_v.Runtime.Service.Agent.{agent}
use role_model_helper_v.Tests.Data.{clock, good_planner, cache}
use role_model_helper_v.Tests.Runtime.{tables}
use role_model_helper_v.Tests.Settings.{settings}
use role_model_helper_v.Tests.Catalog.{one_waits, one_waits-Reach}

abbrev body : Body
body = record {
  request_id = some "r1";
  text = some "привет";
  state_revision = some (nonnegative 0);
}

blank_refused : message_request (record body { text = some "  " }) ≡ none
unfolding message_request codes is_blank nat_eq
blank_refused = refl

negative_refused : message_request (record body { state_revision = some (negative 1) }) ≡ none
unfolding message_request codes is_blank nat_eq
negative_refused = refl

post_message-Ends_example :
    Ends
      (agent clock good_planner cache (λ request. "t1"))
      "s1"
      body
      tables
      (post_message (agent clock good_planner cache (λ request. "t1")) "s1" body tables)
post_message-Ends_example =
    post_message-Ends clock good_planner cache (λ request. "t1") "s1" body tables

health_of_catalog_example :
    ((health one_waits.cache settings).status ≡ "ok"
      ↔ ((b : CatalogBundle) × (current one_waits.cache ≡ some b)))
    × ((health one_waits.cache settings).catalog_version ≡ active_version_of one_waits.cache.active)
health_of_catalog_example = health_of_catalog settings one_waits-Reach
