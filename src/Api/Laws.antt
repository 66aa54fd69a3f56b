-- ===== src/Api/Laws.antt =====
-- What the HTTP interface says of the catalog.
use role_model_helper_v.Prelude.{
  String, ◌≡◌, refl, ◌↔◌, Option, none, some, arith, ap, ◌==◌, string_eq,
}
use role_model_helper_v.Catalog.Bundle.{CatalogBundle}
use role_model_helper_v.Settings.{Settings}
use role_model_helper_v.Catalog.Cache.{current, active_version_of}
use role_model_helper_v.Catalog.Cache.Threads.{Shared, Reach}
use role_model_helper_v.Catalog.Cache.Safety.{status_fits}
use role_model_helper_v.Api.{is_some, status_text, health}

not_ok {ℓ} : {A : Type ℓ} → ◌≡◌ {A = String} "degraded" "ok" → A
unfolding string_eq
not_ok e = absurd (ground (arith, ap (λ (s : String). s == "ok") e))

ok_status :
    (active : Option CatalogBundle) (version : Option String)
    → version ≡ active_version_of active
    → (status_text (is_some version) ≡ "ok") ↔ ((b : CatalogBundle) × (active ≡ some b))
unfolding is_some status_text
ok_status none version h = rw h ((λ e. not_ok e), (λ (b, e). absurd (ground arith)))
ok_status (some b) version h = rw h ((λ e. (b, refl)), (λ e. refl))

-- While threads use the cache, in every state that they reach, the health that is reported is "ok"
-- exactly if a request finds an active bundle, and the version reported is that of the bundle.
pub health_of_catalog :
    (settings : Settings) {s : Shared}
    → Reach s
    → ((health s.cache settings).status ≡ "ok" ↔ ((b : CatalogBundle) × (current s.cache ≡ some b)))
      × ((health s.cache settings).catalog_version ≡ active_version_of s.cache.active)
unfolding health current
health_of_catalog settings r = (ok_status _ _ (status_fits r).version, (status_fits r).version)
