-- ===== src/Agent/Matches.antt =====
-- `_system_matches` of app/agent/service.py
use role_model_helper_v.Prelude.{
  String, Bool, true, false, Option, none, some, List, [], ◌∷◌, ◌++◌, map,
}
use role_model_helper_v.Prelude.{◌==◌, contains, nat_eq, list_eq, string_eq, if◌then◌else◌}
use role_model_helper_v.Prelude.Dict
use role_model_helper_v.Prelude.Dict.{Dict}
use role_model_helper_v.Score.{Score, fraction, lt_score, min_score}
use role_model_helper_v.Text.{Text, codes}
use role_model_helper_v.Difflib.{ratio}
use role_model_helper_v.Catalog.Bundle.{Alias, System, CatalogBundle}
use role_model_helper_v.Tools.Rank.{Safety, safe, safety_of}
use role_model_helper_v.Agent.Phrases.{normalize, has_phrase}

pub data Hit : Type 0 where
  sure : Hit
  maybe : Score → Hit
  no_hit : Hit

is_sure : Safety → Bool
is_sure safe = true
is_sure _ = false

-- The loop over the aliases of a system.
unfoldable pub match_aliases : Text → List (String × Safety) → Hit
unfolding is_sure normalize has_phrase ratio min_score list_eq nat_eq codes
match_aliases text [] = no_hit
match_aliases text ((value, safety) ∷ rest) =
    let alias = normalize (codes value) in
    let score = ratio alias text in
    let next = match_aliases text rest in
    if alias == []
    then next
    else if has_phrase text alias
    then (if is_sure safety then sure else maybe (fraction 65 100))
    else if lt_score score (fraction 50 100)
    then next
    else maybe (min_score score (fraction 64 100))

abbrev pub Weak : Type 0
Weak = System × Score

-- The loop over the systems: the first safe match ends it.
unfoldable pub match_systems : Text → List System → List Weak → Option System × List Weak
unfolding safety_of
match_systems text [] weak = (none, weak)
match_systems text (s ∷ systems) weak =
    elim (match_aliases text
      ((s.name, safe) ∷ map (λ (a : Alias). (a.value, safety_of a.safety)) s.aliases)) [
        | sure ↦ (some s, [])
        | maybe score ↦ match_systems text systems (weak ++ (s, score) ∷ [])
        | no_hit ↦ match_systems text systems weak
      ]

insert_weak : Weak → List Weak → List Weak
insert_weak w [] = w ∷ []
insert_weak (s, a) ((t, b) ∷ ws) =
    let rest = insert_weak (s, a) ws in if lt_score a b then (t, b) ∷ rest else (s, a) ∷ (t, b) ∷ ws

-- `weak.sort(key=…, reverse=True)`, which keeps the order of equal scores.
unfoldable pub sort_weak : List Weak → List Weak
unfolding insert_weak
sort_weak [] = []
sort_weak (w ∷ ws) = insert_weak w (sort_weak ws)

-- The first match of each system id.
unfoldable pub unique_weak : List String → List Weak → List Weak
unfolding string_eq
unique_weak seen [] = []
unique_weak seen ((s, a) ∷ ws) =
    let old = unique_weak seen ws in
    let new = (s, a) ∷ unique_weak (s.id ∷ seen) ws in if contains seen s.id then old else new

-- `_system_matches`
unfoldable pub system_matches : Text → CatalogBundle → Option System × List Weak
unfolding match_systems sort_weak unique_weak Dict.values
system_matches text b =
    let (found, weak) = match_systems text (Dict.values b.systems) [] in
    elim found [ some s ↦ (some s, []) | none ↦ (none, unique_weak [] (sort_weak weak)) ]
