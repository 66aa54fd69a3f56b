-- ===== src/Tools/Rank.antt =====
-- `_soft_token_coverage` and `_rank_text` of app/tools/catalog.py
use role_model_helper_v.Prelude.{
  ◌+◌, ◌-◌, ◌*◌, String, Bool, true, false, ◌||◌, not, Option, none, some, List, [], ◌∷◌, ◌++◌, map,
}
use Prim.Native.Nat.{min, max}
use role_model_helper_v.Prelude.{
  ◌==◌, nat_eq, list_eq, string_eq, if◌then◌else◌, length, take, any, filter,
}
use role_model_helper_v.Score.{Score, fraction, max_score, min_score, round4}
use role_model_helper_v.Text.{Text, codes, is_prefix, is_in, upper}
use role_model_helper_v.Difflib.{ratio}
use role_model_helper_v.Catalog.Bundle.{Alias}
use role_model_helper_v.Catalog.Normalization.{normalize_query, normalized_tokens}
use Prim.Native.String.{compare}
use Prim.Native.Nat.{Ordering}

-- The test on a token of the query and one of the candidate.
token_matches : Text → Text → Bool
unfolding is_prefix list_eq nat_eq
token_matches query_token candidate_token =
    let prefix_length = min 6 (max 3 (length query_token - 2)) in
    query_token == candidate_token
    || is_prefix (take prefix_length query_token) candidate_token
    || is_prefix (take prefix_length candidate_token) query_token

-- `_soft_token_coverage`
unfoldable pub soft_token_coverage : Text → Text → Score
unfolding token_matches normalized_tokens nat_eq
soft_token_coverage query candidate =
    let query_tokens = normalized_tokens query in
    let candidate_tokens = normalized_tokens candidate in
    if length query_tokens == 0 || length candidate_tokens == 0
    then fraction 0 1
    else fraction (length (filter (λ q. any (token_matches q) candidate_tokens) query_tokens))
        (length query_tokens)

pub data Safety : Type 0 where
  safe unsafe ambiguous other : Safety

classify : Text → Safety
unfolding list_eq nat_eq codes
classify t =
    if t == codes "SAFE"
    then safe
    else if t == codes "UNSAFE"
    then unsafe
    else if t == codes "AMBIGUOUS"
    then ambiguous
    else other

-- `str(alias.get("safety") or "SAFE").upper()`, by the words that the code compares it with.
unfoldable pub safety_of : Option String → Safety
unfolding classify string_eq upper
safety_of none = safe
safety_of (some s) = if s == "" then safe else classify (upper (codes s))

-- One value that is compared with the query, and what it adds to `matched_by`.
abbrev Ranked : Type 0
Ranked = Score × List String

is_in_either : Text → Text → Bool
unfolding is_in
is_in_either q c = is_in q c || is_in c q

cap : Safety → Score → Score
unfolding min_score
cap unsafe score = min_score score (fraction 29 100)
cap ambiguous score = min_score score (fraction 82 100)
cap _ score = score

is_safe : Safety → Bool
is_safe safe = true
is_safe _ = false

-- The branch for texts that differ.
rank_similar : Text → Text → Ranked
unfolding soft_token_coverage ratio is_in_either max_score nat_eq
rank_similar query candidate =
    let coverage = soft_token_coverage query candidate in
    let sequence = ratio query candidate in
    let within = is_in_either query candidate in
    let covered = not (coverage.num == 0) in
    let substring = if within then fraction 9 10 else fraction 0 1 in
    let token_score =
      if covered
      then fraction (35 * coverage.den + 60 * coverage.num) (100 * coverage.den)
      else fraction 0 1 in
    (
      max_score (max_score sequence token_score) substring,
      (if covered then "token_coverage" ∷ [] else []) ++ (if within then "substring" ∷ [] else []),
    )

-- The branch for equal texts, or the other, and the cap.
rank_one : Text → String → String → Safety → Text → Ranked
unfolding rank_similar cap is_safe list_eq nat_eq string_eq
rank_one query name raw safety candidate =
    let exact : Ranked = (
      if is_safe safety then fraction 1 1 else fraction 82 100,
      (if raw == name then "exact_name" else "exact_alias") ∷ [],
    ) in
    let (score, matched) = if query == candidate then exact else rank_similar query candidate in
    (cap safety score, matched)

rank_all : Text → String → List (String × Safety) → Ranked → Ranked
unfolding rank_one max_score list_eq nat_eq
rank_all query name [] acc = acc
rank_all query name ((raw, safety) ∷ rest) (best, matched) =
    let candidate = normalize_query (codes raw) in
    let (score, more) = rank_one query name raw safety candidate in
    rank_all query name rest
      (if candidate == [] then (best, matched) else (max_score best score, matched ++ more))

lt_string : String → String → Bool
lt_string s t = elim (compare s t) [ Ordering.lt ↦ true | _ ↦ false ]

insert_word : String → List String → List String
unfolding lt_string string_eq
insert_word w [] = w ∷ []
insert_word w (v ∷ ws) =
    let rest = insert_word w ws in
    if w == v then v ∷ ws else if lt_string w v then w ∷ v ∷ ws else v ∷ rest

-- `tuple(sorted(set(words)))`
unfoldable pub sorted_set : List String → List String
unfolding insert_word
sorted_set [] = []
sorted_set (w ∷ ws) = insert_word w (sorted_set ws)

-- `_rank_text`
unfoldable pub rank_text : String → String → List Alias → Score × List String
unfolding rank_all sorted_set safety_of round4 codes normalize_query list_eq nat_eq
rank_text query name aliases =
    let query_normalized = normalize_query (codes query) in
    let values = (name, safe) ∷ map (λ (a : Alias). (a.value, safety_of a.safety)) aliases in
    let (best, matched) = rank_all query_normalized name values (fraction 0 1, []) in
    if query_normalized == []
    then (fraction 1 2, "context_filter" ∷ [])
    else (round4 best, sorted_set matched)
