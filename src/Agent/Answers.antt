-- ===== src/Agent/Answers.antt =====
-- `_roles_answer` and `_instruction_answer` of app/agent/service.py. `none` is a `KeyError`,
-- or the `ValueError` of `int`.
use role_model_helper_v.Prelude.{
  ℕ, zero, suc, ◌/◌, ◌%◌, String, ◌<>◌, Bool, false, Option, none, some, List, [], ◌∷◌, map,
}
use role_model_helper_v.Prelude.{◌==◌, ltb, nat_eq, string_eq, if◌then◌else◌, find}
use mathlib.Core.Option
use role_model_helper_v.Prelude.Dict
use role_model_helper_v.Agent.Models.{Answer, one, many}
use role_model_helper_v.Catalog.Bundle.{
  Role, AccessLevel, no_level, unreadable, at_level, has_levels, System, Instruction, CatalogBundle,
  or_empty,
}

-- `sep.join(parts)`
unfoldable pub join_with : String → List String → String
join_with sep [] = ""
join_with sep (s ∷ []) = s
join_with sep (s ∷ t ∷ rest) = s <> (sep <> join_with sep (t ∷ rest))

digit : ℕ → String
unfolding nat_eq
digit n =
    if n == 0
    then "0"
    else if n == 1
    then "1"
    else if n == 2
    then "2"
    else if n == 3
    then "3"
    else if n == 4
    then "4"
    else if n == 5
    then "5"
    else if n == 6
    then "6"
    else if n == 7
    then "7"
    else if n == 8
    then "8"
    else "9"

-- `str(n)`. A number has fewer digits than the fuel.
decimal_from : ℕ → ℕ → String
unfolding digit
decimal_from zero n = ""
decimal_from (suc fuel) n =
    let front = decimal_from fuel (n / 10) in if ltb n 10 then digit n else front <> digit (n % 10)

unfoldable pub decimal : ℕ → String
unfolding decimal_from
decimal n = decimal_from (suc n) n

-- `int(role.get("access_level") or 0) == 1`, where `int` raises nothing.
is_default : AccessLevel → Bool
unfolding nat_eq
is_default no_level = false
is_default unreadable = false
is_default (at_level n) = n == 1

role_lines : ℕ → List Role → List String
unfolding is_default decimal
role_lines index [] = []
role_lines index (r ∷ roles) =
    (decimal index
      <> (". "
          <> (r.name
              <> (" ("
                  <> ((if is_default r.access_level then "по умолчанию" else "по запросу")
                      <> ")")))))
    ∷ role_lines (suc index) roles

roles_text : String → List Role → String
unfolding role_lines join_with
roles_text name [] = "Для АС " <> (name <> " роли в текущем каталоге не найдены.")
roles_text name (r ∷ roles) =
    join_with "\n" (("Роли для АС " <> (name <> ":")) ∷ role_lines 1 (r ∷ roles))

-- `_roles_answer`; a level that `int` refuses raises.
unfoldable pub roles_answer : CatalogBundle → String → Option Answer
unfolding roles_text
roles_answer b system_id = elim (Dict.get b.systems system_id) [
  | none ↦ none
  | some s ↦
      if has_levels s.roles
      then some (record {
        text = roles_text s.name s.roles;
        answer_type = "ROLE_DISCOVERY";
        facts =
            ("system_id", one system_id)
            ∷ ("role_ids", many (map (λ (r : Role). r.id) s.roles))
            ∷ ("catalog_version", one b.version)
            ∷ [];
      })
      else none
]

-- A text and facts for the instruction that was found; `instruction['title']` must be there.
unfoldable pub instruction_found : CatalogBundle → String → System → Instruction → Option Answer
instruction_found b system_id s i =
    Option.map
      (λ (title : String). record {
        text =
            title
            <> (" для АС "
                <> (s.name <> ". Откройте источник инструкции в корпоративном каталоге."));
        answer_type = "INSTRUCTION_LOOKUP";
        facts =
            ("system_id", one system_id)
            ∷ ("instruction_id", one i.id)
            ∷ ("citation", one (or_empty i.citation))
            ∷ ("catalog_version", one b.version)
            ∷ [];
      })
      i.title

unfoldable pub instruction_missing : CatalogBundle → String → System → Option Answer
instruction_missing b system_id s = some (record {
  text =
      "Для АС "
      <> (s.name
          <> " отдельная инструкция в каталоге не найдена. Обратитесь к владельцу системы или в службу поддержки доступов.");
  answer_type = "INSTRUCTION_LOOKUP";
  facts = ("system_id", one system_id) ∷ ("catalog_version", one b.version) ∷ [];
})

-- `_instruction_answer`
unfoldable pub instruction_answer : CatalogBundle → String → Option Answer
unfolding instruction_found instruction_missing string_eq
instruction_answer b system_id = elim (Dict.get b.systems system_id) [
  | none ↦ none
  | some s ↦ elim (find (λ (i : Instruction). or_empty i.system_id == system_id) b.instructions) [
    | none ↦ instruction_missing b system_id s
    | some i ↦ instruction_found b system_id s i
  ]
]
