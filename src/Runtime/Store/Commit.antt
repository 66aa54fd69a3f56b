-- ===== src/Runtime/Store/Commit.antt =====
-- What one `commit_turn` does to the tables.
use role_model_helper_v.Prelude.{
  ◌+◌, ◌≤◌, Bool, ◌≡◌, ◌⊎◌, inl, inr, none, some, [], ◌∷◌, ◌++◌, arith,
}
use role_model_helper_v.Prelude.{◌==◌, leb, nat_eq, string_eq, Option-cases, Bool-cases, ◌||◌}
use role_model_helper_v.Prelude.Dict
use role_model_helper_v.Runtime.Payload.{ResponsePayload}
use role_model_helper_v.Runtime.Store.{
  Error, ok, err, session_not_found, revision_conflict, invalid_next_revision, integrity_error,
  SessionRow, Tables, Turn, get_replay, row_of, commit_turn,
}

-- A commit that fails, for whatever reason, leaves both tables as they were.
pub commit_turn_atomic :
    (t : Turn) (db : Tables) (e : Error) → (commit_turn t db).0 ≡ err e → (commit_turn t db).1 ≡ db
unfolding commit_turn
commit_turn_atomic t db e h = ground arith

-- The commit writes: the session was there at the revision that the client expects, the request
-- was new, the next revision is the same or one more, and at most one planner call was made.
pub record Writes (t : Turn) (db : Tables) : Type 0 where
  pub session : SessionRow
  pub found : Dict.get db.sessions t.session_id ≡ some session
  pub current : session.revision ≡ t.expected_revision
  pub fresh : get_replay t.session_id t.request_id db ≡ none
  pub next : (t.state.revision ≡ t.expected_revision) ⊎ (t.state.revision ≡ t.expected_revision + 1)
  pub calls : t.response.diagnostics.gigachat_calls ≤ 1

abbrev pub written : Turn → Tables → Tables
written t db = record {
  sessions =
      Dict.insert t.session_id (record { revision = t.state.revision; state_json = t.state })
        db.sessions;
  turns = db.turns ++ row_of t ∷ [];
}

abbrev pub Outcomes : Turn → Tables → Type 0
Outcomes t db =
    (Writes t db × (commit_turn t db ≡ (ok t.response, written t db)))
    ⊎ (((r : ResponsePayload) × (get_replay t.session_id t.request_id db ≡ some r)
          × (commit_turn t db ≡ (ok r, db)))
        ⊎ ((e : Error) × (commit_turn t db ≡ (err e, db))))

abbrev follows : Turn → Bool
follows t = t.state.revision == t.expected_revision || t.state.revision == t.expected_revision + 1

-- The rest of a commit, behind the first two queries.
locked_cases :
    (t : Turn) (db : Tables) (session : SessionRow)
    → Dict.get db.sessions t.session_id ≡ some session
    → get_replay t.session_id t.request_id db ≡ none
    → Outcomes t db
unfolding commit_turn
locked_cases t db session found fresh = elim (nat_eq.dec session.revision t.expected_revision) [
  | no stale ↦ inr (inr (revision_conflict session.revision t.expected_revision, ground arith))
  | yes current ↦ elim (Bool-cases (follows t)) [
    | inl follow ↦ elim (Bool-cases (leb t.response.diagnostics.gigachat_calls 1)) [
      | inl few ↦ inl (
        record {
          session = session;
          found = found;
          current = current;
          fresh = fresh;
          next = ground arith;
          calls = ground arith;
        },
        ground arith,
      )
      | inr many ↦ inr (inr (integrity_error, ground arith))
    ]
    | inr jump ↦
        inr (inr (invalid_next_revision t.state.revision t.expected_revision, ground arith))
  ]
]

-- The three outcomes of a commit: it writes the turn and the state under the conditions of
-- `Writes`, it returns the stored response and writes nothing, or it fails and writes nothing.
pub commit_turn_cases : (t : Turn) (db : Tables) → Outcomes t db
unfolding commit_turn
commit_turn_cases t db = elim (Option-cases (Dict.get db.sessions t.session_id)) [
  | inl missing ↦ inr (inr (session_not_found t.session_id, ground arith))
  | inr (session, found) ↦ elim (Option-cases (get_replay t.session_id t.request_id db)) [
    | inr (r, stored) ↦ inr (inl (r, stored, ground arith))
    | inl fresh ↦ locked_cases t db session found fresh
  ]
]
