-- ===== src/Runtime/Store/Invariant.antt =====
-- The invariant of the two tables, kept by every method, and what a commit never takes back.
use role_model_helper_v.Prelude.{
  ℕ, suc, ◌+◌, ◌≤◌, String, ◌≡◌, refl, ◌≢◌, inl, inr, none, some, List, [], ◌∷◌, ◌++◌, arith,
}
use role_model_helper_v.Prelude.{
  ◌==◌, nat_eq, string_eq, if◌then◌else◌, Option-cases, All, All-append,
}
use role_model_helper_v.Prelude.Dict
use role_model_helper_v.Runtime.Payload.{StatePayload, ResponsePayload}
use role_model_helper_v.Runtime.Store.{
  ok, SessionRow, TurnRow, Tables, Turn, is_turn, find_response, get_replay, row_of, commit_turn,
  create_session,
}
use role_model_helper_v.Runtime.Store.Commit.{Writes, written, commit_turn_cases}

-- How many turns a session has.
pub count_turns : String → List TurnRow → ℕ
count_turns s [] = 0
count_turns s (row ∷ rows) =
    if row.session_id == s then suc (count_turns s rows) else count_turns s rows

-- No request of a session has two turns.
abbrev pub Unique : List TurnRow → Type 0
Unique [] = Unit
Unique (row ∷ rows) = (find_response row.session_id row.request_id rows ≡ none) × Unique rows

pub record IsConsistent (db : Tables) : Type 0 where
  pub unique : Unique db.turns
  pub calls : All (λ (row : TurnRow). row.gigachat_calls ≤ 1) db.turns
  pub revisions :
      (s : String) (row : SessionRow)
      → Dict.get db.sessions s ≡ some row
      → (row.revision ≡ row.state_json.revision) × (row.revision ≤ count_turns s db.turns)

abbrev pub empty : Tables
empty = record { sessions = []; turns = [] }

pub empty-IsConsistent : IsConsistent empty
unfolding Dict.get
empty-IsConsistent = record { unique = tt; calls = tt; revisions = λ s row h. absurd (cc) }

count_turns-append :
    (s : String) (rows : List TurnRow) (row : TurnRow)
    → count_turns s (rows ++ row ∷ [])
      ≡ (if row.session_id == s then suc (count_turns s rows) else count_turns s rows)
unfolding count_turns
count_turns-append s [] row = ground arith
count_turns-append s (r ∷ rows) row = ground (arith, count_turns-append s rows row)

pub find_response-append_old :
    (s r : String) (rows more : List TurnRow) (x : ResponsePayload)
    → find_response s r rows ≡ some x
    → find_response s r (rows ++ more) ≡ some x
unfolding find_response
find_response-append_old s r [] more x h = cc
find_response-append_old s r (row ∷ rows) more x h =
    ground (arith, find_response-append_old s r rows more x)

pub find_response-append_new :
    (s r : String) (rows : List TurnRow) (row : TurnRow)
    → find_response s r rows ≡ none
    → find_response s r (rows ++ row ∷ [])
      ≡ (if is_turn s r row then some row.response_json else none)
unfolding find_response
find_response-append_new s r [] row h = refl
find_response-append_new s r (old ∷ rows) row h =
    ground (arith, find_response-append_new s r rows row)

Unique-append :
    (rows : List TurnRow) (row : TurnRow)
    → Unique rows
    → find_response row.session_id row.request_id rows ≡ none
    → Unique (rows ++ row ∷ [])
unfolding find_response
Unique-append [] row u h = (refl, tt)
Unique-append (old ∷ rows) row (fresh, u) h = (
  ground (arith, find_response-append_new old.session_id old.request_id rows row fresh),
  Unique-append rows row u (ground arith),
)

written-IsConsistent :
    (t : Turn) (db : Tables) → Writes t db → IsConsistent db → IsConsistent (written t db)
unfolding get_replay row_of
written-IsConsistent t db w c = record {
  unique = Unique-append db.turns (row_of t) c.unique w.fresh;
  calls =
      All-append (λ (row : TurnRow). row.gigachat_calls ≤ 1) db.turns (row_of t ∷ []) c.calls
        (w.calls, tt);
  revisions = λ s row h. ground (
    arith,
    Dict.get-insert db.sessions t.session_id s
        (record { revision = t.state.revision; state_json = t.state }),
    count_turns-append s db.turns (row_of t),
    c.revisions s row,
    c.revisions t.session_id w.session w.found,
    w.current,
    w.next,
  );
}

-- Every commit keeps the tables consistent: no request has two turns, a session's revision is that
-- of its stored state and at most the number of its turns, and no turn made two planner calls.
pub commit_turn-IsConsistent :
    (t : Turn) (db : Tables) → IsConsistent db → IsConsistent (commit_turn t db).1
commit_turn-IsConsistent t db c = elim (commit_turn_cases t db) [
  | inl (w, e) ↦ rw e (written-IsConsistent t db w c)
  | inr (inl (r, stored, e)) ↦ rw e c
  | inr (inr (error, e)) ↦ rw e c
]

-- A new session begins consistent, if its state has revision 0.
pub create_session-IsConsistent :
    (s : String) (state : StatePayload) (db : Tables)
    → state.revision ≡ 0
    → IsConsistent db
    → IsConsistent (create_session s state db).1
unfolding create_session
create_session-IsConsistent s state db z c = elim (Option-cases (Dict.get db.sessions s)) [
  | inr (row, old) ↦ rw (old, create_session) c
  | inl new ↦
      rw (new, create_session)
        (record {
          unique = c.unique;
          calls = c.calls;
          revisions = λ j row h. ground (
            arith,
            Dict.get-insert db.sessions s j
                (record { revision = state.revision; state_json = state }),
            c.revisions j row,
          );
        })
]

-- A stored response is never lost or changed by a later commit, of whatever session and request.
pub get_replay-commit_turn :
    (s r : String) (t : Turn) (db : Tables) (x : ResponsePayload)
    → get_replay s r db ≡ some x
    → get_replay s r (commit_turn t db).1 ≡ some x
unfolding get_replay
get_replay-commit_turn s r t db x h = elim (commit_turn_cases t db) [
  | inl (w, e) ↦ rw e (find_response-append_old s r db.turns (row_of t ∷ []) x h)
  | inr (inl (y, stored, e)) ↦ rw e h
  | inr (inr (error, e)) ↦ rw e h
]

-- What a commit returns is what the table now has under its session and request.
pub get_replay-commit_turn_self :
    (t : Turn) (db : Tables) (x : ResponsePayload)
    → (commit_turn t db).0 ≡ ok x
    → get_replay t.session_id t.request_id (commit_turn t db).1 ≡ some x
unfolding get_replay row_of is_turn
get_replay-commit_turn_self t db x h = elim (commit_turn_cases t db) [
  | inl (w, e) ↦
      ground
        (arith, e, find_response-append_new t.session_id t.request_id db.turns (row_of t) w.fresh)
  | inr (inl (y, stored, e)) ↦ ground (arith, e)
  | inr (inr (error, e)) ↦ ground (arith, e)
]

-- A commit touches no session but its own.
pub commit_turn_frame :
    (t : Turn) (db : Tables) (s : String)
    → s ≢ t.session_id
    → Dict.get (commit_turn t db).1.sessions s ≡ Dict.get db.sessions s
commit_turn_frame t db s ne = elim (commit_turn_cases t db) [
  | inl (w, e) ↦ ground (
    arith,
    e,
    Dict.get-insert db.sessions t.session_id s
        (record { revision = t.state.revision; state_json = t.state }),
  )
  | inr (inl (y, stored, e)) ↦ rw e
  | inr (inr (error, e)) ↦ rw e
]

-- The session is still there, at the same revision or at the next one.
abbrev pub Advances : String → SessionRow → Tables → Type 0
Advances s row db =
    (row' : SessionRow) × (Dict.get db.sessions s ≡ some row')
    × (row.revision ≤ row'.revision)
    × (row'.revision ≤ row.revision + 1)

pub commit_turn-Advances :
    (t : Turn) (db : Tables) (s : String) (row : SessionRow)
    → Dict.get db.sessions s ≡ some row
    → Advances s row (commit_turn t db).1
commit_turn-Advances t db s row h = elim (commit_turn_cases t db) [
  | inl (w, e) ↦ rw e (written_advances w)
  | inr (inl (y, stored, e)) ↦ rw e (row, h, omega arith, omega arith)
  | inr (inr (error, e)) ↦ rw e (row, h, omega arith, omega arith)
]
  where
    written_advances : Writes t db → Advances s row (written t db)
    written_advances w = elim (string_eq.dec s t.session_id) [
      | yes same ↦ (
        record { revision = t.state.revision; state_json = t.state },
        simp Dict.get-insert (ground arith),
        ground (arith, w.found, w.current, w.next),
        ground (arith, w.found, w.current, w.next),
      )
      | no other ↦ (row, simp Dict.get-insert (ground arith), omega arith, omega arith)
    ]

pub create_session-Advances :
    (sid : String) (state : StatePayload) (db : Tables) (s : String) (row : SessionRow)
    → Dict.get db.sessions s ≡ some row
    → Advances s row (create_session sid state db).1
unfolding create_session
create_session-Advances sid state db s row h = (
  row,
  ground (
    arith,
    Dict.get-insert db.sessions sid s (record { revision = state.revision; state_json = state }),
  ),
  omega arith,
  omega arith,
)
