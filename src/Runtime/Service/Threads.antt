-- ===== src/Runtime/Service/Threads.antt =====
-- Requests in any number of threads, in any order: each transaction of `post_message` is one step,
-- and others may come between them. The engine is free: it may return any result, or raise.
use role_model_helper_v.Prelude.{
  ℕ, String, ◌≡◌, refl, Option, none, some, ◌==◌, nat_eq, string_eq, if◌then◌else◌, arith,
}
use role_model_helper_v.Prelude.Dict
use mathlib.Core.Logic.{if_pos, if_neg}
use mathlib.Core.Path.{subst}
use role_model_helper_v.Agent.Models.{TurnState, TurnResult, empty}
use role_model_helper_v.Runtime.Payload.{ResponsePayload, state_payload}
use role_model_helper_v.Runtime.Store.{
  Error, Result, ok, err, engine_error, Tables, SessionRow, get_replay, commit_turn,
}
use role_model_helper_v.Runtime.Store
use role_model_helper_v.Runtime.Store.Invariant.{
  IsConsistent, empty-IsConsistent, commit_turn-IsConsistent, create_session-IsConsistent,
  get_replay-commit_turn, get_replay-commit_turn_self, Advances, commit_turn-Advances,
  create_session-Advances,
}
use role_model_helper_v.Runtime.Store.Invariant as Invariant
use role_model_helper_v.Runtime.Service.{Post, Read, refused, current, read_state, turn_of}

-- Where a thread stands in `post_message`.
pub data Pc : Type 0 where
  idle : Pc
  reading : Post → Pc
  thinking : Post → TurnState → Pc
  answered : Post → Result ResponsePayload → Pc

unfoldable pub after_replay : Post → Option ResponsePayload → Pc
after_replay p none = reading p
after_replay p (some r) = answered p (ok r)

unfoldable pub after_read : Post → Read → Pc
after_read p (refused e) = answered p (err e)
after_read p (current state) = thinking p state

pub data Move (db : Tables) : Pc → Tables → Pc → Type 0 where
  look : (p : Post) → Move db idle db (after_replay p (get_replay p.session_id p.request_id db))
  read : {p : Post} → Move db (reading p) db (after_read p (read_state p db))
  raise :
      {p : Post} {state : TurnState} → Move db (thinking p state) db (answered p (err engine_error))
  commit :
      {p : Post} {state : TurnState} (result : TurnResult)
      → Move db
          (thinking p state)
          (commit_turn (turn_of p result) db).1
          (answered p (commit_turn (turn_of p result) db).0)
  next : {p : Post} {r : Result ResponsePayload} → Move db (answered p r) db idle
  create :
      (session_id : String)
      → Move db idle (Store.create_session session_id (state_payload (empty session_id)) db).1 idle

abbrev pub update : (ℕ → Pc) → ℕ → Pc → ℕ → Pc
update pc i p j = if i == j then p else pc j

pub record Shared : Type 0 where
  pub db : Tables
  pub pc : ℕ → Pc

pub data Step (s : Shared) : Shared → Type 0 where
  pick :
      (i : ℕ) {db : Tables} {p : Pc}
      → Move s.db (s.pc i) db p
      → Step s (record { db = db; pc = update s.pc i p })

pub data Reach : Shared → Type 0 where
  begin : Reach (record { db = Invariant.empty; pc = λ i. idle })
  later : {s t : Shared} → Reach s → Step s t → Reach t

get_replay-create :
    (s r sid : String) (db : Tables)
    → get_replay s r (Store.create_session sid (state_payload (empty sid)) db).1 ≡ get_replay s r db
unfolding Store.create_session get_replay
get_replay-create s r sid db = ground arith

-- No step takes a stored response back.
Move-keeps :
    {db db' : Tables} {p q : Pc} (s r : String) (x : ResponsePayload)
    → Move db p db' q
    → get_replay s r db ≡ some x
    → get_replay s r db' ≡ some x
Move-keeps s r x (look p) h = h
Move-keeps s r x read h = h
Move-keeps s r x raise h = h
Move-keeps {db} s r x (commit {p = p} result) h =
    get_replay-commit_turn s r (turn_of p result) db x h
Move-keeps s r x next h = h
Move-keeps {db} s r x (create sid) h = rw get_replay-create h

Move-IsConsistent :
    {db db' : Tables} {p q : Pc} → Move db p db' q → IsConsistent db → IsConsistent db'
unfolding state_payload empty
Move-IsConsistent (look p) c = c
Move-IsConsistent read c = c
Move-IsConsistent raise c = c
Move-IsConsistent {db} (commit {p = p} result) c = commit_turn-IsConsistent (turn_of p result) db c
Move-IsConsistent next c = c
Move-IsConsistent {db} (create sid) c =
    create_session-IsConsistent sid (state_payload (empty sid)) db refl c

-- What a thread has answered is stored.
abbrev IsStored : Tables → Pc → Type 0
IsStored db (answered p (ok r)) = get_replay p.session_id p.request_id db ≡ some r
IsStored db _ = Unit

after_read-IsStored : (db : Tables) (p : Post) (x : Read) → IsStored db (after_read p x)
unfolding after_read
after_read-IsStored db p (refused e) = tt
after_read-IsStored db p (current state) = tt

after_replay-IsStored :
    (db : Tables) (p : Post) (x : Option ResponsePayload)
    → get_replay p.session_id p.request_id db ≡ x
    → IsStored db (after_replay p x)
unfolding after_replay
after_replay-IsStored db p none e = tt
after_replay-IsStored db p (some r) e = e

answered-IsStored :
    (db : Tables) (p : Post) (x : Result ResponsePayload)
    → ((r : ResponsePayload) → x ≡ ok r → get_replay p.session_id p.request_id db ≡ some r)
    → IsStored db (answered p x)
answered-IsStored db p (ok r) h = h r refl
answered-IsStored db p (err e) h = tt

Move-IsStored_self : {db db' : Tables} {p q : Pc} → Move db p db' q → IsStored db' q
unfolding turn_of
Move-IsStored_self {db} (look p) =
    after_replay-IsStored db p (get_replay p.session_id p.request_id db) refl
Move-IsStored_self {db} (read {p = p}) = after_read-IsStored db p (read_state p db)
Move-IsStored_self raise = tt
Move-IsStored_self {db} (commit {p = p} result) =
    answered-IsStored (commit_turn (turn_of p result) db).1 p (commit_turn (turn_of p result) db).0
      (λ r e. get_replay-commit_turn_self (turn_of p result) db r e)
Move-IsStored_self next = tt
Move-IsStored_self (create sid) = tt

keep-IsStored :
    {db db' : Tables} {p q : Pc} (x : Pc) → Move db p db' q → IsStored db x → IsStored db' x
keep-IsStored (answered p (ok r)) m h = Move-keeps p.session_id p.request_id r m h
keep-IsStored (answered p (err e)) m h = tt
keep-IsStored idle m h = tt
keep-IsStored (reading p) m h = tt
keep-IsStored (thinking p s) m h = tt

pub record Inv (s : Shared) : Type 0 where
  pub consistent : IsConsistent s.db
  pub stored : (i : ℕ) → IsStored s.db (s.pc i)

Reach-Inv : {s : Shared} → Reach s → Inv s
Reach-Inv begin = record { consistent = empty-IsConsistent; stored = λ i. tt }
Reach-Inv (later {s = s} r (pick i {db = db} {p = p} m)) = record {
  consistent = Move-IsConsistent m (Reach-Inv r).consistent;
  stored = λ j. elim (nat_eq.dec i j) [
    | yes same ↦ rw (if_pos _ same) (Move-IsStored_self m)
    | no other ↦ rw (if_neg _ other) (keep-IsStored (s.pc j) m ((Reach-Inv r).stored j))
  ];
}

-- In every state that concurrent requests can reach the tables are consistent.
pub Reach-IsConsistent : {s : Shared} → Reach s → IsConsistent s.db
Reach-IsConsistent r = (Reach-Inv r).consistent

-- Exactly-once replies under concurrency: two threads that answered the same request of the same
-- session, however their transactions interleaved, gave the same response.
pub replies_agree :
    {s : Shared} (reach : Reach s) (i j : ℕ) (p q : Post) (x y : ResponsePayload)
    → s.pc i ≡ answered p (ok x)
    → s.pc j ≡ answered q (ok y)
    → p.session_id ≡ q.session_id
    → p.request_id ≡ q.request_id
    → x ≡ y
replies_agree {s} reach i j p q x y a b same_session same_request =
    ground (arith, in_store i p x a, in_store j q y b)
  where
    in_store :
        (k : ℕ) (o : Post) (z : ResponsePayload)
        → s.pc k ≡ answered o (ok z)
        → get_replay o.session_id o.request_id s.db ≡ some z
    in_store k o z e = subst (IsStored s.db) e ((Reach-Inv reach).stored k)

Move-Advances :
    {db db' : Tables} {p q : Pc} (sid : String) (row : SessionRow)
    → Move db p db' q
    → Dict.get db.sessions sid ≡ some row
    → Advances sid row db'
Move-Advances {db} sid row (commit {p = p} result) h =
    commit_turn-Advances (turn_of p result) db sid row h
Move-Advances {db} sid row (create other) h =
    create_session-Advances other (state_payload (empty other)) db sid row h
Move-Advances sid row m h = (row, h, omega arith, omega arith)

-- No step of any thread removes a session or lowers its revision, and none raises it by more than
-- one.
pub revision-Advances :
    {s t : Shared} (sid : String) (row : SessionRow)
    → Step s t
    → Dict.get s.db.sessions sid ≡ some row
    → Advances sid row t.db
revision-Advances sid row (pick i m) h = Move-Advances sid row m h
