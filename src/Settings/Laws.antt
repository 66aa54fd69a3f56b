-- ===== src/Settings/Laws.antt =====
-- What the check of the isolation from V1 guarantees, and what it lets through.
use role_model_helper_v.Prelude.{
  ◌≡◌, ◌≢◌, refl, ◌↔◌, ◌⊎◌, inl, inr, String, Bool, true, false, not, ◌||◌, List, [], ◌∷◌, ◌++◌,
  ◌==◌, ==-cases, ==-refl, Bool-cases, Option, none, some, list_eq, ne_of_==, ==-of_ne, nat_eq,
  string_eq, contains, arith,
}
use role_model_helper_v.Score.{Float, nan, minus, plus}
use role_model_helper_v.Text.{Text, codes, is_prefix}
use role_model_helper_v.Settings.{
  Settings, Collision, same_port, same_service, same_directory, same_state_schema,
  catalog_in_v1_state, catalog_in_v1_catalog, catalog_in_state, bad_database_dsn, bad_migration_dsn,
  bad_catalog_dsn, bad_import_dsn, unsupported_backend, missing_json_catalog, bad_refresh_interval,
  is_postgres, is_bad_dsn, not_positive, is_none, effective_catalog_dsn, when, backend_collisions,
  collisions,
}

-- A connection string that begins with one of the two schemes of PostgreSQL.
abbrev pub IsPostgres : String → Type 0
IsPostgres dsn =
    (rest : Text) × ((codes dsn ≡ codes "postgresql://" ++ rest)
      ⊎ (codes dsn ≡ codes "postgres://" ++ rest))

abbrev pub IsAbsentOrPostgres : Option String → Type 0
IsAbsentOrPostgres none = Unit
IsAbsentOrPostgres (some dsn) = (dsn ≡ "") ⊎ IsPostgres dsn

-- Not zero or less; NaN is neither.
abbrev pub IsPositive : Float → Type 0
IsPositive nan = Unit
IsPositive (minus a) = ⊥
IsPositive (plus a) = a.num ≢ 0

is_prefix-append : (p s : Text) → is_prefix p s ≡ true → (rest : Text) × (s ≡ p ++ rest)
unfolding is_prefix
is_prefix-append [] s h = (s, refl)
is_prefix-append (c ∷ p) [] h = cc
is_prefix-append (c ∷ p) (d ∷ s) h =
    let (rest, e) = is_prefix-append p s (ground (arith, h)) in (rest, ground (arith, h, e))

append-is_prefix : (p rest : Text) → is_prefix p (p ++ rest) ≡ true
unfolding is_prefix
append-is_prefix [] rest = refl
append-is_prefix (c ∷ p) rest = rw (==-refl c, append-is_prefix p rest)

is_postgres-IsPostgres : (dsn : String) → is_postgres dsn ≡ true → IsPostgres dsn
unfolding is_postgres
is_postgres-IsPostgres dsn h = elim (Bool-cases (is_prefix (codes "postgresql://") (codes dsn))) [
  | inl p ↦ let (rest, e) = is_prefix-append (codes "postgresql://") (codes dsn) p in (rest, inl e)
  | inr n ↦
      let (rest, e) = is_prefix-append (codes "postgres://") (codes dsn) (ground (arith, n, h)) in
      (rest, inr e)
]

IsPostgres-is_postgres : (dsn : String) → IsPostgres dsn → is_postgres dsn ≡ true
unfolding is_postgres
IsPostgres-is_postgres dsn (rest, inl e) = rw (e, append-is_prefix (codes "postgresql://") rest)
IsPostgres-is_postgres dsn (rest, inr e) =
    rw e (ground (arith, append-is_prefix (codes "postgres://") rest))

is_bad_dsn-false : (dsn : Option String) → is_bad_dsn dsn ≡ false → IsAbsentOrPostgres dsn
is_bad_dsn-false none h = tt
is_bad_dsn-false (some dsn) h = elim (==-cases dsn "") [
  | inl (e, p) ↦ inl e
  | inr n ↦ inr (is_postgres-IsPostgres dsn (ground (arith, n, h)))
]

IsAbsentOrPostgres-false : (dsn : Option String) → IsAbsentOrPostgres dsn → is_bad_dsn dsn ≡ false
IsAbsentOrPostgres-false none h = refl
IsAbsentOrPostgres-false (some dsn) (inl e) = ground (arith, e)
IsAbsentOrPostgres-false (some dsn) (inr h) = rw (IsPostgres-is_postgres dsn h) (ground arith)

not_positive-false : (x : Float) → not_positive x ≡ false → IsPositive x
unfolding nat_eq
not_positive-false nan h = tt
not_positive-false (minus a) h = cc
not_positive-false (plus a) h = ground arith

IsPositive-false : (x : Float) → IsPositive x → not_positive x ≡ false
unfolding nat_eq
IsPositive-false nan h = refl
IsPositive-false (minus a) h = absurd h
IsPositive-false (plus a) h = ground arith

-- The catalog comes from PostgreSQL, or from a file that is named with its version.
abbrev pub HasSource : Settings → Type 0
HasSource s =
    ((s.catalog_backend ≡ "postgres")
      × IsPostgres (effective_catalog_dsn s)
      × IsAbsentOrPostgres s.catalog_import_dsn)
    ⊎ ((s.catalog_backend ≡ "json")
        × (is_none s.catalog_path ≡ false)
        × (is_none s.catalog_version ≡ false))

-- What the check asks for: V2 has another port, service, directory and state schema than V1, its
-- catalog is in neither schema of V1 and not in its own state schema, its connection strings are
-- of PostgreSQL, the catalog has a source, and the refresh interval is positive. That the state
-- schema is not the catalog schema of V1 is not among it.
pub record IsPermitted (resolve : String → String) (s : Settings) : Type 0 where
  pub port : s.port ≢ s.v1_port
  pub service : s.service_name ≢ s.v1_service_name
  pub directory : resolve s.install_dir ≢ resolve s.v1_install_dir
  pub state_schema : s.state_schema ≢ s.v1_state_schema
  pub catalog_state : s.catalog_schema ≢ s.v1_state_schema
  pub catalog_catalog : s.catalog_schema ≢ s.v1_catalog_schema
  pub own_schemas : s.catalog_schema ≢ s.state_schema
  pub database : IsPostgres s.database_dsn
  pub migration : IsAbsentOrPostgres s.migration_dsn
  pub source : HasSource s
  pub refresh : IsPositive s.catalog_refresh_seconds

when-nil : (b : Bool) (c : Collision) → when b c ≡ [] → b ≡ false
when-nil true c e = absurd (ground arith)
when-nil false c e = refl

append-nil_parts : (xs ys : List Collision) → xs ++ ys ≡ [] → (xs ≡ []) × (ys ≡ [])
append-nil_parts [] ys e = (refl, e)
append-nil_parts (x ∷ xs) ys e = absurd (ground arith)

-- Nothing to complain of first, nor after it.
when-nil_parts :
    (b : Bool) (c : Collision) (cs : List Collision) → when b c ++ cs ≡ [] → (b ≡ false) × (cs ≡ [])
when-nil_parts b c cs e = let (p, q) = append-nil_parts (when b c) cs e in (when-nil b c p, q)

not-false : (b : Bool) → not b ≡ false → b ≡ true
not-false true e = refl
not-false false e = cc

backends :
    (t : String)
    → not (contains ("postgres" ∷ "json" ∷ []) t) ≡ false
    → (t ≡ "postgres") ⊎ (t ≡ "json")
backends t e = elim (==-cases t "postgres") [
  | inl (same, hit) ↦ inl same
  | inr miss ↦ elim (==-cases t "json") [
    | inl (same, hit) ↦ inr same
    | inr miss' ↦ absurd (ground (arith, miss, miss'))
  ]
]

module _ (s : Settings) where
  HasSource-of_nil :
      (s.catalog_backend ≡ "postgres") ⊎ (s.catalog_backend ≡ "json")
      → backend_collisions s ≡ []
      → HasSource s
  unfolding backend_collisions string_eq
  HasSource-of_nil (inl same) e =
      let (p, q) =
        when-nil_parts (not (is_postgres (effective_catalog_dsn s))) bad_catalog_dsn _
          (rw (same, backend_collisions) at e) in
      inl (
        same,
        is_postgres-IsPostgres _ (not-false _ p),
        is_bad_dsn-false _ (when-nil _ bad_import_dsn q),
      )
  HasSource-of_nil (inr same) e =
      let missing =
        when-nil (is_none s.catalog_path || is_none s.catalog_version) missing_json_catalog
          (rw (same, backend_collisions) at e) in
      inr (same, ground (arith, missing), ground (arith, missing))

  collisions-IsPermitted :
      (resolve : String → String) → collisions resolve s ≡ [] → IsPermitted resolve s
  unfolding collisions
  collisions-IsPermitted resolve e0 =
      let (p1, e1) = when-nil_parts (s.port == s.v1_port) same_port _ e0 in
      let (p2, e2) = when-nil_parts (s.service_name == s.v1_service_name) same_service _ e1 in
      let (p3, e3) =
        when-nil_parts (resolve s.install_dir == resolve s.v1_install_dir) same_directory _ e2 in
      let (p4, e4) = when-nil_parts (s.state_schema == s.v1_state_schema) same_state_schema _ e3 in
      let (p5, e5) =
        when-nil_parts (s.catalog_schema == s.v1_state_schema) catalog_in_v1_state _ e4 in
      let (p6, e6) =
        when-nil_parts (s.catalog_schema == s.v1_catalog_schema) catalog_in_v1_catalog _ e5 in
      let (p7, e7) = when-nil_parts (s.catalog_schema == s.state_schema) catalog_in_state _ e6 in
      let (p8, e8) = when-nil_parts (not (is_postgres s.database_dsn)) bad_database_dsn _ e7 in
      let (p9, e9) = when-nil_parts (is_bad_dsn s.migration_dsn) bad_migration_dsn _ e8 in
      let (p10, e10) = when-nil_parts _ unsupported_backend _ e9 in
      let (p11, e11) = append-nil_parts (backend_collisions s) _ e10 in
      record {
        port = ne_of_== _ _ p1;
        service = ne_of_== _ _ p2;
        directory = ne_of_== _ _ p3;
        state_schema = ne_of_== _ _ p4;
        catalog_state = ne_of_== _ _ p5;
        catalog_catalog = ne_of_== _ _ p6;
        own_schemas = ne_of_== _ _ p7;
        database = is_postgres-IsPostgres _ (not-false _ p8);
        migration = is_bad_dsn-false _ p9;
        source = HasSource-of_nil (backends s.catalog_backend p10) p11;
        refresh = not_positive-false _ (when-nil _ bad_refresh_interval e11);
      }

  backend_collisions-nil : HasSource s → backend_collisions s ≡ []
  unfolding backend_collisions string_eq
  backend_collisions-nil (inl (same, dsn, import_dsn)) = rw (
    same,
    IsPostgres-is_postgres _ dsn,
    IsAbsentOrPostgres-false _ import_dsn,
    backend_collisions,
  )
  backend_collisions-nil (inr (same, path, version)) = rw (same, path, version, backend_collisions)

  supported : HasSource s → not (contains ("postgres" ∷ "json" ∷ []) s.catalog_backend) ≡ false
  unfolding string_eq
  supported (inl (same, dsn, h)) = rw same
  supported (inr (same, given_path, h)) = rw same

  IsPermitted-collisions :
      (resolve : String → String) → IsPermitted resolve s → collisions resolve s ≡ []
  unfolding collisions
  IsPermitted-collisions resolve h = rw (
    ==-of_ne _ _ h.port,
    ==-of_ne _ _ h.service,
    ==-of_ne _ _ h.directory,
    ==-of_ne _ _ h.state_schema,
    ==-of_ne _ _ h.catalog_state,
    ==-of_ne _ _ h.catalog_catalog,
    ==-of_ne _ _ h.own_schemas,
    IsPostgres-is_postgres _ h.database,
    IsAbsentOrPostgres-false _ h.migration,
    supported h.source,
    backend_collisions-nil h.source,
    IsPositive-false _ h.refresh,
  )

  pub collisions-nil :
      (resolve : String → String) → (collisions resolve s ≡ []) ↔ IsPermitted resolve s
  collisions-nil resolve = (collisions-IsPermitted resolve, IsPermitted-collisions resolve)

-- Settings that pass the check pass it too if the schema of V1's catalog is the very schema in
-- which V2 keeps its state: this collision is not looked for.
pub collisions_state_in_v1_catalog :
    (s : Settings) (resolve : String → String)
    → collisions resolve s ≡ []
    → collisions resolve (record s { v1_catalog_schema = s.state_schema }) ≡ []
collisions_state_in_v1_catalog s resolve e =
    let h = collisions-IsPermitted s resolve e in
    IsPermitted-collisions (record s { v1_catalog_schema = s.state_schema }) resolve
      (record {
        port = h.port;
        service = h.service;
        directory = h.directory;
        state_schema = h.state_schema;
        catalog_state = h.catalog_state;
        catalog_catalog = h.own_schemas;
        own_schemas = h.own_schemas;
        database = h.database;
        migration = h.migration;
        source = h.source;
        refresh = h.refresh;
      })
