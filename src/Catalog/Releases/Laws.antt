-- ===== src/Catalog/Releases/Laws.antt =====
-- One release is active, the pointer names it, and a release that can be loaded stays as it is.
use role_model_helper_v.Prelude.{
  String, Bool, true, false, ◌≡◌, refl, sym, ◌∙◌, ◌≢◌, ◌↔◌, ◌⊎◌, inl, inr, Option, none, some, [],
  ◌∷◌, any, arith, Option-cases, Bool-cases, string_eq, ◌==◌, if◌then◌else◌,
}
use role_model_helper_v.Prelude.Dict
use role_model_helper_v.Prelude.Dict.{Dict}
use role_model_helper_v.Catalog.Bundle.{Document, CatalogBundle, from_mapping}
use role_model_helper_v.Catalog.Releases.Rows.{keys_collide}
use role_model_helper_v.Catalog.Releases.{
  Status, staging, active, retired, Release, Releases, published, refused, is_active, is_staging,
  set_status, retire, active_at, has_active, publish, active_version, loadable, load,
}

-- The pointer names a release that is active, no other release is, and none is being staged.
pub record IsPointed (db : Releases) : Type 0 where
  pub pointed : (v : String) → db.pointer ≡ some v → active_at db.releases v ≡ true
  pub only : (v : String) → active_at db.releases v ≡ true → db.pointer ≡ some v
  pub settled :
      (v : String) (r : Release) → Dict.get db.releases v ≡ some r → is_staging r.status ≡ false

-- What an update makes of the row of its version.
abbrev changed : (Status → Bool) → Status → Option Release → Option Release
changed test to none = none
changed test to (some r) = if test r.status then some (record r { status = to }) else some r

set_status-get :
    (test : Status → Bool) (to : Status) (v j : String) (d : Dict String Release)
    → Dict.get (set_status test to v d) j
      ≡ (if j == v then changed test to (Dict.get d v) else Dict.get d j)
unfolding set_status
set_status-get test to v j d = elim (Option-cases (Dict.get d v)) [
  | inl gone ↦ ground (arith, gone)
  | inr (r, there) ↦ elim (Bool-cases (test r.status)) [
    | inl hit ↦ ground (arith, there, hit, Dict.get-insert d v j (record r { status = to }))
    | inr miss ↦ ground (arith, there, miss)
  ]
]

retire-get :
    (pointer : Option String) (j : String) (d : Dict String Release)
    → Dict.get (retire pointer d) j ≡ elim pointer [
      | none ↦ Dict.get d j
      | some p ↦ if j == p then changed is_active retired (Dict.get d p) else Dict.get d j
    ]
unfolding retire
retire-get none j d = refl
retire-get (some p) j d = set_status-get is_active retired p j d

any-false :
    (p : String → Bool) (d : Dict String Release)
    → ((v : String) → p v ≡ false)
    → any (λ ((v, r) : String × Release). p v) d ≡ false
any-false p [] h = refl
any-false p ((v, r) ∷ d) h = ground (arith, h v, any-false p d h)

abbrev staged : String → Document → Releases → Dict String Release
staged sha document db =
    Dict.insert document.version
      (record { source_sha256 = sha; status = staging; document = document }) db.releases

-- Nothing is active after the previous release was retired.
retired_all :
    (sha : String) (document : Document) (db : Releases)
    → IsPointed db
    → (v : String) → active_at (retire db.pointer (staged sha document db)) v ≡ false
unfolding active_at is_active
retired_all sha document db i v = ground (
  arith,
  i.only v,
  retire-get db.pointer v (staged sha document db),
  Dict.get-insert db.releases document.version v
      (record { source_sha256 = sha; status = staging; document = document }),
)

-- The tables after a publication.
abbrev activated : String → Document → Releases → Releases
activated sha document db = record {
  releases =
      set_status is_staging active document.version (retire db.pointer (staged sha document db));
  pointer = some document.version;
}

-- A publication of a version that is new succeeds if no keys of its rows collide; any other changes
-- nothing.
publish_cases :
    (sha : String) (document : Document) (db : Releases)
    → IsPointed db
    → ((Dict.get db.releases document.version ≡ none)
        × (keys_collide document ≡ false)
        × (publish sha document db
            ≡ (published document.version db.pointer, activated sha document db)))
      ⊎ (((Dict.get db.releases document.version ≢ none) ⊎ (keys_collide document ≡ true))
          × (publish sha document db ≡ (refused document.version, db)))
unfolding publish has_active
publish_cases sha document db i = elim (Option-cases (Dict.get db.releases document.version)) [
  | inr (r, there) ↦ inr (inl (λ q. ground (arith, there, q)), ground (arith, there))
  | inl new ↦ elim (Bool-cases (keys_collide document)) [
    | inl collide ↦ inr (inr collide, rw (new, collide, publish))
    | inr apart ↦ inl (
      new,
      apart,
      ground (
        arith,
        new,
        apart,
        any-false (active_at (retire db.pointer (staged sha document db)))
            (retire db.pointer (staged sha document db)) (retired_all sha document db i),
      ),
    )
  ]
]

-- The rows after a publication: the new one is active, the previous one retired, the others as
-- they were.
activated-get :
    (sha : String) (document : Document) (db : Releases) (j : String)
    → Dict.get (activated sha document db).releases j ≡ (
        if j == document.version
        then changed is_staging active
            (Dict.get (retire db.pointer (staged sha document db)) document.version)
        else Dict.get (retire db.pointer (staged sha document db)) j)
activated-get sha document db j =
    set_status-get is_staging active document.version j (retire db.pointer (staged sha document db))

staged-get :
    (sha : String) (document : Document) (db : Releases) (j : String)
    → Dict.get (staged sha document db) j ≡ (
        if j == document.version
        then some (record { source_sha256 = sha; status = staging; document = document })
        else Dict.get db.releases j)
staged-get sha document db j = Dict.get-insert db.releases document.version j _

new_row :
    (sha : String) (document : Document) (db : Releases)
    → IsPointed db
    → Dict.get db.releases document.version ≡ none
    → Dict.get (activated sha document db).releases document.version
      ≡ some (record { source_sha256 = sha; status = active; document = document })
unfolding is_staging is_active active_at
new_row sha document db i new = ground (
  arith,
  new,
  i.pointed document.version,
  activated-get sha document db document.version,
  retire-get db.pointer document.version (staged sha document db),
  staged-get sha document db document.version,
)

old_row :
    (sha : String) (document : Document) (db : Releases) (j : String)
    → j ≢ document.version
    → Dict.get (activated sha document db).releases j ≡ Dict.get (retire db.pointer db.releases) j
old_row sha document db j other = ground (
  arith,
  other,
  activated-get sha document db j,
  retire-get db.pointer j (staged sha document db),
  retire-get db.pointer j db.releases,
  staged-get sha document db j,
)

retired_old :
    (db : Releases)
    → IsPointed db
    → (v : String) → active_at (retire db.pointer db.releases) v ≡ false
unfolding active_at is_active
retired_old db i v = ground (arith, i.only v, retire-get db.pointer v db.releases)

retired_settled :
    (db : Releases)
    → IsPointed db
    → (v : String) (r : Release) → Dict.get (retire db.pointer db.releases) v ≡ some r
    → is_staging r.status ≡ false
unfolding is_staging is_active
retired_settled db i v r h = elim (Option-cases (Dict.get db.releases v)) [
  | inl gone ↦ absurd (ground (arith, gone, h, retire-get db.pointer v db.releases))
  | inr (q, there) ↦
      ground (arith, there, h, i.settled v q there, retire-get db.pointer v db.releases)
]

activated-IsPointed :
    (sha : String) (document : Document) (db : Releases)
    → IsPointed db
    → Dict.get db.releases document.version ≡ none
    → IsPointed (activated sha document db)
unfolding active_at is_active is_staging
activated-IsPointed sha document db i new = record {
  pointed = λ v p. ground (arith, new_row sha document db i new, p);
  only = λ v p. elim (string_eq.dec v document.version) [
    | yes e ↦ ground (arith, e)
    | no e ↦ absurd (ground (arith, e, p, old_row sha document db v e, retired_old db i v))
  ];
  settled = λ v r p. elim (string_eq.dec v document.version) [
    | yes e ↦ ground (arith, e, p, new_row sha document db i new)
    | no e ↦ retired_settled db i v r (sym (old_row sha document db v e) ∙ p)
  ];
}

kept_row :
    (sha : String) (document : Document) (db : Releases) (v : String) (b : CatalogBundle)
    → IsPointed db
    → Dict.get db.releases document.version ≡ none
    → load v db ≡ some b
    → load v (activated sha document db) ≡ some b
unfolding load loadable is_staging is_active
kept_row sha document db v b i new h =
    ground (arith, new, h, old_row sha document db v, retire-get db.pointer v db.releases)

-- Every publication keeps the releases in order: the pointer names the one release that is active,
-- and none is left in staging.
pub publish-IsPointed :
    (sha : String) (document : Document) (db : Releases)
    → IsPointed db
    → IsPointed (publish sha document db).1
publish-IsPointed sha document db i = elim (publish_cases sha document db i) [
  | inl (new, apart, e) ↦ rw e (activated-IsPointed sha document db i new)
  | inr (old, e) ↦ rw e i
]

-- While the releases are in order, a publication is refused, with the error that its version exists,
-- exactly if its version exists or two of its rows have the same primary key.
pub publish_refused :
    (sha : String) (document : Document) (db : Releases)
    → IsPointed db
    → ((publish sha document db).0 ≡ refused document.version)
      ↔ ((Dict.get db.releases document.version ≢ none) ⊎ (keys_collide document ≡ true))
publish_refused sha document db i = elim (publish_cases sha document db i) [
  | inl (new, apart, e) ↦ (
    λ h. absurd (ground (arith, e, h)),
    λ n. elim n [
      | inl old ↦ absurd (old new)
      | inr collide ↦ absurd (ground (arith, apart, collide))
    ],
  )
  | inr (why, e) ↦ (λ h. why, λ n. rw e refl)
]

-- When the releases are in order, the version of a document is new and no two of its rows have the
-- same primary key, then after its publication the pointer names that version, and loading it gives
-- the bundle of the document.
pub load-publish :
    (sha : String) (document : Document) (db : Releases)
    → IsPointed db
    → Dict.get db.releases document.version ≡ none
    → keys_collide document ≡ false
    → (active_version (publish sha document db).1 ≡ some document.version)
      × (load document.version (publish sha document db).1 ≡ some (from_mapping document))
unfolding load loadable active_version is_staging
load-publish sha document db i new apart = elim (publish_cases sha document db i) [
  | inr (inl old, e) ↦ absurd (old new)
  | inr (inr collide, e) ↦ absurd (ground (arith, apart, collide))
  | inl (fresh, apart', e) ↦ rw e (refl, ground (arith, new_row sha document db i new))
]

-- While the releases are in order, a release that can be loaded gives the same bundle after the
-- publication of any document.
pub load-publish_old :
    (sha : String) (document : Document) (db : Releases) (v : String) (b : CatalogBundle)
    → IsPointed db
    → load v db ≡ some b
    → load v (publish sha document db).1 ≡ some b
load-publish_old sha document db v b i h = elim (publish_cases sha document db i) [
  | inr (old, e) ↦ rw e h
  | inl (new, apart, e) ↦ rw e (kept_row sha document db v b i new h)
]

abbrev pub no_releases : Releases
no_releases = record { releases = []; pointer = none }

pub no_releases-IsPointed : IsPointed no_releases
unfolding active_at Dict.get
no_releases-IsPointed = record {
  pointed = λ v p. ground arith;
  only = λ v p. ground arith;
  settled = λ v r p. ground arith;
}
