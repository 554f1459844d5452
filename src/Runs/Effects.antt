-- ===== src/Runs/Effects.antt =====
-- What a method leaves in the database: one row written, the other runs kept.
use deeprun.Prelude.{ℕ, ◌≡◌, refl, sym, ◌∙◌, true, false, List, Option, some, ◌==◌, ==_refl}
use mathlib.Core.Path.{subst}
use deeprun.Lifecycle.{Status}
use deeprun.Lifecycle.Graph.{run_edge}
use deeprun.Runs.Db.{
  Error, Run, Step, Db, M, ok, err, pure, ◌>>=◌, ◌>>◌, set_at, invalid_transition,
}
use deeprun.Runs.Store.{RunPatch, patched, has_assignments, update_lifecycle_run}
use deeprun.Runs.Service.{assert_transition}

pub record Writes (id : ℕ) (r : Run) (steps : List Step) (db db' : Db) : Type 0 where
  pub stored : db'.runs id ≡ some r
  pub frame : (j : ℕ) → (j == id) ≡ false → db'.runs j ≡ db.runs j
  pub steps_eq : db'.steps ≡ steps
  pub now_eq : db'.now ≡ db.now

-- `m` returns `a` and leaves `r` at `id` and the steps `steps`.
abbrev pub Does : {A : Type 0} → M A → A → ℕ → Run → List Step → Db → Type 0
Does m a id r steps db = (db' : Db) × (m db ≡ ok (a, db')) × Writes id r steps db db'

pub Does-pure :
    {A : Type 0} (a : A) (id : ℕ) (r : Run) (db : Db)
    → db.runs id ≡ some r
    → Does (pure a) a id r db.steps db
Does-pure a id r db h =
    (db, refl, record { stored = h; frame = λ j e. refl; steps_eq = refl; now_eq = refl })

pub Does-update :
    (id : ℕ) (p : RunPatch) (r : Run) (db : Db)
    → has_assignments p ≡ true
    → db.runs id ≡ some r
    → Does
        (update_lifecycle_run id p)
        (some (patched p db.now r))
        id
        (patched p db.now r)
        db.steps
        db
unfolding update_lifecycle_run
Does-update id p r db a h = (
  record db { runs = set_at id (patched p db.now r) db.runs },
  rw a (rw h),
  record { stored = rw (==_refl id); frame = λ j e. rw e; steps_eq = refl; now_eq = refl },
)

pub Writes-trans :
    {id : ℕ} {r r' : Run} {steps steps' : List Step} {a b c : Db}
    → Writes id r steps a b
    → Writes id r' steps' b c
    → Writes id r' steps' a c
Writes-trans w w' = record {
  stored = w'.stored;
  frame = λ j h. w'.frame j h ∙ w.frame j h;
  steps_eq = w'.steps_eq;
  now_eq = w'.now_eq ∙ w.now_eq;
}

pub Does-bind :
    {A B : Type 0} (m : M A) (f : A → M B) {a : A} {b : B} {id : ℕ} {r r' : Run}
    {steps steps' : List Step} (db : Db)
    → Does m a id r steps db
    → ((db' : Db)
        → db'.runs id ≡ some r
        → db'.steps ≡ steps
        → db'.now ≡ db.now
        → Does (f a) b id r' steps' db')
    → Does (m >>= f) b id r' steps' db
Does-bind m f {a = a} db (db', e, w) k =
    let (db'', e', w') = k db' w.stored w.steps_eq w.now_eq in
    (db'', rw (e, ◌>>=◌) e', Writes-trans w w')

pub assert_transition_ok :
    (a b : Status) (db : Db) → run_edge a b ≡ true → assert_transition a b db ≡ ok (tt, db)
unfolding assert_transition
assert_transition_ok a b db h = rw h

pub assert_transition_err :
    (a b : Status) (db : Db)
    → run_edge a b ≡ false
    → assert_transition a b db ≡ err (invalid_transition a b)
unfolding assert_transition
assert_transition_err a b db h = rw h

pub Does-assert :
    {A : Type 0} (a b : Status) (m : M A) {x : A} {id : ℕ} {r : Run} {steps : List Step} (db : Db)
    → run_edge a b ≡ true
    → Does m x id r steps db
    → Does (assert_transition a b >> m) x id r steps db
Does-assert a b m db e (db', f, w) = (db', rw (assert_transition_ok a b db e, ◌>>=◌, ◌>>◌) f, w)

-- An update and what follows it.
pub Does-write :
    {B : Type 0} (id : ℕ) (p : RunPatch) (r : Run) (db : Db) (f : Option Run → M B) {b : B}
    {r' : Run} {steps' : List Step}
    → has_assignments p ≡ true
    → db.runs id ≡ some r
    → ((db' : Db)
        → db'.runs id ≡ some (patched p db.now r)
        → db'.steps ≡ db.steps
        → db'.now ≡ db.now
        → Does (f (some (patched p db.now r))) b id r' steps' db')
    → Does (update_lifecycle_run id p >>= f) b id r' steps' db
Does-write id p r db f a h k =
    Does-bind (update_lifecycle_run id p) f db (Does-update id p r db a h) k

-- A lemma about the row at a run's own id, used at the key where the run is stored.
pub Does-at :
    {A : Type 0} (m : M A) {a : A} {k id : ℕ} {r r' : Run} {steps : List Step} (db : Db)
    → k ≡ id
    → (db.runs k ≡ some r → Does m a k r' steps db)
    → db.runs id ≡ some r
    → Does m a id r' steps db
Does-at m {a} {r} {r'} {steps} db e lemma_at h =
    subst (λ j. Does m a j r' steps db) e (lemma_at (subst (λ j. db.runs j ≡ some r) (sym e) h))

-- A later throw.
pub Does-throws :
    {A B : Type 0} (m : M A) (f : A → M B) {a : A} {id : ℕ} {r : Run} {steps : List Step}
    {x : Error} (db : Db)
    → Does m a id r steps db
    → ((db' : Db) → db'.runs id ≡ some r → db'.now ≡ db.now → f a db' ≡ err x)
    → (m >>= f) db ≡ err x
Does-throws m f {a = a} db (db', e, w) k = rw (e, ◌>>=◌) (k db' w.stored w.now_eq)
