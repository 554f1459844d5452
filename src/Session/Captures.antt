-- ===== src/Session/Captures.antt =====
-- Beginning a step, reading and staging (agent/fs/file-session.ts): the files are kept, and every
-- staged change holds what its file had.
use deeprun.Prelude.{
  ◌≡◌, refl, ap, ◌∙◌, Bool, true, false, not, ◌&&◌, List, [], ◌∷◌, ◌++◌, Option, none, some, Text,
  All, ◌⊎◌, inl, inr, Bool-cases, text_eq, text_eq→eq, starts_with, codes, arith, if◌then◌else◌,
}
use deeprun.Session.Model.{
  Platform, ProposedFileChange, StagedFileChange, ActiveStep, Session, Result, ok, err, Error,
  unsafe_path, already_applied, invalid_change, guard, schema_accepts,
}
use deeprun.Session.Disk.{
  FileReadResult, resolved_path, safe_resolve_path, read_from_disk, read_content,
}
use deeprun.Session.Staging.{
  get_staged, set_staged, existing_of, check_change, staged_change, add_staged, stage_change,
  normalize_relative_path, set_snapshot, with_step,
}
use deeprun.Session.Backups.{Captured}
use deeprun.Session.Transaction.{Staging, require_active_step_lem}

-- A step is open: active, not applied, with changes read from the files as they are.
abbrev pub Open : Platform → Session → Type 0
Open platform s = (step : ActiveStep) × Staging platform step s

-- The step stays open, and the files stay as they are.
abbrev pub StaysOpen : {A : Type 0} → Platform → Session → Result A × Session → Type 0
StaysOpen platform s (r, s') = Open platform s' × (s'.disk ≡ s.disk)

pub safe_resolve_path-cases :
    (platform : Platform) (root relative : Text)
    → (safe_resolve_path platform root relative ≡ ok (resolved_path platform root relative))
      ⊎ (safe_resolve_path platform root relative ≡ err unsafe_path)
unfolding safe_resolve_path
safe_resolve_path-cases platform root relative =
    let candidate = resolved_path platform root relative in
    let outside =
      not (text_eq candidate (platform.resolve root []))
      && not (starts_with (platform.resolve root [] ++ codes "/") candidate) in
    elim (Bool-cases outside) [ inl h ↦ inr (rw h refl) | inr h ↦ inl (rw h refl) ]

pub Result-cases :
    {A : Type 0} → (r : Result A) → ((a : A) × (r ≡ ok a)) ⊎ ((e : Error) × (r ≡ err e))
Result-cases (ok a) = inl (a, refl)
Result-cases (err e) = inr (e, refl)

module _ (platform : Platform) (root : Text) (base : Text → Option Text) where
  OptionCaptured : Text → Option StagedFileChange → Type 0
  OptionCaptured path none = Unit
  OptionCaptured path (some c) = Captured platform root base c × (c.path ≡ path)

  if-Captured :
      (path : Text) (c : StagedFileChange) (o : Option StagedFileChange)
      → Captured platform root base c
      → OptionCaptured path o
      → OptionCaptured path (if text_eq c.path path then some c else o)
  unfolding OptionCaptured
  if-Captured path c o one rest = elim (Bool-cases (text_eq c.path path)) [
    | inl same ↦ rw same (one, text_eq→eq c.path path same)
    | inr other ↦ rw other rest
  ]

  get_staged-Captured :
      (path : Text) (cs : List StagedFileChange)
      → All (Captured platform root base) cs
      → OptionCaptured path (get_staged path cs)
  unfolding get_staged OptionCaptured
  get_staged-Captured path [] captured = tt
  get_staged-Captured path (c ∷ cs) (one, captured) =
      if-Captured path c (get_staged path cs) one (get_staged-Captured path cs captured)

  if-All :
      (b : Bool) (xs ys : List StagedFileChange)
      → All (Captured platform root base) xs
      → All (Captured platform root base) ys
      → All (Captured platform root base) (if b then xs else ys)
  if-All true xs ys h k = h
  if-All false xs ys h k = k

  set_staged-Captured :
      (c : StagedFileChange) (cs : List StagedFileChange)
      → Captured platform root base c
      → All (Captured platform root base) cs
      → All (Captured platform root base) (set_staged c cs)
  unfolding set_staged
  set_staged-Captured c [] one captured = (one, tt)
  set_staged-Captured c (d ∷ ds) one (two, captured) =
      if-All (text_eq d.path c.path) (c ∷ ds) (d ∷ set_staged c ds) (one, captured)
        (two, set_staged-Captured c ds one captured)

-- The file at the path is text, if it can be read: reading it gives what it holds.
abbrev pub HoldsText : Platform → Text → Option Text → Type 0
HoldsText platform path none = Unit
HoldsText platform path (some held) =
    (platform.read_text path held ≡ none) ⊎ (platform.read_text path held ≡ some held)

-- The read throws, or finds this content.
abbrev Finds : Result FileReadResult → Option Text → Type 0
Finds (err e) content = Unit
Finds (ok found) content = found.content ≡ content

read_content-Finds :
    (platform : Platform) (path : Text) (o : Option Text)
    → HoldsText platform path o
    → Finds (read_content platform path o) o
read_content-Finds platform path none h = refl
read_content-Finds platform path (some held) (inl h) = rw h tt
read_content-Finds platform path (some held) (inr h) = rw h refl

-- What is found for a path is what its file holds.
existing_of-Finds :
    (platform : Platform) (s : Session) (path : Text) (o : Option StagedFileChange)
    → HoldsText platform
        (resolved_path platform s.project_root path)
        (s.disk.files (resolved_path platform s.project_root path))
    → OptionCaptured platform s.project_root s.disk.files path o
    → Finds
        (existing_of platform (resolved_path platform s.project_root path) o s)
        (s.disk.files (resolved_path platform s.project_root path))
unfolding OptionCaptured read_from_disk
existing_of-Finds platform s path none text h =
    read_content-Finds platform (resolved_path platform s.project_root path)
      (s.disk.files (resolved_path platform s.project_root path)) text
existing_of-Finds platform s path (some c) text ((at, e), same) =
    e ∙ ap s.disk.files (at ∙ ap (resolved_path platform s.project_root) same)

-- The step stays open when the method throws before it writes.
thrown :
    (A : Type 0) (platform : Platform) (step : ActiveStep) (s : Session) (e : Error)
    → Staging platform step s
    → StaysOpen {A = A} platform s (err e, s)
thrown A platform step s e staging = ((step, staging), refl)

-- The session that a staged change leaves.
abbrev after_staging : Text → StagedFileChange → ActiveStep → Session → Session
after_staging path staged step s =
    set_snapshot path staged.next_content_hash (with_step (some (add_staged staged step)) s)

staged_here :
    (platform : Platform) (step : ActiveStep) (s : Session) (path : Text)
    → (staged : StagedFileChange) → Staging platform step s
    → Captured platform s.project_root s.disk.files staged
    → StaysOpen {A = StagedFileChange} platform s (ok staged, after_staging path staged step s)
staged_here platform step s path staged (at, (fresh, captured)) one = (
  (
    add_staged staged step,
    (
      refl,
      (
        fresh,
        set_staged-Captured platform s.project_root s.disk.files staged step.staged_changes one
            captured,
      ),
    ),
  ),
  refl,
)

staged_change-Captured :
    (platform : Platform) (change : ProposedFileChange) (s : Session) (path : Text)
    (existing : FileReadResult)
    → existing.content ≡ s.disk.files (resolved_path platform s.project_root path)
    → Captured platform s.project_root s.disk.files
        (staged_change platform change path (resolved_path platform s.project_root path) existing)
unfolding staged_change
staged_change-Captured platform change s path existing found = (refl, found)

guard_lem : (b : Bool) (e : Error) (s : Session) → b ≡ false → guard (not b) e s ≡ (ok tt, s)
guard_lem true e s h = ground arith
guard_lem false e s h = refl

found-Finds :
    (r : Result FileReadResult) (found : FileReadResult) (content : Option Text)
    → r ≡ ok found
    → Finds r content
    → found.content ≡ content
found-Finds r found content e h = rw e at h

-- Staging a change, whatever comes of it, changes no file and leaves a step open of which every
-- staged change holds what its file has.
pub stage_change-StaysOpen :
    (platform : Platform) (change : ProposedFileChange) (s : Session)
    → ((p : Text) → HoldsText platform p (s.disk.files p))
    → Open platform s
    → StaysOpen platform s (stage_change platform change s)
unfolding stage_change
stage_change-StaysOpen platform change s text (step, staging) =
    let path = normalize_relative_path change.path in
    let absolute = resolved_path platform s.project_root path in
    let prior = get_staged path step.staged_changes in
    let captured =
      get_staged-Captured platform s.project_root s.disk.files path step.staged_changes
        staging.1.1 in
    rw
      (
        require_active_step_lem step s staging.0,
        guard_lem step.applied already_applied s staging.1.0,
      )
      (elim (Bool-cases (schema_accepts change)) [
        | inr h ↦ rw h (thrown StagedFileChange platform step s invalid_change staging)
        | inl h ↦ rw h (elim (safe_resolve_path-cases platform s.project_root path) [
          | inr e ↦ rw e (thrown StagedFileChange platform step s unsafe_path staging)
          | inl e ↦ rw e (elim (Result-cases (existing_of platform absolute prior s)) [
            | inr (error, e') ↦ rw e' (thrown StagedFileChange platform step s error staging)
            | inl (existing, e') ↦ rw e' (elim (Result-cases (check_change change existing)) [
              | inr (error, e'') ↦ rw e'' (thrown StagedFileChange platform step s error staging)
              | inl (u, e'') ↦ rw e'' (
                  staged_here platform step s path
                    (staged_change platform change path absolute existing) staging
                    (staged_change-Captured platform change s path existing (
                      found-Finds (existing_of platform absolute prior s) existing
                        (s.disk.files absolute) e'
                        (existing_of-Finds platform s path prior (text absolute) captured))))
            ])
          ])
        ])
      ])
