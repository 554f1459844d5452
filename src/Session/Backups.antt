-- ===== src/Session/Backups.antt =====
-- The backups of the staged changes, by path (agent/fs/file-session.ts `applyStepChanges`).
use deeprun.Prelude.{
  ◌≡◌, refl, sym, Bool, true, false, List, [], ◌∷◌, Option, none, some, Text, text_eq, text_eq→eq,
  text_eq_refl, All, is_some, inl, inr, Bool-cases, arith, ◌||◌, ap, ◌∙◌, if◌then◌else◌,
}
use mathlib.Core.Path.{subst}
use deeprun.Session.Model.{Platform, StagedFileChange, StepBackup, or_empty}
use deeprun.Session.Disk.{resolved_path}
use deeprun.Session.Applying.{
  get_backup, build_backups, backup_target, insert_by_path, sort_by_path,
}
use deeprun.Session.Restore.{Backed, touches}

-- The change was read where its path resolves to, and found what `base` has there.
abbrev pub Captured : Platform → Text → (Text → Option Text) → StagedFileChange → Type 0
Captured platform root base c =
    (c.absolute_path ≡ resolved_path platform root c.path)
    × (c.previous_content ≡ base c.absolute_path)

module _ (platform : Platform) (root : Text) (base : Text → Option Text) where
  -- The backup holds what `base` has where its path resolves to.
  abbrev Holds : StepBackup → Type 0
  Holds b = backup_target b ≡ base (resolved_path platform root b.path)

  abbrev backup_of : StagedFileChange → StepBackup
  backup_of c = record {
    path = c.path;
    existed = is_some c.previous_content;
    content = c.previous_content;
    content_hash = c.previous_content_hash;
  }

  some-or_empty : (o : Option Text) → (if is_some o then some (or_empty o) else none) ≡ o
  some-or_empty none = refl
  some-or_empty (some t) = refl

  backup_of-Holds : (c : StagedFileChange) → Captured platform root base c → Holds (backup_of c)
  backup_of-Holds c (at, e) = some-or_empty c.previous_content ∙ (e ∙ ap base at)

  build_backups-Holds :
      (cs : List StagedFileChange) (bs : List StepBackup)
      → All (Captured platform root base) cs
      → All Holds bs
      → All Holds (build_backups cs bs)
  unfolding build_backups
  build_backups-Holds [] bs captured holds = holds
  build_backups-Holds (c ∷ cs) bs (one, captured) holds =
      build_backups-Holds cs (backup_of c ∷ bs) captured (backup_of-Holds c one, holds)

  -- Some backup stands under the path, and it is the one for `c`.
  Found : StagedFileChange → List StepBackup → Type 0
  Found c bs = (b : StepBackup) × ((get_backup c.path bs ≡ some b) × (b.path ≡ c.path))

  Found-cons :
      (c d : StagedFileChange) (bs : List StepBackup) → Found c bs → Found c (backup_of d ∷ bs)
  unfolding Found get_backup
  Found-cons c d bs (b, (found, e)) = elim (Bool-cases (text_eq d.path c.path)) [
    | inl same ↦ (backup_of d, (rw same refl, text_eq→eq d.path c.path same))
    | inr other ↦ (b, (rw other found, e))
  ]

  Found-head : (c : StagedFileChange) (bs : List StepBackup) → Found c (backup_of c ∷ bs)
  unfolding Found get_backup
  Found-head c bs = (backup_of c, (rw (text_eq_refl c.path) refl, refl))

  Found-build :
      (c : StagedFileChange) (cs : List StagedFileChange) (bs : List StepBackup)
      → Found c bs
      → Found c (build_backups cs bs)
  unfolding build_backups
  Found-build c [] bs f = f
  Found-build c (d ∷ cs) bs f = Found-build c cs (backup_of d ∷ bs) (Found-cons c d bs f)

  All-Found :
      (cs : List StagedFileChange) (bs : List StepBackup)
      → All (λ c. Found c (build_backups cs bs)) cs
  unfolding build_backups
  All-Found [] bs = tt
  All-Found (c ∷ cs) bs =
      (Found-build c cs (backup_of c ∷ bs) (Found-head c bs), All-Found cs (backup_of c ∷ bs))

  OptionHolds : Option StepBackup → Type 0
  OptionHolds none = Unit
  OptionHolds (some b) = Holds b

  if-Holds :
      (c : Bool) (b : StepBackup) (o : Option StepBackup)
      → Holds b
      → OptionHolds o
      → OptionHolds (if c then some b else o)
  unfolding OptionHolds
  if-Holds true b o one rest = one
  if-Holds false b o one rest = rest

  get_backup-Holds :
      (path : Text) (bs : List StepBackup) → All Holds bs → OptionHolds (get_backup path bs)
  unfolding get_backup OptionHolds
  get_backup-Holds path [] holds = tt
  get_backup-Holds path (d ∷ bs) (one, holds) =
      if-Holds (text_eq d.path path) d (get_backup path bs) one (get_backup-Holds path bs holds)

  Found-Backed :
      (bs : List StepBackup)
      → All Holds bs
      → (c : StagedFileChange) → Captured platform root base c
      → Found c bs
      → Backed base bs c
  unfolding Found OptionHolds
  Found-Backed bs holds c (at, e) (b, (found, same)) =
      let held : Holds b = subst OptionHolds found (get_backup-Holds c.path bs holds) in
      (b, (found, held ∙ ap base (ap (resolved_path platform root) same ∙ sym at)))

  backed :
      (bs : List StepBackup) (cs : List StagedFileChange)
      → All Holds bs
      → All (Captured platform root base) cs
      → All (λ c. Found c bs) cs
      → All (Backed base bs) cs
  backed bs [] holds captured found = tt
  backed bs (c ∷ cs) holds (one, captured) (f, found) =
      (Found-Backed bs holds c one f, backed bs cs holds captured found)

  pub build_backups-Backed :
      (cs : List StagedFileChange)
      → All (Captured platform root base) cs
      → All (Backed base (build_backups cs [])) cs
  build_backups-Backed cs captured =
      backed (build_backups cs []) cs (build_backups-Holds cs [] captured tt) captured
        (All-Found cs [])

-- Sorting keeps what holds of every change, and the files touched.
module _ (platform : Platform) (P : StagedFileChange → Type 0) where
  if-All :
      (b : Bool) (xs ys : List StagedFileChange)
      → All P xs
      → All P ys
      → All P (if b then xs else ys)
  if-All true xs ys h k = h
  if-All false xs ys h k = k

  insert-All :
      (c : StagedFileChange) (ds : List StagedFileChange)
      → P c
      → All P ds
      → All P (insert_by_path platform c ds)
  unfolding insert_by_path
  insert-All c [] one rest = (one, tt)
  insert-All c (d ∷ ds) one (two, rest) =
      if-All (platform.locale_le c.path d.path) (c ∷ d ∷ ds) (d ∷ insert_by_path platform c ds)
        (one, (two, rest)) (two, insert-All c ds one rest)

  pub sort-All : (cs : List StagedFileChange) → All P cs → All P (sort_by_path platform cs)
  unfolding sort_by_path
  sort-All [] all = tt
  sort-All (c ∷ cs) (one, rest) = insert-All c (sort_by_path platform cs) one (sort-All cs rest)

  All-if :
      (b : Bool) (c d : StagedFileChange) (ds es : List StagedFileChange)
      → (All P es → P c × All P ds)
      → All P (if b then c ∷ d ∷ ds else d ∷ es)
      → P c × All P (d ∷ ds)
  All-if true c d ds es h all = all
  All-if false c d ds es h (two, rest) = ((h rest).0, (two, (h rest).1))

  All-insert :
      (c : StagedFileChange) (ds : List StagedFileChange)
      → All P (insert_by_path platform c ds)
      → P c × All P ds
  unfolding insert_by_path
  All-insert c [] all = all
  All-insert c (d ∷ ds) all =
      All-if (platform.locale_le c.path d.path) c d ds (insert_by_path platform c ds)
        (All-insert c ds) all

  pub All-sort : (cs : List StagedFileChange) → All P (sort_by_path platform cs) → All P cs
  unfolding sort_by_path
  All-sort [] all = tt
  All-sort (c ∷ cs) all =
      let h = All-insert c (sort_by_path platform cs) all in (h.0, All-sort cs h.1)

or_swap : (a b c d : Bool) → c ≡ (a || d) → (b || c) ≡ (a || (b || d))
or_swap a b c d e = rw e (ground arith)

touches-if :
    (b : Bool) (c d : StagedFileChange) (ds es : List StagedFileChange) (p : Text)
    → touches es p ≡ touches (c ∷ ds) p
    → touches (if b then c ∷ d ∷ ds else d ∷ es) p ≡ touches (c ∷ d ∷ ds) p
unfolding touches
touches-if true c d ds es p e = refl
touches-if false c d ds es p e =
    or_swap (text_eq p c.absolute_path) (text_eq p d.absolute_path) (touches es p) (touches ds p) e

module _ (platform : Platform) where
  touches-insert :
      (c : StagedFileChange) (ds : List StagedFileChange) (p : Text)
      → touches (insert_by_path platform c ds) p ≡ touches (c ∷ ds) p
  unfolding insert_by_path
  touches-insert c [] p = refl
  touches-insert c (d ∷ ds) p =
      touches-if (platform.locale_le c.path d.path) c d ds (insert_by_path platform c ds) p
        (touches-insert c ds p)

  touches_cons :
      (c : StagedFileChange) (ds es : List StagedFileChange) (p : Text)
      → touches ds p ≡ touches es p
      → touches (c ∷ ds) p ≡ touches (c ∷ es) p
  unfolding touches
  touches_cons c ds es p e = rw e refl

  pub touches-sort :
      (cs : List StagedFileChange) (p : Text) → touches (sort_by_path platform cs) p ≡ touches cs p
  unfolding sort_by_path
  touches-sort [] p = refl
  touches-sort (c ∷ cs) p =
      touches-insert c (sort_by_path platform cs) p
      ∙ touches_cons c (sort_by_path platform cs) cs p (touches-sort cs p)
