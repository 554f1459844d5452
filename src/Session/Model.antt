-- ===== src/Session/Model.antt =====
-- The data of agent/fs/types.ts and of the class FileSession (agent/fs/file-session.ts), and the
-- monad of its methods.
use deeprun.Prelude.{
  ℕ, Bool, true, false, ◌&&◌, ◌||◌, List, [], Option, none, some, Text, is_empty, leb, length,
  every, if◌then◌else◌, is_some, not,
}

pub data ChangeType : Type 0 where
  create update delete : ChangeType

pub record ProposedFileChange : Type 0 where
  pub path : Text
  pub type : ChangeType
  pub new_content : Option Text
  pub old_content_hash : Option Text

pub record StagedFileChange : Type 0 where
  pub path : Text
  pub type : ChangeType
  pub new_content : Option Text
  pub old_content_hash : Option Text
  pub absolute_path : Text
  pub previous_content : Option Text
  pub previous_content_hash : Option Text
  pub next_content_hash : Option Text
  pub diff_preview : Text
  pub diff_bytes : ℕ

-- NormalizedFileSessionOptions.
pub record Options : Type 0 where
  pub max_files_per_step : ℕ
  pub max_total_diff_bytes : ℕ
  pub max_file_bytes : ℕ
  pub allow_env_mutation : Bool
  pub restricted_path_prefixes : List Text

-- What the session takes from node: path.resolve, the sha256 of a text as hex digits, the length
-- of a text in UTF-8, the digits of a number, and the order of localeCompare; and what reading the
-- file at a path as UTF-8 gives of what the file holds: `none` where the read throws, and otherwise a
-- text, in which replacement characters stand for the bytes that are no UTF-8. A file that was
-- written as UTF-8 holds its text; one that is no UTF-8 holds other numbers.
pub record Platform : Type 0 where
  pub resolve : Text → Text → Text
  pub content_hash : Text → Text
  pub byte_length : Text → ℕ
  pub digits : ℕ → Text
  pub locale_le : Text → Text → Bool
  pub read_text : Text → Text → Option Text

pub data Error : Type 0 where
  step_active no_active_step already_applied invalid_change unsafe_path : Error
  exists_already missing_content no_such_file needs_hash lock_failed : Error
  validation_failed nothing_staged disk_changed write_failed meta_mismatch commit_failed : Error
  rollback_unavailable read_failed : Error

pub record StepBackup : Type 0 where
  pub path : Text
  pub existed : Bool
  pub content : Option Text
  pub content_hash : Option Text

-- `stagedChanges` and `backups` are Maps by path; the lists are in the order of insertion.
pub record ActiveStep : Type 0 where
  pub step_id : Text
  pub step_index : ℕ
  pub staged_changes : List StagedFileChange
  pub applied : Bool
  pub backups : Option (List StepBackup)

pub record AppliedStep : Type 0 where
  pub step_id : Text
  pub step_index : ℕ
  pub commit_hash : Option Text
  pub file_paths : List Text

-- The files by absolute path, and what the next writes will meet: `none` is a write that is done,
-- `some c` one that throws and leaves `c` at its path. Beyond the list every write is done.
pub record Disk : Type 0 where
  pub files : Text → Option Text
  pub faults : List (Option (Option Text))

pub record Session : Type 0 where
  pub project_root : Text
  pub options : Options
  pub applied_steps : List AppliedStep
  pub snapshot : Text → Option (Option Text)
  pub base_commit_hash : Option Text
  pub current_commit_hash : Option Text
  pub current_step : Option ActiveStep
  pub last_committed_diffs : List StagedFileChange
  pub disk : Disk

pub data Result (A : Type 0) : Type 0 where
  ok : A → Result A
  err : Error → Result A

-- A method: what it wrote before it throws stays written.
abbrev pub M : Type 0 → Type 0
M A = Session → Result A × Session

abbrev pub continue : {A B : Type 0} → Result A → (A → M B) → M B
continue (ok a) f s = f a s
continue (err e) f s = (err e, s)

infixl 5 ◌>>=◌ ◌>>◌
abbrev pub ◌>>=◌ : {A B : Type 0} → M A → (A → M B) → M B
◌>>=◌ m f s = let (r, s') = m s in continue r f s'

abbrev pub ◌>>◌ : {B : Type 0} → M (Unit {0}) → M B → M B
m >> k = m >>= λ _. k

abbrev pub pure : {A : Type 0} → A → M A
pure a s = (ok a, s)

abbrev pub throw : {A : Type 0} → Error → M A
throw e s = (err e, s)

abbrev pub guard : Bool → Error → M (Unit {0})
guard true e s = (ok tt, s)
guard false e s = (err e, s)

abbrev pub gets : {A : Type 0} → (Session → A) → M A
gets f s = (ok (f s), s)

-- What may throw and writes nothing.
abbrev pub attempt : {A : Type 0} → (Session → Result A) → M A
attempt f s = (f s, s)

abbrev pub modify : (Session → Session) → M (Unit {0})
modify f s = (ok tt, f s)

-- `a || b` on texts: null and the empty text are falsy.
abbrev pub truthy : Option Text → Bool
truthy none = false
truthy (some t) = not (is_empty t)

-- `content || null`.
abbrev pub or_null : Option Text → Option Text
or_null o = if truthy o then o else none

-- `content || ""`.
abbrev pub or_empty : Option Text → Text
or_empty none = []
or_empty (some t) = t

abbrev pub is_delete : ChangeType → Bool
is_delete delete = true
is_delete _ = false

-- The digits of /^[a-f0-9]{64}$/i.
abbrev is_hex : ℕ → Bool
is_hex c = (leb 48 c && leb c 57) || (leb 97 c && leb c 102) || (leb 65 c && leb c 70)

abbrev is_hash : Text → Bool
is_hash h = leb 64 (length h) && leb (length h) 64 && every is_hex h

abbrev optional_hash : Option Text → Bool
optional_hash none = true
optional_hash (some h) = is_hash h

abbrev refined : ChangeType → Option Text → Option Text → Bool
refined create content hash = is_some content
refined update content hash = is_some content && is_some hash
refined delete content hash = true

-- proposedFileChangeSchema.parse.
unfoldable pub schema_accepts : ProposedFileChange → Bool
schema_accepts c =
    leb 1 (length c.path)
    && leb (length c.path) 400
    && optional_hash c.old_content_hash
    && refined c.type c.new_content c.old_content_hash
