-- ===== src/Session/Staging.antt =====
-- Staging of changes: the methods of the class FileSession from `beginStep` to `stageChange`
-- (packages/deeprun-backend/src/agent/fs/file-session.ts).
use deeprun.Prelude.{
  ℕ, Bool, true, false, not, ◌&&◌, List, [], ◌∷◌, Option, none, some, Text, text_eq,
  forward_slashes, strip_leading, if◌then◌else◌, is_some,
}
use deeprun.Session.Model.{
  ActiveStep, ChangeType, M, Platform, ProposedFileChange, Result, Session, StagedFileChange,
  already_applied, create, delete, err, exists_already, attempt, gets, guard, invalid_change,
  is_delete, lock_failed, missing_content, modify, needs_hash, no_active_step, no_such_file, ok,
  or_null, pure, schema_accepts, step_active, throw, truthy, update, ◌>>=◌, ◌>>◌,
}
use deeprun.Session.Disk.{read_from_disk, safe_resolve_path, FileReadResult}
use deeprun.Session.Diff.{build_unified_diff_preview}

unfoldable pub normalize_relative_path : Text → Text
normalize_relative_path value = strip_leading (forward_slashes value)

abbrev pub set_snapshot : Text → Option Text → Session → Session
set_snapshot path hash s = record s {
  snapshot = λ p. if text_eq p path then some hash else s.snapshot p;
}

abbrev pub with_step : Option ActiveStep → Session → Session
with_step step s = record s { current_step = step }

abbrev from_result : {A : Type 0} → Result A → M A
from_result r s = (r, s)

abbrev pub new_step : Text → ℕ → ActiveStep
new_step step_id step_index = record {
  step_id = step_id;
  step_index = step_index;
  staged_changes = [];
  applied = false;
  backups = none;
}

unfoldable pub begin_step : Text → ℕ → M (Unit {0})
begin_step step_id step_index s =
    if is_some s.current_step
    then (err step_active, s)
    else (ok tt, with_step (some (new_step step_id step_index)) s)

abbrev pub active : Option ActiveStep → M ActiveStep
active none = throw no_active_step
active (some step) = pure step

unfoldable pub require_active_step : M ActiveStep
require_active_step s = active s.current_step s

-- `stagedChanges.get` and `.set`.
unfoldable pub get_staged : Text → List StagedFileChange → Option StagedFileChange
get_staged path [] = none
get_staged path (c ∷ cs) = if text_eq c.path path then some c else get_staged path cs

unfoldable pub set_staged : StagedFileChange → List StagedFileChange → List StagedFileChange
set_staged change [] = change ∷ []
set_staged change (c ∷ cs) =
    let rest = set_staged change cs in if text_eq c.path change.path then change ∷ cs else c ∷ rest

abbrev pub staged_in : Option ActiveStep → Text → Option StagedFileChange
staged_in none path = none
staged_in (some step) path = get_staged path step.staged_changes

abbrev pub hash_of : Platform → Option Text → Option Text
hash_of platform none = none
hash_of platform (some c) = some (platform.content_hash c)

-- `type === "delete" ? null : newContent || null`
abbrev next_content : ChangeType → Option Text → Option Text
next_content type new_content = if is_delete type then none else or_null new_content

abbrev pub read_staged : Platform → StagedFileChange → FileReadResult
read_staged platform staged =
    let content = next_content staged.type staged.new_content in
    record {
      exists = not (is_delete staged.type);
      content = content;
      content_hash = hash_of platform content;
    }

abbrev pub read_unstaged : Platform → Text → M FileReadResult
read_unstaged platform path = do
  root ← gets (λ s. s.project_root)
  absolute ← from_result (safe_resolve_path platform root path)
  result ← attempt (read_from_disk platform absolute)
  modify (set_snapshot path result.content_hash)
  pure result

unfoldable pub read : Platform → Text → M FileReadResult
read platform relative s =
    let path = normalize_relative_path relative in
    elim (staged_in s.current_step path) [
      | none ↦ read_unstaged platform path s
      | some staged ↦ (ok (read_staged platform staged), s)
    ]

abbrev pub existing_of : Platform → Text → Option StagedFileChange → Session → Result FileReadResult
existing_of platform absolute none s = read_from_disk platform absolute s
existing_of platform absolute (some prior) s = ok (record {
  exists = is_some prior.previous_content;
  content = prior.previous_content;
  content_hash = prior.previous_content_hash;
})

abbrev pub same_hash : Option Text → Option Text → Bool
same_hash none none = true
same_hash (some a) (some b) = text_eq a b
same_hash _ _ = false

abbrev is_present : FileReadResult → Bool
is_present existing = existing.exists && is_some existing.content && truthy existing.content_hash

-- The conditions by type of change, in the order of the source.
unfoldable pub check_change : ProposedFileChange → FileReadResult → Result (Unit {0})
check_change change existing = elim change.type [
  | create ↦
      if existing.exists
      then err exists_already
      else if is_some change.new_content
      then ok tt
      else err missing_content
  | update ↦
      if not (is_present existing)
      then err no_such_file
      else if not (truthy change.old_content_hash)
      then err needs_hash
      else if not (same_hash change.old_content_hash existing.content_hash)
      then err lock_failed
      else if is_some change.new_content
      then ok tt
      else err missing_content
  | delete ↦
      if not (is_present existing)
      then err no_such_file
      else if truthy change.old_content_hash
          && not (same_hash change.old_content_hash existing.content_hash)
      then err lock_failed
      else ok tt
]

unfoldable pub staged_change :
    Platform → ProposedFileChange → Text → Text → FileReadResult → StagedFileChange
staged_change platform change path absolute existing =
    let next = next_content change.type change.new_content in
    let preview = build_unified_diff_preview platform path existing.content next in
    record {
      path = path;
      type = change.type;
      new_content = change.new_content;
      old_content_hash = change.old_content_hash;
      absolute_path = absolute;
      previous_content = existing.content;
      previous_content_hash = existing.content_hash;
      next_content_hash = hash_of platform next;
      diff_preview = preview;
      diff_bytes = platform.byte_length preview;
    }

abbrev pub add_staged : StagedFileChange → ActiveStep → ActiveStep
add_staged staged step = record step { staged_changes = set_staged staged step.staged_changes }

unfoldable pub stage_change : Platform → ProposedFileChange → M StagedFileChange
stage_change platform change = do
  step ← require_active_step
  guard (not step.applied) already_applied
  guard (schema_accepts change) invalid_change
  let path = normalize_relative_path change.path
  root ← gets (λ s. s.project_root)
  absolute ← from_result (safe_resolve_path platform root path)
  existing ← attempt (existing_of platform absolute (get_staged path step.staged_changes))
  _ ← from_result (check_change change existing)
  let staged = staged_change platform change path absolute existing
  modify (with_step (some (add_staged staged step)))
  modify (set_snapshot path staged.next_content_hash)
  pure staged
