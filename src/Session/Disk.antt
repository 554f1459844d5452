-- ===== src/Session/Disk.antt =====
-- The working tree: reads, and writes that may throw (agent/fs/file-session.ts `readFromDisk`,
-- lib/fs-utils.ts `writeTextFile` and `safeResolvePath`, and `fs.rm` with `force`).
use deeprun.Prelude.{
  Bool, true, false, not, ◌&&◌, List, [], ◌∷◌, ◌++◌, Option, none, some, Text, codes, text_eq,
  starts_with, strip_leading, if◌then◌else◌, is_some,
}
use deeprun.Session.Model.{
  Disk, M, Platform, Result, Session, err, ok, unsafe_path, write_failed, read_failed,
}

abbrev pub put : Text → Option Text → (Text → Option Text) → Text → Option Text
put path content files p = if text_eq p path then content else files p

-- One write or removal: done, or thrown with what the fault leaves at the path.
abbrev pub meet :
    List (Option (Option Text)) → Text → Option Text → (Text → Option Text) → Bool × Disk
meet [] path content files = (true, record { files = put path content files; faults = [] })
meet (none ∷ rest) path content files =
    (true, record { files = put path content files; faults = rest })
meet (some left ∷ rest) path content files =
    (false, record { files = put path left files; faults = rest })

unfoldable pub write : Text → Option Text → Disk → Bool × Disk
write path content disk = meet disk.faults path content disk.files

-- Does no write throw any more? Does at most one?
unfoldable pub calm : List (Option (Option Text)) → Bool
calm [] = true
calm (fault ∷ rest) = not (is_some fault) && calm rest

unfoldable pub at_most_one_fault : List (Option (Option Text)) → Bool
at_most_one_fault [] = true
at_most_one_fault (none ∷ rest) = at_most_one_fault rest
at_most_one_fault (some left ∷ rest) = calm rest

-- The method that writes.
unfoldable pub write_file : Text → Option Text → M (Unit {0})
write_file path content s =
    let (done, disk) = write path content s.disk in
    ((if done then ok tt else err write_failed), record s { disk = disk })

pub record FileReadResult : Type 0 where
  pub exists : Bool
  pub content : Option Text
  pub content_hash : Option Text

abbrev pub read_result : Platform → Option Text → Result FileReadResult
read_result platform none = err read_failed
read_result platform (some c) =
    ok (record { exists = true; content = some c; content_hash = some (platform.content_hash c) })

abbrev pub read_content : Platform → Text → Option Text → Result FileReadResult
read_content platform path none =
    ok (record { exists = false; content = none; content_hash = none })
read_content platform path (some held) = read_result platform (platform.read_text path held)

unfoldable pub read_from_disk : Platform → Text → Session → Result FileReadResult
read_from_disk platform path s = read_content platform path (s.disk.files path)

abbrev pub resolved_path : Platform → Text → Text → Text
resolved_path platform root relative = platform.resolve root (strip_leading relative)

unfoldable pub safe_resolve_path : Platform → Text → Text → Result Text
safe_resolve_path platform root relative =
    let candidate = resolved_path platform root relative in
    if not (text_eq candidate (platform.resolve root []))
      && not (starts_with (platform.resolve root [] ++ codes "/") candidate)
    then err unsafe_path
    else ok candidate
