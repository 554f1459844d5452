-- ===== src/Session/Diff.antt =====
-- packages/deeprun-backend/src/agent/fs/diff-engine.ts.
use deeprun.Prelude.{
  ℕ, List, [], ◌∷◌, ◌++◌, map, Option, none, some, Text, codes, split_lines, join_lines, length,
}
use deeprun.Session.Model.{Platform}

abbrev optional_lines : Option Text → List Text
optional_lines none = []
optional_lines (some content) = split_lines content

abbrev diff_headers : Text → Option Text → Option Text → Text × Text
diff_headers path none (some after) = (codes "/dev/null", codes "b/" ++ path)
diff_headers path (some before) none = (codes "a/" ++ path, codes "/dev/null")
diff_headers path _ _ = (codes "a/" ++ path, codes "b/" ++ path)

-- @@ -1,n +1,m @@
abbrev hunk_header : Platform → ℕ → ℕ → Text
hunk_header platform n m =
    codes "@@ -1," ++ (platform.digits n ++ (codes " +1," ++ (platform.digits m ++ codes " @@")))

unfoldable pub build_unified_diff_preview : Platform → Text → Option Text → Option Text → Text
build_unified_diff_preview platform path before after =
    let before_lines = optional_lines before in
    let after_lines = optional_lines after in
    let (from, to) = diff_headers path before after in
    join_lines (
      (codes "--- " ++ from)
      ∷ (codes "+++ " ++ to)
      ∷ hunk_header platform (length before_lines) (length after_lines)
      ∷ (map (λ l. codes "-" ++ l) before_lines ++ map (λ l. codes "+" ++ l) after_lines))
