-- ===== src/Patches/Tests.antt =====
-- Runs of patches.py at concrete texts.
use tricoder_agent.Patches.Parsing.{
  parse_unified_diff, parse_files, parse_hunks, parse_hunk, parse_file_header, header_path,
  hunk_header, normalize_patch_path, parse_body, take_line, trailing_marker, is_path, is_end,
  is_line_end, is_header_end, after_prefix, number, more_digits, count, is_marker, chop,
  remove_newline,
}
use tricoder_agent.Patches.Parsing.Accepted.{
  IsAccepted, parse_unified_diff-ends, parse_unified_diff-IsAccepted,
}
use tricoder_agent.Base.{
  nat_eq, list_eq, All, Distinct, map, ℕ, Option, some, none, leb, ◌-◌, ◌&&◌, if◌then◌else◌, codes,
  true, List, [], ◌∷◌, ◌++◌, ◌≡◌, refl, false, ok, err, Text, any, count_if, contains, split,
  starts_with, rstrip,
}
use tricoder_agent.Patches.{
  FilePatch, splitlines, concat, apply_file_patch, patch_context_mismatch, patch_count_mismatch,
  patch_invalid_header, out_of_fuel, apply_hunk, apply_hunks, apply_line, apply_lines, check_hunk,
  line_at, source_index, target_index, validate_hunk, check_order, validate_positions,
}
use tricoder_agent.Patches.Applying.{Rewrites, apply_file_patch-Rewrites}

abbrev newline : Text
newline = 10 ∷ []

abbrev line : Text → Text
line text = text ++ newline

-- Three lines, of which the second is replaced.
abbrev original : Text
original = line (b'a' ∷ []) ++ (line (b'b' ∷ []) ++ line (b'c' ∷ []))

abbrev replaced : Text
replaced = line (b'a' ∷ []) ++ (line (b'd' ∷ []) ++ line (b'c' ∷ []))

abbrev patch : FilePatch
patch = record {
  path = b'f' ∷ [];
  create = false;
  hunks =
      record {
        old_start = 2;
        old_count = 1;
        new_start = 2;
        new_count = 1;
        lines = line (b'-' ∷ b'b' ∷ []) ∷ line (b'+' ∷ b'd' ∷ []) ∷ [];
      }
      ∷ [];
}

applied : apply_file_patch original patch ≡ ok replaced
unfolding apply_file_patch apply_hunks apply_hunk check_hunk validate_hunk any count_if target_index
    source_index splitlines apply_lines apply_line line_at concat check_order
applied = refl

refused : apply_file_patch replaced patch ≡ err patch_context_mismatch
unfolding apply_file_patch apply_hunks apply_hunk check_hunk validate_hunk any count_if target_index
    source_index splitlines apply_lines apply_line line_at check_order
refused = refl

abbrev digit : ℕ → Option ℕ
digit c = if leb 48 c && leb c 57 then some (c - 48) else none

-- The patch as a diff.
abbrev diff : Text
diff =
    line (codes "--- a/f")
    ++ (line (codes "+++ b/f")
        ++ (line (codes "@@ -2 +2,1 @@") ++ (line (codes "-b") ++ line (codes "+d"))))

parsed : parse_unified_diff digit diff ≡ ok (patch ∷ [])
unfolding parse_unified_diff parse_files parse_hunks parse_hunk parse_file_header header_path
    hunk_header normalize_patch_path parse_body take_line trailing_marker is_path is_end is_line_end
    is_header_end after_prefix number more_digits count is_marker chop remove_newline rstrip
    check_order source_index target_index validate_positions splitlines starts_with contains any
    split
parsed = refl

-- The marker takes the newline from the line before it.
unterminated :
    parse_unified_diff digit (
      line (codes "--- /dev/null")
      ++ (line (codes "+++ b/f")
          ++ (line (codes "@@ -0,0 +1 @@")
              ++ (line (codes "+d") ++ codes "\\ No newline at end of file"))))
    ≡ ok (
        record {
          path = codes "f";
          create = true;
          hunks =
              record {
                old_start = 0;
                old_count = 0;
                new_start = 1;
                new_count = 1;
                lines = codes "+d" ∷ [];
              }
              ∷ [];
        }
        ∷ [])
unfolding parse_unified_diff parse_files parse_hunks parse_hunk parse_file_header header_path
    hunk_header normalize_patch_path parse_body take_line trailing_marker is_path is_end is_line_end
    is_header_end after_prefix number more_digits count is_marker chop remove_newline rstrip
    check_order source_index target_index validate_positions splitlines starts_with contains any
    split
unterminated = refl

-- A hunk of more lines than its header says.
miscounted : parse_unified_diff digit (diff ++ line (codes "+e")) ≡ err patch_count_mismatch
unfolding parse_unified_diff parse_files parse_hunks parse_hunk parse_file_header header_path
    hunk_header normalize_patch_path parse_body take_line trailing_marker is_path is_end is_line_end
    is_header_end after_prefix number more_digits count is_marker chop remove_newline rstrip
    check_order source_index target_index validate_positions splitlines starts_with contains any
    split
miscounted = refl

escaping :
    parse_unified_diff digit (line (codes "--- a/../f") ++ line (codes "+++ b/../f"))
    ≡ err patch_invalid_header
unfolding parse_unified_diff parse_files parse_hunks parse_hunk parse_file_header header_path
    hunk_header normalize_patch_path parse_body take_line trailing_marker is_path is_end is_line_end
    is_header_end after_prefix number more_digits count is_marker chop remove_newline rstrip
    check_order source_index target_index validate_positions splitlines starts_with contains any
    split
escaping = refl

parse_unified_diff-ends_example : ¬ (parse_unified_diff digit diff ≡ err out_of_fuel)
parse_unified_diff-ends_example = parse_unified_diff-ends digit diff

parse_unified_diff-IsAccepted_example :
    All IsAccepted (patch ∷ []) × Distinct (map (λ (p : FilePatch). p.path) (patch ∷ []))
parse_unified_diff-IsAccepted_example = parse_unified_diff-IsAccepted digit diff (patch ∷ []) parsed

apply_file_patch-Rewrites_example :
    (out : List Text) × Rewrites 0 (splitlines original) patch.hunks out × (replaced ≡ concat out)
apply_file_patch-Rewrites_example = apply_file_patch-Rewrites original replaced patch applied
