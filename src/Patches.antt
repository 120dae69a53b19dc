-- ===== src/Patches.antt =====
-- patches.py: hunks of a restricted unified diff and their application to a text in memory. The
-- positions are natural numbers, as the parser makes them. `line_delta` may be negative, so it is
-- kept as the lines added and the lines removed so far.
pub mod Parsing
pub mod Lines
pub mod Applying
mod Tests
use tricoder_agent.Base.{
  ℕ, zero, suc, ◌+◌, ◌-◌, List, [], ◌∷◌, ◌++◌, Bool, true, false, not, ◌&&◌, ◌||◌, Option, none,
  some, Result, ok, err, raise_if, ◌>>=◌, ◌>>◌, if◌then◌else◌, ltb, leb, eqb, length, take, drop,
  is_nil, any, count_if, Text, ◌==◌, nat_eq, list_eq, option_eq,
}

pub record PatchHunk : Type 0 where
  pub old_start : ℕ
  pub old_count : ℕ
  pub new_start : ℕ
  pub new_count : ℕ
  pub lines : List Text

pub record FilePatch : Type 0 where
  pub path : Text
  pub create : Bool
  pub hunks : List PatchHunk

-- The `detail_code` of a `PatchError`; `index_error` is Python's, and `out_of_fuel` the parser's loops'.
pub data PatchError : Type 0 where
  patch_invalid_header patch_invalid_hunk patch_count_mismatch patch_unsupported_operation :
      PatchError
  patch_context_mismatch patch_invalid_format index_error out_of_fuel : PatchError

-- A character that ends a line for `str.splitlines`.
abbrev pub is_break : ℕ → Bool
is_break c = leb 10 c && leb c 13 || leb 28 c && leb c 30 || eqb c 133 || eqb c 8232 || eqb c 8233

abbrev starts_with_newline : Text → Bool
starts_with_newline [] = false
starts_with_newline (c ∷ s) = eqb c 10

abbrev pub extend_line : ℕ → List Text → List Text
extend_line c [] = (c ∷ []) ∷ []
extend_line c (line ∷ lines) = (c ∷ line) ∷ lines

-- `splitlines(keepends=True)`.
unfoldable pub splitlines : Text → List Text
splitlines [] = []
splitlines (c ∷ s) =
    let rest = splitlines s in
    if is_break c && not (eqb c 13 && starts_with_newline s)
    then (c ∷ []) ∷ rest
    else extend_line c rest

-- `"".join`.
unfoldable pub concat : List Text → Text
concat [] = []
concat (line ∷ lines) = line ++ concat lines

abbrev pub space : ℕ
space = b' '

abbrev pub plus : ℕ
plus = b'+'

abbrev pub minus : ℕ
minus = b'-'

abbrev pub is_old : Text → Bool
is_old [] = false
is_old (c ∷ text) = eqb c space || eqb c minus

abbrev pub is_new : Text → Bool
is_new [] = false
is_new (c ∷ text) = eqb c space || eqb c plus

unfoldable pub validate_positions : PatchHunk → Result PatchError (Unit {0})
validate_positions h = do
  raise_if (not (eqb h.old_count 0) && eqb h.old_start 0) patch_invalid_hunk
  raise_if (not (eqb h.new_count 0) && eqb h.new_start 0) patch_invalid_hunk

unfoldable pub validate_hunk : PatchHunk → Result PatchError (Unit {0})
unfolding validate_positions
validate_hunk h = do
  validate_positions h
  raise_if (any (λ line. not (is_old line || is_new line)) h.lines) patch_invalid_hunk
  raise_if
      (not (eqb (count_if is_old h.lines) h.old_count)
        || not (eqb (count_if is_new h.lines) h.new_count))
      patch_count_mismatch

unfoldable pub source_index : PatchHunk → ℕ
source_index h = if eqb h.old_count 0 then h.old_start else h.old_start - 1

unfoldable pub target_index : PatchHunk → ℕ
target_index h = if eqb h.new_count 0 then h.new_start else h.new_start - 1

-- `lines[index]`.
unfoldable pub line_at : List Text → ℕ → Option Text
line_at [] index = none
line_at (line ∷ lines) zero = some line
line_at (line ∷ lines) (suc index) = line_at lines index

-- The local variables of `apply_file_patch`.
pub record ApplyState : Type 0 where
  pub result : List Text
  pub source : ℕ
  pub previous : Option (ℕ × ℕ)
  pub added : ℕ
  pub removed : ℕ

abbrev overlaps : Option (ℕ × ℕ) → PatchHunk → Bool
overlaps none h = false
overlaps (some (start, end)) h = leb h.old_start start || ltb h.old_start end

-- The tests on a hunk against those before it, the same in the parser and in `apply_file_patch`.
unfoldable pub check_order :
    Bool → Option (ℕ × ℕ) → ℕ → ℕ → PatchHunk → Result PatchError (Unit {0})
unfolding source_index target_index
check_order create previous added removed h = do
  raise_if (create && not (eqb h.old_count 0)) patch_invalid_hunk
  raise_if (overlaps previous h) patch_invalid_hunk
  raise_if (not (eqb (target_index h + removed) (source_index h + added))) patch_invalid_hunk

-- The tests on a hunk before its lines are applied.
unfoldable pub check_hunk : Bool → List Text → ApplyState → PatchHunk → Result PatchError (Unit {0})
check_hunk create original p h = do
  validate_hunk h
  check_order create p.previous p.added p.removed h
  raise_if (ltb (source_index h) p.source || ltb (length original) (source_index h))
      patch_invalid_hunk

-- One round of the loop over a hunk's lines, on the cursor and the result.
unfoldable pub apply_line : List Text → ℕ × List Text → Text → Result PatchError (ℕ × List Text)
apply_line original (cursor, result) [] = err index_error
apply_line original (cursor, result) (c ∷ text) =
    if eqb c plus
    then ok (cursor, result ++ text ∷ [])
    else if line_at original cursor == some text
    then ok (cursor + 1, if eqb c space then result ++ text ∷ [] else result)
    else err patch_context_mismatch

unfoldable pub apply_lines :
    List Text → ℕ × List Text → List Text → Result PatchError (ℕ × List Text)
apply_lines original state [] = ok state
apply_lines original state (line ∷ lines) = do
  next ← apply_line original state line
  apply_lines original next lines

-- `lines[first:last]`.
abbrev pub slice : ℕ → ℕ → List Text → List Text
slice first last lines = take (last - first) (drop first lines)

unfoldable pub apply_hunk : Bool → List Text → ApplyState → PatchHunk → Result PatchError ApplyState
apply_hunk create original p h = do
  check_hunk create original p h
  (cursor, result) ←
      apply_lines original (source_index h, p.result ++ slice p.source (source_index h) original)
        h.lines
  raise_if (not (eqb cursor (source_index h + h.old_count))) patch_count_mismatch
  ok (record {
    result = result;
    source = cursor;
    previous = some (h.old_start, h.old_start + h.old_count);
    added = p.added + h.new_count;
    removed = p.removed + h.old_count;
  })

unfoldable pub apply_hunks :
    Bool → List Text → ApplyState → List PatchHunk → Result PatchError ApplyState
apply_hunks create original p [] = ok p
apply_hunks create original p (h ∷ hunks) = do
  next ← apply_hunk create original p h
  apply_hunks create original next hunks

unfoldable pub apply_file_patch : Text → FilePatch → Result PatchError Text
apply_file_patch original patch = do
  raise_if (is_nil patch.hunks) patch_invalid_hunk
  raise_if (patch.create && not (is_nil original)) patch_context_mismatch
  p ←
      apply_hunks patch.create (splitlines original)
        (record { result = []; source = 0; previous = none; added = 0; removed = 0 }) patch.hunks
  ok (concat (p.result ++ drop p.source (splitlines original)))
