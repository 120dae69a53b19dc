-- ===== src/Patches/Parsing.antt =====
-- patches.py: parsing of a unified diff. A position in the list of lines is the list of the lines that
-- are left. `digit` is the value of a decimal digit of any script, as `\d` and `int` read it. A
-- `PatchError` is its `detail_code`; its diagnostics, and the hunk numbers in them, are left out.
pub mod Results
pub mod Hunks
pub mod Accepted
use mathlib.Core.Option
use tricoder_agent.Base.{
  ℕ, zero, suc, ◌+◌, ◌*◌, List, [], ◌∷◌, ◌++◌, Bool, true, false, not, ◌&&◌, ◌||◌, Option, none,
  some, Result, ok, err, raise_if, ◌>>=◌, ◌>>◌, if◌then◌else◌, ltb, eqb, length, is_nil, any,
  contains, Text, codes, starts_with, split, rstrip, drop, ◌==◌, nat_eq, list_eq,
}
use tricoder_agent.Patches.{
  PatchHunk, FilePatch, PatchError, patch_invalid_header, patch_invalid_hunk, patch_count_mismatch,
  patch_unsupported_operation, patch_invalid_format, out_of_fuel, is_old, is_new, splitlines,
  validate_positions, check_order,
}

abbrev pub newline : ℕ
newline = 10

-- `s[len(prefix):]` of a text that starts with the prefix.
unfoldable pub after_prefix : Text → Text → Option Text
after_prefix [] s = some s
after_prefix (p ∷ prefix) [] = none
after_prefix (p ∷ prefix) (c ∷ s) =
    let rest = after_prefix prefix s in if eqb c p then rest else none

-- What `\n?$` matches.
unfoldable pub is_end : Text → Bool
is_end [] = true
is_end (c ∷ s) = eqb c newline && (is_nil s || s == newline ∷ [])

-- What `.*\n?$` matches.
unfoldable pub is_line_end : Text → Bool
is_line_end [] = true
is_line_end (c ∷ s) = let rest = is_line_end s in if eqb c newline then is_end (c ∷ s) else rest

-- What `(?: .*)?\n?$` matches.
unfoldable pub is_header_end : Text → Bool
unfolding is_line_end
is_header_end [] = true
is_header_end (c ∷ s) = if eqb c b' ' then is_line_end s else is_end (c ∷ s)

abbrev matched : {A : Type 0} → Option A → Result PatchError A
matched none = err patch_invalid_hunk
matched (some a) = ok a

module _ (digit : ℕ → Option ℕ) where
  -- The digits that follow, after a number.
  unfoldable pub more_digits : ℕ → Text → ℕ × Text
  more_digits n [] = (n, [])
  more_digits n (c ∷ s) = elim (digit c) [ none ↦ (n, c ∷ s) | some d ↦ more_digits (n * 10 + d) s ]

  -- `\d+`.
  unfoldable pub number : Text → Option (ℕ × Text)
  unfolding more_digits
  number [] = none
  number (c ∷ s) = elim (digit c) [ none ↦ none | some d ↦ some (more_digits d s) ]

  -- `(?:,(\d+))?`, with 1 for a count that is left out.
  unfoldable pub count : Text → Option (ℕ × Text)
  unfolding number
  count [] = some (1, [])
  count (c ∷ s) = if eqb c b',' then number s else some (1, c ∷ s)

  -- `_HUNK_HEADER`, and the error if it does not match.
  unfoldable pub hunk_header : Text → Result PatchError PatchHunk
  unfolding number count is_header_end
  hunk_header line = do
    s ← matched (after_prefix (codes "@@ -") line)
    (old_start, s1) ← matched (number s)
    (old_count, s2) ← matched (count s1)
    s3 ← matched (after_prefix (codes " +") s2)
    (new_start, s4) ← matched (number s3)
    (new_count, s5) ← matched (count s4)
    s6 ← matched (after_prefix (codes " @@") s5)
    raise_if (not (is_header_end s6)) patch_invalid_hunk
    ok (record {
      old_start = old_start;
      old_count = old_count;
      new_start = new_start;
      new_count = new_count;
      lines = [];
    })

-- `_is_no_newline_marker`.
unfoldable pub is_marker : Text → Bool
is_marker line = rstrip newline line == codes "\\ No newline at end of file"

-- A text without the newline that ends it.
unfoldable pub chop : Text → Option Text
chop [] = none
chop (c ∷ []) = if eqb c newline then some [] else none
chop (c ∷ d ∷ s) = Option.map (λ rest. c ∷ rest) (chop (d ∷ s))

-- `_remove_preceding_newline`.
unfoldable pub remove_newline : List Text → Result PatchError (List Text)
remove_newline [] = err patch_invalid_hunk
remove_newline (line ∷ []) = elim (chop line) [
  | none ↦ err patch_invalid_hunk
  | some s ↦ ok (s ∷ [])
]
remove_newline (line ∷ next ∷ body) = do rest ← remove_newline (next ∷ body); ok (line ∷ rest)

-- The local variables of the loop in `_parse_hunk`.
pub record Body : Type 0 where
  pub lines : List Text
  pub old_seen : ℕ
  pub new_seen : ℕ

abbrev pub tick : Bool → ℕ → ℕ
tick b n = if b then suc n else n

-- The body with a line more.
abbrev pub taken : Body → Text → Body
taken b line = record {
  lines = b.lines ++ line ∷ [];
  old_seen = tick (is_old line) b.old_seen;
  new_seen = tick (is_new line) b.new_seen;
}

-- One round of that loop, on a line.
unfoldable pub take_line : PatchHunk → Body → Text → Result PatchError Body
take_line h b line =
    if is_marker line
    then (remove_newline b.lines >>= λ lines. ok (record b { lines = lines }))
    else (do
      raise_if (not (is_old line || is_new line)) patch_invalid_hunk
      raise_if (ltb h.old_count (taken b line).old_seen || ltb h.new_count (taken b line).new_seen)
          patch_count_mismatch
      ok (taken b line))

abbrev pub wants_more : PatchHunk → Body → Bool
wants_more h b = ltb b.old_seen h.old_count || ltb b.new_seen h.new_count

unfoldable pub parse_body : PatchHunk → Body → List Text → Result PatchError (Body × List Text)
parse_body h b [] = if wants_more h b then err patch_count_mismatch else ok (b, [])
parse_body h b (line ∷ lines) =
    if wants_more h b
    then (take_line h b line >>= λ next. parse_body h next lines)
    else ok (b, line ∷ lines)

-- The marker after the last line.
unfoldable pub trailing_marker : Body × List Text → Result PatchError (List Text × List Text)
trailing_marker (b, []) = ok (b.lines, [])
trailing_marker (b, line ∷ lines) =
    if is_marker line
    then (remove_newline b.lines >>= λ body. ok (body, lines))
    else ok (b.lines, line ∷ lines)

abbrev continues : List Text → Bool
continues [] = false
continues (line ∷ lines) = (is_old line || is_new line) && not (starts_with line (codes "--- "))

abbrev empty_body : Body
empty_body = record { lines = []; old_seen = 0; new_seen = 0 }

module _ (digit : ℕ → Option ℕ) where
  -- `_parse_hunk`, at the line that starts the hunk.
  unfoldable pub parse_hunk : Text → List Text → Result PatchError (PatchHunk × List Text)
  parse_hunk line lines = do
    h ← hunk_header digit line
    validate_positions h
    parsed ← parse_body h empty_body lines
    (body, rest) ← trailing_marker parsed
    raise_if (continues rest) patch_count_mismatch
    ok (record h { lines = body }, rest)

abbrev pub without_newline : Text → Text
without_newline raw = elim (chop raw) [ none ↦ raw | some s ↦ s ]

-- `_header_path`.
unfoldable pub header_path : Text → Text → Result PatchError Text
header_path prefix line = elim (after_prefix prefix line) [
  | none ↦ err patch_invalid_header
  | some raw ↦
      raise_if (is_nil (without_newline raw)) patch_invalid_header >> ok (without_newline raw)
]

-- The test on a path without its prefix.
unfoldable pub is_path : Text → Bool
is_path path = not (
    is_nil path
    || starts_with path (codes "/")
    || contains path 92
    || contains path b':'
    || contains path 0
    || any (λ part. part == [] || part == codes "." || part == codes "..") (split b'/' path))

-- `_normalize_patch_path`.
unfoldable pub normalize_patch_path : Text → Text → Result PatchError Text
normalize_patch_path prefix raw = elim (after_prefix prefix raw) [
  | none ↦ err patch_invalid_header
  | some path ↦ raise_if (not (is_path path)) patch_invalid_header >> ok path
]

abbrev dev_null : Text
dev_null = codes "/dev/null"

abbrev old_path_of : Text → Result PatchError Text
old_path_of raw = if raw == dev_null then ok [] else normalize_patch_path (codes "a/") raw

pub record FileHeader : Type 0 where
  pub path : Text
  pub create : Bool
  pub rest : List Text

-- `_parse_file_header`.
unfoldable pub parse_file_header : Text → List Text → Result PatchError FileHeader
parse_file_header first [] =
    raise_if (not (starts_with first (codes "--- "))) patch_invalid_header
    >> err patch_invalid_header
parse_file_header first (second ∷ rest) = do
  raise_if (not (starts_with first (codes "--- "))) patch_invalid_header
  raise_if (not (starts_with second (codes "+++ "))) patch_invalid_header
  old_raw ← header_path (codes "--- ") first
  new_raw ← header_path (codes "+++ ") second
  raise_if (new_raw == dev_null) patch_unsupported_operation
  old_path ← old_path_of old_raw
  new_path ← normalize_patch_path (codes "b/") new_raw
  raise_if (not (old_raw == dev_null) && not (old_path == new_path)) patch_unsupported_operation
  ok (record { path = new_path; create = old_raw == dev_null; rest = rest })

-- The local variables of the loop over the hunks of a file.
pub record Order : Type 0 where
  pub previous : Option (ℕ × ℕ)
  pub added : ℕ
  pub removed : ℕ

abbrev pub no_order : Order
no_order = record { previous = none; added = 0; removed = 0 }

abbrev pub follow : Order → PatchHunk → Order
follow o h = record {
  previous = some (h.old_start, h.old_start + h.old_count);
  added = o.added + h.new_count;
  removed = o.removed + h.old_count;
}

module _ (digit : ℕ → Option ℕ) where
  -- The loop over the hunks of a file.
  unfoldable pub parse_hunks :
      ℕ → Bool → Order → List Text → Result PatchError (List PatchHunk × List Text)
  parse_hunks fuel create o [] = ok ([], [])
  parse_hunks zero create o (line ∷ lines) = err out_of_fuel
  parse_hunks (suc fuel) create o (line ∷ lines) =
      if starts_with line (codes "@@")
      then (do
        (h, rest) ← parse_hunk digit line lines
        check_order create o.previous o.added o.removed h
        (hunks, left) ← parse_hunks fuel create (follow o h) rest
        ok (h ∷ hunks, left))
      else ok ([], line ∷ lines)

  -- The loop over the files, with the paths seen so far.
  unfoldable pub parse_files : ℕ → List Text → List Text → Result PatchError (List FilePatch)
  parse_files fuel seen [] = ok []
  parse_files zero seen (line ∷ lines) = err out_of_fuel
  parse_files (suc fuel) seen (line ∷ lines) = do
    header ← parse_file_header line lines
    raise_if (contains seen header.path) patch_unsupported_operation
    (hunks, rest) ← parse_hunks fuel header.create no_order header.rest
    raise_if (is_nil hunks) patch_invalid_hunk
    patches ← parse_files fuel (header.path ∷ seen) rest
    ok (record { path = header.path; create = header.create; hunks = hunks } ∷ patches)

  unfoldable pub parse_unified_diff : Text → Result PatchError (List FilePatch)
  parse_unified_diff source = do
    raise_if (is_nil source) patch_invalid_format
    parse_files (length (splitlines source)) [] (splitlines source)
