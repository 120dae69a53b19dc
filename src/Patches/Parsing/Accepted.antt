-- ===== src/Patches/Parsing/Accepted.antt =====
-- `parse_unified_diff` of patches.py: it ends, and what it accepts is well-formed. Each hunk takes at
-- least the line that starts it, and each file the two lines of its header.
use tricoder_agent.Base.{
  ℕ, zero, suc, ◌≤◌, List, [], ◌∷◌, ◌≡◌, refl, subst, map, Bool, true, false, not, ◌&&◌, Option,
  Result, ok, err, arith, length, All, Distinct, All-unseen, Text, codes, starts_with, is_nil,
  contains, ◌==◌, nat_eq, list_eq,
}
use tricoder_agent.Patches.{
  PatchHunk, FilePatch, PatchError, patch_invalid_header, patch_invalid_hunk,
  patch_unsupported_operation, patch_invalid_format, out_of_fuel, splitlines, validate_hunk,
  check_order,
}
use tricoder_agent.Patches.Parsing.{
  Order, FileHeader, after_prefix, without_newline, parse_hunk, header_path, is_path,
  normalize_patch_path, old_path_of, dev_null, parse_file_header, no_order, follow, parse_hunks,
  parse_files, parse_unified_diff,
}
use tricoder_agent.Patches.Parsing.Results.{
  Ends, bind-Ends, map-Ends, guard-Ends, found-Ends, test-Ends,
}
use tricoder_agent.Patches.Parsing.Hunks.{parse_hunk-Ends}

-- Hunks that `apply_file_patch` does not refuse for their own sake: each is valid by itself and stands
-- after the one before it, where the lines added and removed so far put it.
abbrev pub IsOrdered : Bool → Order → List PatchHunk → Type 0
IsOrdered create o [] = Unit
IsOrdered create o (h ∷ hunks) =
    (validate_hunk h ≡ ok tt)
    × (check_order create o.previous o.added o.removed h ≡ ok tt)
    × IsOrdered create (follow o h) hunks

abbrev pub IsAccepted : FilePatch → Type 0
IsAccepted patch =
    (is_path patch.path ≡ true)
    × (is_nil patch.hunks ≡ false)
    × IsOrdered patch.create no_order patch.hunks

-- No path among those seen, or twice.
abbrev Fresh : List Text → List FilePatch → Type 0
Fresh seen patches =
    Distinct (map (λ (p : FilePatch). p.path) patches)
    × All (λ path. contains seen path ≡ false) (map (λ (p : FilePatch). p.path) patches)

header_path-Ends : (prefix line : Text) → Ends (λ path. Unit {0}) (header_path prefix line)
unfolding header_path
header_path-Ends prefix line =
    found-Ends R (after_prefix prefix line) patch_invalid_header _ refl (λ raw.
      guard-Ends R (is_nil (without_newline raw)) patch_invalid_header (ok (without_newline raw))
        refl (λ e. tt))
  where
    R : Text → Type 0
    R path = Unit {0}

normalize_patch_path-Ends :
    (prefix raw : Text) → Ends (λ path. is_path path ≡ true) (normalize_patch_path prefix raw)
unfolding normalize_patch_path
normalize_patch_path-Ends prefix raw =
    found-Ends R (after_prefix prefix raw) patch_invalid_header _ refl (λ path.
      guard-Ends R (not (is_path path)) patch_invalid_header (ok path) refl (λ e. ground arith))
  where
    R : Text → Type 0
    R path = is_path path ≡ true

old_path_of-Ends : (raw : Text) → Ends (λ path. Unit {0}) (old_path_of raw)
old_path_of-Ends raw =
    test-Ends R (raw == dev_null) (ok []) (normalize_patch_path (codes "a/") raw) tt (
      map-Ends (λ path. is_path path ≡ true) R (normalize_patch_path (codes "a/") raw) (λ a p. tt)
        (normalize_patch_path-Ends (codes "a/") raw))
  where
    R : Text → Type 0
    R path = Unit {0}

check_order-Ends :
    (create : Bool) (o : Order) (h : PatchHunk)
    → Ends
        (λ u. check_order create o.previous o.added o.removed h ≡ ok tt)
        (check_order create o.previous o.added o.removed h)
unfolding check_order
check_order-Ends create o h = of_result (check_order create o.previous o.added o.removed h) refl
  where
    of_result :
        (r : Result PatchError (Unit {0}))
        → check_order create o.previous o.added o.removed h ≡ r
        → Ends (λ u. check_order create o.previous o.added o.removed h ≡ ok tt) r
    of_result (ok tt) e = e
    of_result (err x) e = ground arith

parse_file_header-Ends :
    (first : Text) (lines : List Text)
    → Ends
        (λ header. (is_path header.path ≡ true) × (length header.rest ≤ length lines))
        (parse_file_header first lines)
unfolding parse_file_header
parse_file_header-Ends first [] =
    guard-Ends
      (λ header. (is_path header.path ≡ true) × (length header.rest ≤ length {A = Text} []))
      (not (starts_with first (codes "--- "))) patch_invalid_header (err patch_invalid_header) refl
      (λ e. refl)
parse_file_header-Ends first (second ∷ rest) =
    guard-Ends R (not (starts_with first (codes "--- "))) patch_invalid_header _ refl (λ u.
      guard-Ends R (not (starts_with second (codes "+++ "))) patch_invalid_header _ refl (λ v.
        bind-Ends (λ path. Unit {0}) R (header_path (codes "--- ") first) _
          (header_path-Ends (codes "--- ") first)
          (λ old_raw w.
            bind-Ends (λ path. Unit {0}) R (header_path (codes "+++ ") second) _
              (header_path-Ends (codes "+++ ") second)
              (λ new_raw x.
                guard-Ends R (new_raw == dev_null) patch_unsupported_operation _ refl (λ y.
                  bind-Ends (λ path. Unit {0}) R (old_path_of old_raw) _ (old_path_of-Ends old_raw)
                    (λ old_path z.
                      bind-Ends (λ path. is_path path ≡ true) R
                        (normalize_patch_path (codes "b/") new_raw) _
                        (normalize_patch_path-Ends (codes "b/") new_raw)
                        (λ new_path p.
                          guard-Ends R (not (old_raw == dev_null) && not (old_path == new_path))
                            patch_unsupported_operation
                            (ok (record {
                              path = new_path;
                              create = old_raw == dev_null;
                              rest = rest;
                            }))
                            refl (λ q. (p, omega arith)))))))))
  where
    R : FileHeader → Type 0
    R header = (is_path header.path ≡ true) × (length header.rest ≤ suc (length rest))

module _ (digit : ℕ → Option ℕ) where
  parse_hunks-Ends :
      (fuel : ℕ) (create : Bool) (o : Order) (lines : List Text)
      → length lines ≤ fuel
      → Ends
          (λ out. IsOrdered create o out.0 × (length out.1 ≤ length lines))
          (parse_hunks digit fuel create o lines)
  unfolding parse_hunks
  parse_hunks-Ends fuel create o [] l = (tt, omega arith)
  parse_hunks-Ends zero create o (line ∷ lines) l = absurd (omega (arith, l))
  parse_hunks-Ends (suc fuel) create o (line ∷ lines) l =
      test-Ends R (starts_with line (codes "@@")) _ (ok ([], line ∷ lines))
        (bind-Ends (λ out. (validate_hunk out.0 ≡ ok tt) × (length out.1 ≤ length lines)) R
          (parse_hunk digit line lines) _ (parse_hunk-Ends digit line lines)
          (λ hunk p.
            bind-Ends (λ u. check_order create o.previous o.added o.removed hunk.0 ≡ ok tt) R
              (check_order create o.previous o.added o.removed hunk.0) _
              (check_order-Ends create o hunk.0)
              (λ u q.
                bind-Ends
                  (λ out. IsOrdered create (follow o hunk.0) out.0 × (length out.1 ≤ length hunk.1))
                  R (parse_hunks digit fuel create (follow o hunk.0) hunk.1) _
                  (parse_hunks-Ends fuel create (follow o hunk.0) hunk.1 (omega (arith, p.1, l)))
                  (λ out r. ((p.0, q, r.0), omega (arith, p.1, r.1))))))
        (tt, omega arith)
    where
      R : List PatchHunk × List Text → Type 0
      R out = IsOrdered create o out.0 × (length out.1 ≤ suc (length lines))

  parse_files-Ends :
      (fuel : ℕ) (seen lines : List Text)
      → length lines ≤ fuel
      → Ends
          (λ patches. All IsAccepted patches × Fresh seen patches)
          (parse_files digit fuel seen lines)
  unfolding parse_files
  parse_files-Ends fuel seen [] l = (tt, (tt, tt))
  parse_files-Ends zero seen (line ∷ lines) l = absurd (omega (arith, l))
  parse_files-Ends (suc fuel) seen (line ∷ lines) l =
      bind-Ends (λ header. (is_path header.path ≡ true) × (length header.rest ≤ length lines)) R
        (parse_file_header line lines) _ (parse_file_header-Ends line lines)
        (λ header p.
          guard-Ends R (contains seen header.path) patch_unsupported_operation _ refl (λ new.
            bind-Ends
              (λ out. IsOrdered header.create no_order out.0 × (length out.1 ≤ length header.rest))
              R (parse_hunks digit fuel header.create no_order header.rest) _
              (parse_hunks-Ends fuel header.create no_order header.rest (omega (arith, p.1, l)))
              (λ out q. guard-Ends R (is_nil out.0) patch_invalid_hunk _ refl (λ some_hunk.
                bind-Ends (λ patches. All IsAccepted patches × Fresh (header.path ∷ seen) patches) R
                  (parse_files digit fuel (header.path ∷ seen) out.1) _
                  (parse_files-Ends fuel (header.path ∷ seen) out.1 (omega (arith, p.1, q.1, l)))
                  (λ patches r.
                    let (unseen, fresh) =
                      All-unseen header.path seen (map (λ (a : FilePatch). a.path) patches) r.1.1 in
                    (((p.0, some_hunk, q.0), r.0), ((unseen, r.1.0), (new, fresh))))))))
    where
      R : List FilePatch → Type 0
      R patches = All IsAccepted patches × Fresh seen patches

  parse_unified_diff-Ends :
      (source : Text)
      → Ends
          (λ patches. All IsAccepted patches × Fresh [] patches)
          (parse_unified_diff digit source)
  unfolding parse_unified_diff
  parse_unified_diff-Ends source =
      guard-Ends (λ patches. All IsAccepted patches × Fresh [] patches) (is_nil source)
        patch_invalid_format _ refl
        (λ e. parse_files-Ends (length (splitlines source)) [] (splitlines source) (omega arith))

  -- The parser never runs out of the fuel that it is given, as many rounds as the source has lines.
  pub parse_unified_diff-ends :
      (source : Text) → ¬ (parse_unified_diff digit source ≡ err out_of_fuel)
  parse_unified_diff-ends source e =
      let f : Ends (λ patches. All IsAccepted patches × Fresh [] patches) (err out_of_fuel) =
        subst (Ends (λ patches. All IsAccepted patches × Fresh [] patches)) e
          (parse_unified_diff-Ends source) in
      cc

  -- Each patch that the parser accepts has a path that is relative and without `.` and `..`, at least one hunk,
  -- and hunks that pass the tests that `apply_file_patch` makes on them before it looks at the original,
  -- each in its place after those before it; and no two patches have the same path.
  pub parse_unified_diff-IsAccepted :
      (source : Text) (patches : List FilePatch)
      → parse_unified_diff digit source ≡ ok patches
      → All IsAccepted patches × Distinct (map (λ (p : FilePatch). p.path) patches)
  parse_unified_diff-IsAccepted source patches e =
      let r : Ends (λ patches. All IsAccepted patches × Fresh [] patches) (ok patches) =
        subst (Ends (λ patches. All IsAccepted patches × Fresh [] patches)) e
          (parse_unified_diff-Ends source) in
      (r.0, r.1.0)
