-- ===== src/Patches/Parsing/Hunks.antt =====
-- `_parse_hunk` of patches.py: it ends, takes lines only, and what it accepts passes `_validate_hunk`.
use mathlib.Core.Option
use tricoder_agent.Base.{
  ℕ, ◌≤◌, List, [], ◌∷◌, ◌++◌, ◌≡◌, ◌∙◌, refl, subst, Bool, false, not, ◌||◌, Option, none, some,
  Result, ok, err, inl, inr, arith, length, Text, nat_eq, list_eq, Bool-cases, any, count_if,
  count_append, codes,
}
use tricoder_agent.Patches.{
  PatchHunk, PatchError, patch_invalid_hunk, patch_count_mismatch, validate_positions,
  validate_hunk, is_old, is_new,
}
use tricoder_agent.Patches.Parsing.{
  Body, taken, number, count, hunk_header, is_header_end, after_prefix, is_marker, remove_newline,
  tick, wants_more, chop, take_line, parse_body, trailing_marker, continues, empty_body, parse_hunk,
}
use tricoder_agent.Patches.Parsing.Results.{Ends, bind-Ends, map-Ends, guard-Ends, matched-Ends}

abbrev is_bad : Text → Bool
is_bad line = not (is_old line || is_new line)

-- The lines of a hunk's body, with the numbers of those that are old and that are new.
abbrev Fits : List Text → ℕ → ℕ → Type 0
Fits lines o n =
    (any is_bad lines ≡ false) × (count_if is_old lines ≡ o) × (count_if is_new lines ≡ n)

chop-kept :
    (line s : Text)
    → is_bad line ≡ false
    → chop line ≡ some s
    → (is_old s ≡ is_old line) × (is_new s ≡ is_new line)
unfolding chop
chop-kept [] s b e = ground arith
chop-kept (c ∷ []) s b e = absurd (ground arith)
chop-kept (c ∷ d ∷ line) s b e = kept (chop (d ∷ line)) e
  where
    kept :
        (o : Option Text)
        → Option.map (λ rest. c ∷ rest) o ≡ some s
        → (is_old s ≡ is_old (c ∷ d ∷ line)) × (is_new s ≡ is_new (c ∷ d ∷ line))
    kept none e = absurd cc
    kept (some rest) e = ground arith

any_append :
    (p : Text → Bool) (xs ys : List Text)
    → any p xs ≡ false
    → any p ys ≡ false
    → any p (xs ++ ys) ≡ false
unfolding any
any_append p [] ys a b = b
any_append p (x ∷ xs) ys a b = ground (arith, any_append p xs ys)

remove_newline-Fits :
    (line : Text) (lines : List Text)
    → any is_bad (line ∷ lines) ≡ false
    → Ends
        (λ out. Fits out (count_if is_old (line ∷ lines)) (count_if is_new (line ∷ lines)))
        (remove_newline (line ∷ lines))
unfolding remove_newline any count_if
remove_newline-Fits line [] f = kept (chop line) refl
  where
    kept :
        (o : Option Text)
        → chop line ≡ o
        → Ends
            (λ out. Fits out (count_if is_old (line ∷ [])) (count_if is_new (line ∷ [])))
            (elim o [ none ↦ err patch_invalid_hunk | some s ↦ ok (s ∷ []) ])
    kept none e = refl
    kept (some s) e =
        let b : is_bad line ≡ false = ground arith in
        let (o, n) = chop-kept line s b e in
        (ground (arith, o, n), ground (arith, o), ground (arith, n))
remove_newline-Fits line (next ∷ lines) f =
    bind-Ends (λ out. Fits out (count_if is_old (next ∷ lines)) (count_if is_new (next ∷ lines)))
      (λ out.
        Fits out (count_if is_old (line ∷ next ∷ lines)) (count_if is_new (line ∷ next ∷ lines)))
      (remove_newline (next ∷ lines)) (λ rest. ok (line ∷ rest))
      (remove_newline-Fits next lines (ground arith))
      (λ rest q. (ground (arith, q), ground (arith, q), ground (arith, q)))

remove_newline-Ends :
    (lines : List Text) (o n : ℕ)
    → Fits lines o n
    → Ends (λ out. Fits out o n) (remove_newline lines)
unfolding remove_newline
remove_newline-Ends [] o n f = refl
remove_newline-Ends (line ∷ lines) o n f =
    subst (λ k. Ends (λ out. Fits out k n) (remove_newline (line ∷ lines))) f.1
      (subst
        (λ k.
          Ends (λ out. Fits out (count_if is_old (line ∷ lines)) k) (remove_newline (line ∷ lines)))
        f.2 (remove_newline-Fits line lines f.0))

-- The body of a hunk so far.
abbrev Partial : PatchHunk → Body → Type 0
Partial h b =
    Fits b.lines b.old_seen b.new_seen × (b.old_seen ≤ h.old_count) × (b.new_seen ≤ h.new_count)

add_line :
    (lines : List Text) (o n : ℕ) (line : Text)
    → Fits lines o n
    → is_bad line ≡ false
    → Fits (lines ++ line ∷ []) (tick (is_old line) o) (tick (is_new line) n)
unfolding any count_if
add_line lines o n line f b = (
  any_append is_bad lines (line ∷ []) f.0 (ground arith),
  ground (arith, count_append is_old lines (line ∷ []), f),
  ground (arith, count_append is_new lines (line ∷ []), f),
)

take_line-Ends :
    (h : PatchHunk) (b : Body) (line : Text) → Partial h b → Ends (Partial h) (take_line h b line)
unfolding take_line
take_line-Ends h b line p = elim (Bool-cases (is_marker line)) [
  | inl e ↦ rw e (
      bind-Ends (λ out. Fits out b.old_seen b.new_seen) (Partial h) (remove_newline b.lines)
        (λ lines. ok (record b { lines = lines }))
        (remove_newline-Ends b.lines b.old_seen b.new_seen p.0) (λ lines f. (f, p.1, p.2)))
  | inr e ↦ rw e (
      guard-Ends (Partial h) (is_bad line) patch_invalid_hunk _ refl (λ bad.
        guard-Ends (Partial h) _ patch_count_mismatch (ok (taken b line)) refl
          (λ l. (add_line b.lines b.old_seen b.new_seen line p.0 bad, ground arith, ground arith))))
]

-- A body that is complete.
abbrev Whole : PatchHunk → Body → Type 0
Whole h b = Fits b.lines h.old_count h.new_count

complete : (h : PatchHunk) (b : Body) → Partial h b → wants_more h b ≡ false → Whole h b
complete h b p e =
    let o : b.old_seen ≡ h.old_count = ground (arith, p.1) in
    let n : b.new_seen ≡ h.new_count = ground (arith, p.2) in (p.0.0, p.0.1 ∙ o, p.0.2 ∙ n)

parse_body-Ends :
    (h : PatchHunk) (b : Body) (lines : List Text)
    → Partial h b
    → Ends (λ out. Whole h out.0 × (length out.1 ≤ length lines)) (parse_body h b lines)
unfolding parse_body
parse_body-Ends h b [] p = elim (Bool-cases (wants_more h b)) [
  | inl e ↦ rw e refl
  | inr e ↦ rw e (complete h b p e, omega arith)
]
parse_body-Ends h b (line ∷ lines) p = elim (Bool-cases (wants_more h b)) [
  | inl e ↦ rw e (
      bind-Ends (Partial h) _ (take_line h b line) _ (take_line-Ends h b line p) (λ next q.
        map-Ends (λ out. Whole h out.0 × (length out.1 ≤ length lines)) _ (parse_body h next lines)
          (λ out k. (k.0, omega (arith, k.1))) (parse_body-Ends h next lines q)))
  | inr e ↦ rw e (complete h b p e, omega arith)
]

trailing_marker-Ends :
    (h : PatchHunk) (b : Body) (rest : List Text)
    → Whole h b
    → Ends
        (λ out. Fits out.0 h.old_count h.new_count × (length out.1 ≤ length rest))
        (trailing_marker (b, rest))
unfolding trailing_marker
trailing_marker-Ends h b [] w = (w, omega arith)
trailing_marker-Ends h b (line ∷ rest) w = elim (Bool-cases (is_marker line)) [
  | inl e ↦ rw e (
      bind-Ends (λ out. Fits out h.old_count h.new_count) _ (remove_newline b.lines)
        (λ body. ok (body, rest)) (remove_newline-Ends b.lines h.old_count h.new_count w)
        (λ body f. (f, omega arith)))
  | inr e ↦ rw e (w, omega arith)
]

hunk_header-Ends :
    (digit : ℕ → Option ℕ) (line : Text) → Ends (λ h. Unit {0}) (hunk_header digit line)
unfolding hunk_header
hunk_header-Ends digit line = matched-Ends R (after_prefix (codes "@@ -") line) _ (λ s.
    matched-Ends R (number digit s) _ (λ a. matched-Ends R (count digit a.1) _ (λ b.
      matched-Ends R (after_prefix (codes " +") b.1) _ (λ s3.
        matched-Ends R (number digit s3) _ (λ c. matched-Ends R (count digit c.1) _ (λ d.
          matched-Ends R (after_prefix (codes " @@") d.1) _
            (λ s6. guard-Ends R (not (is_header_end s6)) patch_invalid_hunk _ refl (λ e. tt))))))))
  where
    R : PatchHunk → Type 0
    R h = Unit {0}

validate_positions-Ends :
    (h : PatchHunk) → Ends (λ u. validate_positions h ≡ ok tt) (validate_positions h)
unfolding validate_positions
validate_positions-Ends h = of_result (validate_positions h) refl
  where
    of_result :
        (r : Result PatchError (Unit {0}))
        → validate_positions h ≡ r
        → Ends (λ u. validate_positions h ≡ ok tt) r
    of_result (ok tt) e = e
    of_result (err x) e = ground arith

Fits-valid :
    (h : PatchHunk) (lines : List Text)
    → validate_positions h ≡ ok tt
    → Fits lines h.old_count h.new_count
    → validate_hunk (record h { lines = lines }) ≡ ok tt
unfolding validate_hunk validate_positions
Fits-valid h lines p f = ground (arith, p, f)

-- A hunk is refused or passes `_validate_hunk`, and no line comes back.
pub parse_hunk-Ends :
    (digit : ℕ → Option ℕ) (line : Text) (lines : List Text)
    → Ends
        (λ out. (validate_hunk out.0 ≡ ok tt) × (length out.1 ≤ length lines))
        (parse_hunk digit line lines)
unfolding parse_hunk any count_if
parse_hunk-Ends digit line lines =
    bind-Ends (λ h. Unit {0}) R (hunk_header digit line) _ (hunk_header-Ends digit line)
      (λ h u.
        bind-Ends (λ v. validate_positions h ≡ ok tt) R (validate_positions h) _
          (validate_positions-Ends h)
          (λ v p.
            bind-Ends (λ out. Whole h out.0 × (length out.1 ≤ length lines)) R
              (parse_body h empty_body lines) _
              (parse_body-Ends h empty_body lines ((refl, refl, refl), omega arith, omega arith))
              (λ parsed q.
                bind-Ends
                  (λ out. Fits out.0 h.old_count h.new_count × (length out.1 ≤ length parsed.1)) R
                  (trailing_marker parsed) _ (trailing_marker-Ends h parsed.0 parsed.1 q.0)
                  (λ end w.
                    guard-Ends R (continues end.1) patch_count_mismatch _ refl
                      (λ e. (Fits-valid h end.0 p w.0, omega (arith, q.1, w.1)))))))
  where
    R : PatchHunk × List Text → Type 0
    R out = (validate_hunk out.0 ≡ ok tt) × (length out.1 ≤ length lines)
