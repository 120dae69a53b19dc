-- ===== src/Patches/Applying.antt =====
-- What `apply_file_patch` of patches.py returns: the original with each hunk's old lines, found at the
-- hunk's position, replaced by its new ones, and every other line kept.
use mathlib.Core.List.{append_assoc}
use tricoder_agent.Base.{
  ℕ, zero, suc, ◌+◌, ◌-◌, ◌≤◌, List, [], ◌∷◌, ◌++◌, ◌≡◌, refl, ap, sym, subst, ◌∙◌, Bool, none, ok,
  err, arith, inl, inr, Result-cases, ok_injective, err-ne-ok, length, length-drop, length-append,
  take, drop, Text, raise_if, ◌>>◌,
}
use tricoder_agent.Patches.{
  PatchHunk, FilePatch, ApplyState, splitlines, concat, check_hunk, apply_lines, apply_hunk,
  apply_hunks, apply_file_patch, source_index, slice, PatchError, patch_invalid_hunk,
  patch_context_mismatch,
}
use tricoder_agent.Patches.Lines.{olds, news, Applied, apply_lines-Applied}

-- From the line number `at`, the lines are rewritten by the hunks into others: what stands before a
-- hunk's position is kept, then the hunk's old lines follow and become its new ones.
pub data Rewrites : ℕ → List Text → List PatchHunk → List Text → Type 0 where
  done : {at : ℕ} {rest : List Text} → Rewrites at rest [] rest
  change :
      {at : ℕ} (kept : List Text) {rest out : List Text} {h : PatchHunk} {hunks : List PatchHunk}
      → at + length kept ≡ source_index h
      → Rewrites (source_index h + length (olds h.lines)) rest hunks out
      → Rewrites at (kept ++ (olds h.lines ++ rest)) (h ∷ hunks) (kept ++ (news h.lines ++ out))

take-drop : (n : ℕ) (lines : List Text) → take n lines ++ drop n lines ≡ lines
take-drop zero lines = refl
take-drop (suc n) [] = refl
take-drop (suc n) (line ∷ lines) = ap (λ rest. line ∷ rest) (take-drop n lines)

drop_nil : (n : ℕ) → drop {A = Text} n [] ≡ []
drop_nil zero = refl
drop_nil (suc n) = refl

drop-drop : (m n : ℕ) (lines : List Text) → drop m (drop n lines) ≡ drop (n + m) lines
drop-drop m zero lines = let e : m ≡ 0 + m = omega arith in ap (λ k. drop k lines) e
drop-drop m (suc n) [] = drop_nil m ∙ sym (drop_nil (suc n + m))
drop-drop m (suc n) (line ∷ lines) =
    let e : suc (n + m) ≡ suc n + m = omega arith in
    drop-drop m n lines ∙ ap (λ k. drop k (line ∷ lines)) e

-- The lines before a later position are a slice and what follows it.
slice-drop :
    (first last : ℕ) (lines : List Text)
    → first ≤ last
    → drop first lines ≡ slice first last lines ++ drop last lines
slice-drop first last lines l =
    let e : first + (last - first) ≡ last = omega (arith, l) in
    sym (take-drop (last - first) (drop first lines))
    ∙ ap (λ rest. slice first last lines ++ rest)
        (drop-drop (last - first) first lines ∙ ap (λ k. drop k lines) e)

length-take : (n : ℕ) (lines : List Text) → n ≤ length lines → length (take n lines) ≡ n
length-take zero lines l = omega arith
length-take (suc n) [] l = absurd (omega (arith, l))
length-take (suc n) (line ∷ lines) l = omega (arith, length-take n lines (omega (arith, l)))

length-slice :
    (first last : ℕ) (lines : List Text)
    → first ≤ last
    → last ≤ length lines
    → first + length (slice first last lines) ≡ last
length-slice first last lines l m = omega (
  arith,
  l,
  length-take (last - first) (drop first lines) (omega (arith, m, length-drop first lines)),
)

module _ (create : Bool) (original : List Text) where
  checked :
      (p : ApplyState) (h : PatchHunk)
      → check_hunk create original p h ≡ ok tt
      → (p.source ≤ source_index h) × (source_index h ≤ length original)
  unfolding check_hunk
  checked p h e = ground arith

  hunk_steps :
      (p next : ApplyState) (h : PatchHunk)
      → apply_hunk create original p h ≡ ok next
      → (check_hunk create original p h ≡ ok tt)
        × (apply_lines original
              (source_index h, p.result ++ slice p.source (source_index h) original)
              h.lines
            ≡ ok (next.source, next.result))
  unfolding apply_hunk
  hunk_steps p next h e = ground arith

  -- The position after a hunk is inside the text.
  source_bounded :
      (s : ℕ) (before after : ℕ × List Text) (lines : List Text)
      → Applied original before after lines
      → before.0 ≤ length original
      → after.0 ≤ length original
  source_bounded s before after lines a l = omega (
    arith,
    l,
    a.moved,
    length-drop before.0 original,
    length-drop after.0 original,
    length-append (olds lines) (drop after.0 original),
    ap length a.matches,
  )

  apply_hunks-Rewrites :
      (hunks : List PatchHunk) (p last : ApplyState)
      → p.source ≤ length original
      → apply_hunks create original p hunks ≡ ok last
      → (out : List Text) × Rewrites p.source (drop p.source original) hunks out
        × (last.result ++ drop last.source original ≡ p.result ++ out)
  unfolding apply_hunks
  apply_hunks-Rewrites [] p last l e = (
    drop p.source original,
    done,
    ap (λ (q : ApplyState). q.result ++ drop q.source original) (sym (ok_injective e)),
  )
  apply_hunks-Rewrites (h ∷ hunks) p last l e =
      elim (Result-cases (apply_hunk create original p h)) [
        | inr (x, f) ↦ absurd (err-ne-ok (rw f at e))
        | inl (next, f) ↦
            let (c, steps) = hunk_steps p next h f in
            let (low, high) = checked p h c in
            let s : ℕ = source_index h in
            let kept = slice p.source s original in
            let a =
              apply_lines-Applied original h.lines (s, p.result ++ kept) (next.source, next.result)
                steps in
            let (out, r, same) =
              apply_hunks-Rewrites hunks next last
                (source_bounded 0 (s, p.result ++ kept) (next.source, next.result) h.lines a high)
                (rw f at e) in
            (
              kept ++ (news h.lines ++ out),
              subst (λ lines. Rewrites p.source lines (h ∷ hunks) (kept ++ (news h.lines ++ out)))
                  (sym (slice-drop p.source s original low ∙ ap (λ rest. kept ++ rest) a.matches))
                  (change kept (length-slice p.source s original low high)
                    (subst (λ at. Rewrites at (drop next.source original) hunks out) a.moved r)),
              same
                  ∙ (ap (λ lines. lines ++ out) a.produced
                      ∙ (append_assoc (p.result ++ kept) (news h.lines) out
                          ∙ append_assoc p.result kept (news h.lines ++ out))),
            )
      ]

abbrev begin : ApplyState
begin = record { result = []; source = 0; previous = none; added = 0; removed = 0 }

-- The last steps of a successful call.
patch_steps :
    (original text : Text) (patch : FilePatch)
    → apply_file_patch original patch ≡ ok text
    → (last : ApplyState) × (apply_hunks patch.create (splitlines original) begin patch.hunks
        ≡ ok last)
      × (concat (last.result ++ drop last.source (splitlines original)) ≡ text)
unfolding apply_file_patch
patch_steps original text patch e =
    elim (Result-cases (apply_hunks patch.create (splitlines original) begin patch.hunks)) [
      | inl (last, f) ↦ (last, f, after_tests _ _ _ (rw f at e))
      | inr (x, f) ↦ absurd (never _ _ x (rw f at e))
    ]
  where
    after_tests :
        (a b : Bool) (t : Text)
        → (raise_if a patch_invalid_hunk >> (raise_if b patch_context_mismatch >> ok t)) ≡ ok text
        → t ≡ text
    after_tests a b t h = ground arith

    never :
        (a b : Bool) (x : PatchError)
        → (raise_if a patch_invalid_hunk >> (raise_if b patch_context_mismatch >> err x)) ≡ ok text
        → ⊥
    never a b x h = ground arith

-- If the patch was applied, then the text returned is the lines of the original rewritten by the
-- hunks from the start: the old lines of each hunk stood at its position, in order, and nothing else
-- changed.
pub apply_file_patch-Rewrites :
    (original text : Text) (patch : FilePatch)
    → apply_file_patch original patch ≡ ok text
    → (out : List Text) × Rewrites 0 (splitlines original) patch.hunks out × (text ≡ concat out)
apply_file_patch-Rewrites original text patch e =
    let (last, f, same) = patch_steps original text patch e in
    let (out, r, whole) =
      apply_hunks-Rewrites patch.create (splitlines original) patch.hunks begin last (omega arith)
        f in
    (out, r, sym same ∙ ap concat whole)
