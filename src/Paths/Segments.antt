-- ===== src/Paths/Segments.antt =====
-- The parts that `normalize_target` of workspace/check_coverage.py leaves: plain names.
use mathlib.Core.List.{reverse, reverse-cons}
use tricoder_agent.Base.{
  ℕ, List, [], ◌∷◌, ◌++◌, ◌≡◌, ◌≢◌, true, false, not, ◌&&◌, some, arith, eqb, eqb_iff, Bool-cases,
  Option-cases, inl, inr, All, All-map, All-keep, All-keep_test, All-append, Text, split, replace,
  Lacks, split-Lacks, push_head, ◌==◌, ==_iff, nat_eq, list_eq, subst, some_injective, none-ne-some,
}
use tricoder_agent.Paths.{
  slash, backslash, dot, dot_dot, parts, resolve, normalized_parts, is_relative,
}

-- A part of a path that is neither `.` nor empty, and holds no slash.
abbrev IsPart : Text → Type 0
IsPart p = (p ≢ []) × (p ≢ dot) × Lacks slash p × Lacks backslash p

-- A name in a directory: a part that is not `..` either.
abbrev pub IsName : Text → Type 0
IsName p = (p ≢ []) × (p ≢ dot) × (p ≢ dot_dot) × Lacks slash p × Lacks backslash p

replace-Lacks : (s : Text) → Lacks backslash (replace backslash slash s)
unfolding replace
replace-Lacks [] = tt
replace-Lacks (x ∷ s) = elim (Bool-cases (eqb x backslash)) [
  | inl e ↦ rw e (omega arith, replace-Lacks s)
  | inr e ↦ rw e (λ p. ground (arith, (eqb_iff x backslash).1 p), replace-Lacks s)
]

push_head-Lacks :
    (d x : ℕ) (texts : List Text) → x ≢ d → All (Lacks d) texts → All (Lacks d) (push_head x texts)
push_head-Lacks d x [] n a = ((n, tt), tt)
push_head-Lacks d x (p ∷ texts) n a = ((n, a.0), a.1)

split-Lacks_other : (c d : ℕ) (s : Text) → Lacks d s → All (Lacks d) (split c s)
unfolding split
split-Lacks_other c d [] l = (tt, tt)
split-Lacks_other c d (x ∷ s) l = elim (Bool-cases (eqb x c)) [
  | inl e ↦ rw e (tt, split-Lacks_other c d s l.1)
  | inr e ↦ rw e (push_head-Lacks d x (split c s) l.0 (split-Lacks_other c d s l.1))
]

part_test : (p : Text) → (not (p == []) && not (p == dot)) ≡ true → (p ≢ []) × (p ≢ dot)
part_test p h = ((λ e. ground (arith, ==_iff p [])), (λ e. ground (arith, ==_iff p dot)))

All-pair : (P Q : Text → Type 0) (xs : List Text) → All P xs → All Q xs → All (λ x. P x × Q x) xs
All-pair P Q [] a b = tt
All-pair P Q (x ∷ xs) a b = ((a.0, b.0), All-pair P Q xs a.1 b.1)

parts-IsPart : (s : Text) → Lacks backslash s → All IsPart (parts s)
unfolding parts
parts-IsPart s l =
    let test = λ (p : Text). not (p == []) && not (p == dot) in
    let clean =
      All-pair (Lacks slash) (Lacks backslash) (split slash s) (split-Lacks slash s)
        (split-Lacks_other slash backslash s l) in
    let both =
      All-pair (λ p. test p ≡ true) (λ p. Lacks slash p × Lacks backslash p) _
        (All-keep_test test (split slash s)) (All-keep _ test (split slash s) clean) in
    All-map (λ p h. let t = part_test p h.0 in (t.0, t.1, h.1.0, h.1.1)) _ both

IsPart-IsName : (p : Text) → IsPart p → (p == dot_dot) ≡ false → IsName p
IsPart-IsName p h n = (h.0, h.1, (λ q. ground (arith, ==_iff p dot_dot)), h.2, h.3)

resolve-IsName :
    (normalized segments : List Text) {result : List Text}
    → All IsName normalized
    → All IsPart segments
    → resolve normalized segments ≡ some result
    → All IsName result
unfolding resolve
resolve-IsName normalized [] a b e = subst (All IsName) (some_injective e) a
resolve-IsName [] (part ∷ rest) a b e = elim (Bool-cases (part == dot_dot)) [
  | inl up ↦ absurd (none-ne-some (rw up at e))
  | inr down ↦ resolve-IsName (part ∷ []) rest (IsPart-IsName part b.0 down, tt) b.1 (rw down at e)
]
resolve-IsName (above ∷ normalized) (part ∷ rest) a b e = elim (Bool-cases (part == dot_dot)) [
  | inl up ↦ resolve-IsName normalized rest a.1 b.1 (rw up at e)
  | inr down ↦
      resolve-IsName (part ∷ above ∷ normalized) rest (IsPart-IsName part b.0 down, a) b.1
        (rw down at e)
]

reverse-All : (P : Text → Type 0) (xs : List Text) → All P xs → All P (reverse xs)
reverse-All P [] a = tt
reverse-All P (x ∷ xs) a =
    rw reverse-cons (All-append P (reverse xs) (x ∷ []) (reverse-All P xs a.1) (a.0, tt))

-- What `normalize_target` returns is made of plain names: no `.`, no `..`, no slash is left, so the
-- path stays below its root.
pub normalized_parts-IsName :
    (cwd target : Text) (names : List Text)
    → normalized_parts cwd target ≡ some names
    → All IsName names
unfolding normalized_parts
normalized_parts-IsName cwd target names h =
    elim (Bool-cases (is_relative cwd && is_relative target)) [
      | inr out ↦ absurd (none-ne-some (rw out at h))
      | inl relative ↦
          let segments =
            parts (replace backslash slash cwd) ++ parts (replace backslash slash target) in
          let clean =
            All-append IsPart _ _ (parts-IsPart _ (replace-Lacks cwd))
              (parts-IsPart _ (replace-Lacks target)) in
          elim (Option-cases (resolve [] segments)) [
            | inl lost ↦ absurd (none-ne-some (rw (relative, lost) at h))
            | inr (found, e) ↦
                subst (All IsName) (some_injective (rw (relative, e) at h))
                  (reverse-All IsName found (resolve-IsName [] segments tt clean e))
          ]
    ]
