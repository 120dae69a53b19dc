-- ===== src/Effects/Contract.antt =====
-- What the constructor of `FileEffects` in execution_state.py guarantees to its readers.
use mathlib.Core.List.{reverse_aux, reverse-reverse}
use tricoder_agent.Base.{
  ℕ, List, [], ◌∷◌, ◌++◌, ◌≡◌, ◌≢◌, ◌⊎◌, ◌≤◌, refl, true, false, not, ◌&&◌, ◌||◌, Bool, arith, some,
  ok, ltb, Bool-cases, inl, inr, All, all, all→All, Text, split, replace, Lacks, keep, keep-All,
  Distinct, distinct-length, join-split, contains, any, eqb, eqb_iff, ==_iff, ◌==◌, nat_eq, list_eq,
  map, length, All-map, ap, starts_with,
}
use tricoder_agent.Paths.{
  slash, backslash, dot, dot_dot, normalize_target, normalized_parts, is_relative, render, parts,
  resolve, normcase, is_absolute, has_drive,
}
use tricoder_agent.Effects.{
  FileEffects, EffectState, nothing, confirmed, unknown, make_file_effects, is_canonical,
  has_repeats, is_nothing, is_confirmed,
}

-- `normalize_target` leaves a text as it is: no part to drop, to climb or to fold.
abbrev pub IsNormal : Text → Type 0
IsNormal path = normalize_target (λ c. c) dot path ≡ some path

pub record IsValid (effects : FileEffects) : Type 0 where
  pub nothing_empty :
      (effects.state ≢ nothing) ⊎ ((effects.paths ≡ []) × (effects.directory_paths ≡ []))
  pub confirmed_some :
      (effects.state ≢ confirmed) ⊎ ¬ ((effects.paths ≡ []) × (effects.directory_paths ≡ []))
  pub few_directories : length effects.directory_paths ≤ 128
  pub distinct_paths : Distinct effects.paths
  pub distinct_directories : Distinct effects.directory_paths
  pub normal : All IsNormal (effects.paths ++ effects.directory_paths)

abbrev IsPlain : Text → Type 0
IsPlain part = (part ≢ []) × (part ≢ dot) × (part ≢ dot_dot)

IsPlain-parts :
    (texts : List Text)
    → any (λ part. part == [] || part == dot || part == dot_dot) texts ≡ false
    → All IsPlain texts
unfolding any
IsPlain-parts [] h = tt
IsPlain-parts (t ∷ texts) h = (
  (
    (λ e. ground (arith, ==_iff t [])),
    (λ e. ground (arith, ==_iff t dot)),
    (λ e. ground (arith, ==_iff t dot_dot)),
  ),
  IsPlain-parts texts (ground arith),
)

plain_kept :
    (texts : List Text)
    → All IsPlain texts
    → All (λ part. (not (part == []) && not (part == dot)) ≡ true) texts
plain_kept texts =
    All-map (λ part h. ground (arith, ==_iff part [], ==_iff part dot, h.0, h.1)) texts

resolve-plain :
    (normalized texts : List Text)
    → All IsPlain texts
    → resolve normalized texts ≡ some (reverse_aux texts normalized)
unfolding resolve
resolve-plain normalized [] a = refl
resolve-plain normalized (t ∷ texts) a =
    let named : (t == dot_dot) ≡ false = ground (arith, ==_iff t dot_dot, a.0.2) in
    rw named (resolve-plain (t ∷ normalized) texts a.1)

contains-Lacks : (c : ℕ) (s : Text) → contains s c ≡ false → Lacks c s
unfolding contains
contains-Lacks c [] h = tt
contains-Lacks c (x ∷ s) h = ((λ e. ground (arith, eqb_iff x c)), contains-Lacks c s (ground arith))

replace-Lacks : (a b : ℕ) (s : Text) → Lacks a s → replace a b s ≡ s
unfolding replace
replace-Lacks a b [] l = refl
replace-Lacks a b (x ∷ s) l =
    let other : eqb x a ≡ false = ground (arith, eqb_iff x a, l.0) in
    rw (other, replace-Lacks a b s l.1) refl

map-normcase : (s : Text) → map (normcase (λ c. c)) s ≡ s
unfolding normcase
map-normcase [] = refl
map-normcase (x ∷ s) = elim (Bool-cases (eqb x slash)) [
  | inl e ↦ rw (e, map-normcase s, (eqb_iff x slash).0 e) refl
  | inr e ↦ rw (e, map-normcase s) refl
]

module _ (path : Text) (full : (path == []) ≡ false) (lacks : Lacks backslash path)
    (relative : is_absolute path ≡ false) (no_drive : has_drive path ≡ false)
    (texts : All IsPlain (split slash path)) where
  dot-parts : parts (replace backslash slash dot) ≡ []
  unfolding parts replace split keep
  dot-parts = refl

  parts_plain : parts path ≡ split slash path
  unfolding parts
  parts_plain = keep-All _ _ (plain_kept _ texts)

  path_relative : (is_relative dot && is_relative path) ≡ true
  unfolding is_relative replace starts_with
  path_relative = rw (replace-Lacks backslash slash path lacks, relative, no_drive) refl

  names_plain : normalized_parts dot path ≡ some (split slash path)
  unfolding normalized_parts
  names_plain =
      rw
        (
          path_relative,
          dot-parts,
          replace-Lacks backslash slash path lacks,
          parts_plain,
          resolve-plain [] (split slash path) texts,
        )
        (ap some (reverse-reverse (split slash path)))

  IsNormal-of_plain : IsNormal path
  unfolding normalize_target render
  IsNormal-of_plain =
      rw
        (
          names_plain,
          join-split slash path,
          map-normcase path,
          replace-Lacks backslash slash path lacks,
          full,
        )
        refl

canonical-IsNormal :
    (printable : ℕ → Bool) (path : Text) → is_canonical printable path ≡ true → IsNormal path
unfolding is_canonical
canonical-IsNormal printable path h =
    IsNormal-of_plain path (ground arith) (contains-Lacks backslash path (ground arith))
      (ground arith) (ground arith) (IsPlain-parts (split slash path) (ground arith))

no_repeats : (xs : List Text) → has_repeats xs ≡ false → Distinct xs
unfolding has_repeats
no_repeats xs h = distinct-length xs (ground arith)

nothing_cases :
    (state : EffectState) (paths directory_paths : List Text)
    → (is_nothing state && not (paths == [] && directory_paths == [])) ≡ false
    → (state ≢ nothing) ⊎ ((paths ≡ []) × (directory_paths ≡ []))
nothing_cases nothing paths directory_paths h =
    inr (ground (arith, ==_iff paths [], ==_iff directory_paths []))
nothing_cases confirmed paths directory_paths h = inl (λ e. ground arith)
nothing_cases unknown paths directory_paths h = inl (λ e. ground arith)

confirmed_cases :
    (state : EffectState) (paths directory_paths : List Text)
    → (is_confirmed state && (paths == [] && directory_paths == [])) ≡ false
    → (state ≢ confirmed) ⊎ ¬ ((paths ≡ []) × (directory_paths ≡ []))
confirmed_cases confirmed paths directory_paths h =
    inr (λ e. ground (arith, ==_iff paths [], ==_iff directory_paths []))
confirmed_cases nothing paths directory_paths h = inl (λ e. ground arith)
confirmed_cases unknown paths directory_paths h = inl (λ e. ground arith)

module _ (printable : ℕ → Bool) (state : EffectState) (paths directory_paths : List Text)
    (effects : FileEffects) where
  -- The tests that an accepted value passed.
  accepted :
      make_file_effects printable state paths directory_paths ≡ ok effects
      → ((is_nothing state && not (paths == [] && directory_paths == [])) ≡ false)
        × ((is_confirmed state && (paths == [] && directory_paths == [])) ≡ false)
        × (ltb 128 (length directory_paths) ≡ false)
        × (has_repeats paths ≡ false)
        × (has_repeats directory_paths ≡ false)
        × (all (is_canonical printable) (paths ++ directory_paths) ≡ true)
        × (effects ≡ record { state = state; paths = paths; directory_paths = directory_paths })
  unfolding make_file_effects
  accepted h = ground arith

  -- Whatever the constructor accepts is valid: the state agrees with the paths, nothing is named
  -- twice, and each path is its own normal form, so that it names a place below the workspace.
  pub make_file_effects-IsValid :
      make_file_effects printable state paths directory_paths ≡ ok effects → IsValid effects
  make_file_effects-IsValid h =
      let (a, b, c, d, e, f, q) = accepted h in
      rw q (record {
        nothing_empty = nothing_cases state paths directory_paths a;
        confirmed_some = confirmed_cases state paths directory_paths b;
        few_directories = ground arith;
        distinct_paths = no_repeats paths d;
        distinct_directories = no_repeats directory_paths e;
        normal = All-map (canonical-IsNormal printable) _ (all→All _ _ f);
      })
