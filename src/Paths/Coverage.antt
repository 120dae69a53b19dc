-- ===== src/Paths/Coverage.antt =====
-- The text comparison of `target_covers_path` in workspace/check_coverage.py decides whether one
-- path lies at or below another.
use mathlib.Core.List.{append_assoc, append-nil, map-append}
use tricoder_agent.Base.{
  ℕ, List, [], ◌∷◌, ◌++◌, ◌≡◌, ◌≢◌, ◌↔◌, ◌⊎◌, refl, sym, ap, ◌∙◌, Bool, true, false, ◌||◌, some,
  arith, map, eqb, eqb_iff, Option-cases, inl, inr, All, Text, starts_with, split, join, rstrip,
  replace, Lacks, split-append, split_of_Lacks, split-join, join-append, starts_with-append,
  starts_with_rest, ◌==◌, ==_iff, ==_refl, nat_eq, list_eq,
}
use tricoder_agent.Paths.{
  slash, backslash, dot, normcase, render, covers_text, normalized_parts, normalize_target,
  target_covers_path,
}
use tricoder_agent.Paths.Segments.{IsName, normalized_parts-IsName}

-- What the code relies on of `os.path.normcase`: no other character becomes a slash or a dot.
pub record IsFold (fold : ℕ → ℕ) : Type 0 where
  pub to_slash : (c : ℕ) → fold c ≡ slash → c ≡ slash
  pub to_backslash : (c : ℕ) → fold c ≡ backslash → c ≡ backslash
  pub to_dot : (c : ℕ) → fold c ≡ b'.' → c ≡ b'.'

-- A name after case folding.
abbrev IsClean : Text → Type 0
IsClean p = (p ≢ []) × (p ≢ dot) × Lacks slash p

clean-Lacks : (names : List Text) → All IsClean names → All (Lacks slash) names
clean-Lacks [] a = tt
clean-Lacks (p ∷ names) a = (a.0.2, clean-Lacks names a.1)

cons-ne-nil : {x : ℕ} {s : Text} → x ∷ s ≡ [] → ⊥
cons-ne-nil e = cc

append_cons_ne : (a : Text) (x : ℕ) (s : Text) → a ++ x ∷ s ≢ []
append_cons_ne [] x s e = cc
append_cons_ne (y ∷ a) x s e = cc

same_head : {x y : ℕ} {s t : Text} → x ∷ s ≡ y ∷ t → x ≡ y
same_head e = cc

false-ne-true : false ≡ true → ⊥
false-ne-true e = cc

ne_test : (s : Text) → s ≢ [] → (s == []) ≡ false
ne_test s n = ground (arith, ==_iff s [])

rstrip-append :
    (c : ℕ) (a : Text) (x : ℕ) (s : Text)
    → rstrip c (x ∷ s) ≡ x ∷ s
    → rstrip c (a ++ x ∷ s) ≡ a ++ x ∷ s
unfolding rstrip
rstrip-append c [] x s e = e
rstrip-append c (y ∷ []) x s e = rw e refl
rstrip-append c (y ∷ z ∷ a) x s e = rw (rstrip-append c (z ∷ a) x s e) refl

rstrip_of_Lacks : (c : ℕ) (s : Text) → Lacks c s → rstrip c s ≡ s
unfolding rstrip
rstrip_of_Lacks c [] l = refl
rstrip_of_Lacks c (x ∷ []) l = ground (arith, eqb_iff x c)
rstrip_of_Lacks c (x ∷ y ∷ s) l = rw (rstrip_of_Lacks c (y ∷ s) l.1) refl

nonempty : (s : Text) → s ≢ [] → (x : ℕ) × (r : Text) × (s ≡ x ∷ r)
nonempty [] n = absurd (n refl)
nonempty (x ∷ r) n = (x, r, refl)

-- A joined path ends in a name, so there is no slash to strip.
rstrip-join :
    (p : Text) (ps : List Text)
    → All IsClean (p ∷ ps)
    → (rstrip slash (join slash (p ∷ ps)) ≡ join slash (p ∷ ps)) × (join slash (p ∷ ps) ≢ [])
unfolding join
rstrip-join p [] a = (rstrip_of_Lacks slash p a.0.2, a.0.0)
rstrip-join p (q ∷ ps) a =
    let (fixed, some_text) = rstrip-join q ps a.1 in
    let (x, r, e) = nonempty _ some_text in
    (
      rstrip-append slash p slash (join slash (q ∷ ps))
          (rw e (rstrip-append slash (slash ∷ []) x r (rw e at fixed))),
      append_cons_ne p slash _,
    )

-- What `render` shows of folded names.
abbrev shown : List Text → Text
shown [] = dot
shown (p ∷ ps) = join slash (p ∷ ps)

split-dot : split slash dot ≡ dot ∷ []
split-dot = split_of_Lacks slash dot (omega arith, tt)

-- Splitting undoes `shown`.
head_of_dot : (t : Text) (ts rest : List Text) → IsClean t → dot ∷ [] ≡ (t ∷ ts) ++ rest → ⊥
head_of_dot t ts rest c e = c.1 (cc)

or3_cases : (a b c : Bool) → (a || b || c) ≡ true → (a ≡ true) ⊎ ((b ≡ true) ⊎ (c ≡ true))
or3_cases a b c h = ground arith

-- A clean list that the text of another shows as its first names.
below :
    (t : Text) (ts ps rest : List Text)
    → All IsClean (t ∷ ts)
    → All IsClean ps
    → split slash (shown ps) ≡ (t ∷ ts) ++ rest
    → ps ≡ (t ∷ ts) ++ rest
below t ts [] rest a b e = absurd (head_of_dot t ts rest a.0 (sym split-dot ∙ e))
below t ts (p ∷ ps) rest a b e = sym (split-join slash p ps (clean-Lacks (p ∷ ps) b)) ∙ e

covers_text_sound :
    (ts ps : List Text)
    → All IsClean ts
    → All IsClean ps
    → covers_text (shown ts) (shown ps) ≡ true
    → (rest : List Text) × (ps ≡ ts ++ rest)
unfolding covers_text
covers_text_sound [] ps a b h = (ps, refl)
covers_text_sound (t ∷ ts) ps a b h =
    let text = join slash (t ∷ ts) in
    let names = split-join slash t ts (clean-Lacks (t ∷ ts) a) in
    elim (or3_cases (text == dot) _ _ h) [
      | inl e ↦ absurd (
          head_of_dot t ts [] a.0 (
            sym split-dot
            ∙ (ap (split slash) (sym ((==_iff text dot).0 e)) ∙ (names ∙ sym (append-nil _)))))
      | inr (inl e) ↦ (
        [],
        below t ts ps [] a b
            (ap (split slash) (sym ((==_iff text (shown ps)).0 e)) ∙ (names ∙ sym (append-nil _))),
      )
      | inr (inr e) ↦
          let (r, q) =
            starts_with_rest (shown ps) (text ++ slash ∷ []) (rw (rstrip-join t ts a).0 at e) in
          (
            split slash r,
            below t ts ps (split slash r) a b (
                ap (split slash) (q ∙ append_assoc text (slash ∷ []) r)
                ∙ (split-append slash text r ∙ ap (λ n. n ++ split slash r) names)),
          )
    ]

covers_text_complete :
    (ts rest : List Text) → All IsClean ts → covers_text (shown ts) (shown (ts ++ rest)) ≡ true
unfolding covers_text
covers_text_complete [] rest a = refl
covers_text_complete (t ∷ ts) [] a = rw append-nil (ground (arith, ==_refl (join slash (t ∷ ts))))
covers_text_complete (t ∷ ts) (r ∷ rest) a =
    let text = join slash (t ∷ ts) in
    let start : starts_with (join slash ((t ∷ ts) ++ r ∷ rest)) (rstrip slash text ++ slash ∷ [])
        ≡ true =
      rw
        (
          (rstrip-join t ts a).0,
          join-append slash t ts r rest,
          ← append_assoc text (slash ∷ []) (join slash (r ∷ rest)),
        )
        (starts_with-append (text ++ slash ∷ []) (join slash (r ∷ rest))) in
    ground (arith, start)

module _ (fold : ℕ → ℕ) (f : IsFold fold) where
  fold_text :
      (p : Text)
      → Lacks slash p
      → Lacks backslash p
      → replace backslash slash (map (normcase fold) p) ≡ map fold p
  unfolding replace normcase
  fold_text [] l m = refl
  fold_text (c ∷ p) l m =
      let plain : eqb c slash ≡ false = ground (arith, eqb_iff c slash, l.0) in
      let stays : eqb (fold c) backslash ≡ false =
        ground (arith, eqb_iff (fold c) backslash, f.to_backslash c, m.0) in
      rw (plain, stays, fold_text p l.1 m.1) refl

  replace-append :
      (a b : Text)
      → replace backslash slash (a ++ b) ≡ replace backslash slash a ++ replace backslash slash b
  unfolding replace
  replace-append [] b = refl
  replace-append (x ∷ a) b = rw (replace-append a b) refl

  fold_join :
      (names : List Text)
      → All IsName names
      → replace backslash slash (map (normcase fold) (join slash names))
        ≡ join slash (map (map fold) names)
  unfolding join replace normcase
  fold_join [] a = refl
  fold_join (p ∷ []) a = fold_text p a.0.3 a.0.4
  fold_join (p ∷ q ∷ names) a =
      rw (map-append, replace-append, fold_text p a.0.3 a.0.4)
        (ap (λ rest. map fold p ++ slash ∷ rest) (fold_join (q ∷ names) a.1))

  fold-Lacks : (p : Text) → Lacks slash p → Lacks slash (map fold p)
  fold-Lacks [] l = tt
  fold-Lacks (c ∷ p) l = ((λ e. l.0 (f.to_slash c e)), fold-Lacks p l.1)

  fold-IsClean : (p : Text) → IsName p → IsClean (map fold p)
  fold-IsClean [] n = absurd (n.0 refl)
  fold-IsClean (c ∷ []) n =
      ((λ e. cc), (λ e. n.1 (ap (λ x. x ∷ []) (f.to_dot c (same_head e)))), fold-Lacks (c ∷ []) n.3)
  fold-IsClean (c ∷ d ∷ p) n = ((λ e. cc), (λ e. cc), fold-Lacks (c ∷ d ∷ p) n.3)

  fold-All : (names : List Text) → All IsName names → All IsClean (map (map fold) names)
  fold-All [] a = tt
  fold-All (p ∷ names) a = (fold-IsClean p a.0, fold-All names a.1)

  render-shown :
      (names : List Text) → All IsName names → render fold names ≡ shown (map (map fold) names)
  unfolding render join
  render-shown [] a = unfold replace in refl
  render-shown (p ∷ names) a =
      let some_text : (join slash (map (map fold) (p ∷ names)) == []) ≡ false =
        ne_test _ (rstrip-join (map fold p) (map (map fold) names) (fold-All (p ∷ names) a)).1 in
      rw (fold_join (p ∷ names) a, some_text) refl

  -- One path lies at or below another: both are relative paths that stay below their root, and the
  -- folded names of the first begin those of the second.
  pub record AtOrBelow (target path : Text) : Type 0 where
    pub target_names : List Text
    pub path_names : List Text
    pub rest : List Text
    pub target_normal : normalized_parts dot target ≡ some target_names
    pub path_normal : normalized_parts dot path ≡ some path_names
    pub extends : map (map fold) path_names ≡ map (map fold) target_names ++ rest

  covers_of_below :
      (target path : Text) → AtOrBelow target path → target_covers_path fold target path ≡ true
  unfolding target_covers_path normalize_target
  covers_of_below target path b =
      rw
        (
          b.target_normal,
          b.path_normal,
          render-shown b.target_names (normalized_parts-IsName dot target _ b.target_normal),
          render-shown b.path_names (normalized_parts-IsName dot path _ b.path_normal),
          b.extends,
        )
        (covers_text_complete (map (map fold) b.target_names) b.rest
          (fold-All _ (normalized_parts-IsName dot target _ b.target_normal)))

  below_of_covers :
      (target path : Text) → target_covers_path fold target path ≡ true → AtOrBelow target path
  unfolding target_covers_path normalize_target
  below_of_covers target path h = elim (Option-cases (normalized_parts dot target)) [
    | inl e ↦ absurd (false-ne-true (rw e at h))
    | inr (ts, e) ↦ elim (Option-cases (normalized_parts dot path)) [
      | inl e' ↦ absurd (false-ne-true (rw (e, e') at h))
      | inr (ps, e') ↦
          let a = normalized_parts-IsName dot target ts e in
          let b = normalized_parts-IsName dot path ps e' in
          let (rest, q) =
            covers_text_sound (map (map fold) ts) (map (map fold) ps) (fold-All ts a)
              (fold-All ps b) (rw (e, e', render-shown ts a, render-shown ps b) at h) in
          record {
            target_names = ts;
            path_names = ps;
            rest = rest;
            target_normal = e;
            path_normal = e';
            extends = q;
          }
    ]
  ]

  -- The comparison of texts covers a path exactly when it lies at or below the target.
  pub target_covers_path_iff :
      (target path : Text) → (target_covers_path fold target path ≡ true) ↔ AtOrBelow target path
  target_covers_path_iff target path = (below_of_covers target path, covers_of_below target path)
