-- ===== src/Patches/Lines.antt =====
-- Lines and the changes of one hunk in patches.py.
use mathlib.Core.List.{append_assoc, append-nil}
use tricoder_agent.Base.{
  ℕ, zero, suc, ◌+◌, List, [], ◌∷◌, ◌++◌, ◌≡◌, refl, ap, sym, subst, ◌∙◌, Bool, true, false, ◌||◌,
  some, ok, arith, Bool-cases, inl, inr, ok_injective, err-ne-ok, length, drop, Text, ◌==◌, ==_iff,
  eqb, if◌then◌else◌, nat_eq, list_eq, option_eq,
}
use tricoder_agent.Patches.{
  splitlines, concat, extend_line, line_at, apply_line, apply_lines, space, plus,
}

-- Splitting into lines loses nothing.
pub concat-splitlines : (s : Text) → concat (splitlines s) ≡ s
unfolding splitlines
concat-splitlines [] = unfold concat in refl
concat-splitlines (c ∷ s) = go _ (splitlines s) (concat-splitlines s)
  where
    extended : (lines : List Text) → concat (extend_line c lines) ≡ c ∷ concat lines
    extended [] = unfold concat in refl
    extended (line ∷ lines) = unfold concat in refl

    go :
        (b : Bool) (lines : List Text)
        → concat lines ≡ s
        → concat (if b then (c ∷ []) ∷ lines else extend_line c lines) ≡ c ∷ s
    go true lines e = unfold concat in ap (λ t. c ∷ t) e
    go false lines e = extended lines ∙ ap (λ t. c ∷ t) e

-- The old lines of a hunk and the new ones, without their prefixes.
unfoldable pub olds : List Text → List Text
olds [] = []
olds ([] ∷ lines) = olds lines
olds ((c ∷ text) ∷ lines) = if eqb c plus then olds lines else text ∷ olds lines

unfoldable pub news : List Text → List Text
news [] = []
news ([] ∷ lines) = news lines
news ((c ∷ text) ∷ lines) = if eqb c plus || eqb c space then text ∷ news lines else news lines

drop-line_at :
    (lines : List Text) (n : ℕ) (text : Text)
    → line_at lines n ≡ some text
    → drop n lines ≡ text ∷ drop (suc n) lines
unfolding line_at
drop-line_at [] n text e = cc
drop-line_at (line ∷ lines) zero text e = ground arith
drop-line_at (line ∷ lines) (suc n) text e = drop-line_at lines n text e

pub record Applied (original : List Text) (before after : ℕ × List Text) (lines : List Text)
    : Type 0 where
  pub matches : drop before.0 original ≡ olds lines ++ drop after.0 original
  pub moved : after.0 ≡ before.0 + length (olds lines)
  pub produced : after.1 ≡ before.1 ++ news lines

-- If the lines of a hunk were applied, then the old lines stand in the original at the cursor, which
-- moved past them, and the new ones were added to the result.
pub apply_lines-Applied :
    (original lines : List Text) (before after : ℕ × List Text)
    → apply_lines original before lines ≡ ok after
    → Applied original before after lines
unfolding apply_lines apply_line olds news
apply_lines-Applied original [] (cursor, result) after h =
    subst (λ a. Applied original (cursor, result) a []) (ok_injective h)
      (record { matches = refl; moved = omega arith; produced = sym (append-nil result) })
apply_lines-Applied original ([] ∷ lines) (cursor, result) after h = absurd (err-ne-ok h)
apply_lines-Applied original ((c ∷ text) ∷ lines) (cursor, result) after h =
    elim (Bool-cases (eqb c plus)) [
      | inl p ↦
          let r =
            apply_lines-Applied original lines (cursor, result ++ text ∷ []) after (rw p at h) in
          record {
            matches = rw p r.matches;
            moved = rw p r.moved;
            produced = rw p (r.produced ∙ append_assoc result (text ∷ []) (news lines));
          }
      | inr p ↦ elim (Bool-cases (line_at original cursor == some text)) [
        | inl q ↦
            let kept = if eqb c space then result ++ text ∷ [] else result in
            let r = apply_lines-Applied original lines (cursor + 1, kept) after (rw (p, q) at h) in
            let here =
              drop-line_at original cursor text
                ((==_iff (line_at original cursor) (some text)).0 q) in
            record {
              matches =
                  rw p (here ∙ ap (λ rest. text ∷ rest) (next_drop original cursor ∙ r.matches));
              moved = rw p (omega (arith, r.moved));
              produced = rw p (r.produced ∙ kept_news (eqb c space) result text (news lines));
            }
        | inr q ↦ absurd (err-ne-ok (rw (p, q) at h))
      ]
    ]
  where
    next_drop : (lines : List Text) (n : ℕ) → drop (suc n) lines ≡ drop (n + 1) lines
    next_drop lines n = let e : suc n ≡ n + 1 = omega arith in ap (λ m. drop m lines) e

    kept_news :
        (b : Bool) (result : List Text) (text : Text) (more : List Text)
        → (if b then result ++ text ∷ [] else result) ++ more
          ≡ result ++ (if b then text ∷ more else more)
    kept_news true result text more = append_assoc result (text ∷ []) more
    kept_news false result text more = refl
