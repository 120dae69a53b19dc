-- ===== src/Paths/Uncovered.antt =====
-- What the sets of paths of workspace/check_coverage.py hold.
use tricoder_agent.Base.{
  List, [], ◌++◌, ◌≡◌, ◌↔◌, ◌⊎◌, inl, inr, ℕ, true, false, not, Bool, arith, Bool-cases, Text, any,
  any→Has, Has→any, keep, distinct, In, In-keep, In-distinct, All, Has, All-intro, All-In, nat_eq,
  list_eq, Has-append_left, Has-append_right, refl, subst,
}
use tricoder_agent.Paths.{target_covers_path, uncovered_paths, source_verification_paths}

module _ (fold : ℕ → ℕ) (targets : List Text) where
  abbrev pub Covered : Text → Type 0
  Covered path = Has (λ target. target_covers_path fold target path ≡ true) targets

  -- The uncovered paths are the given ones that no target covers.
  pub uncovered_paths_iff :
      (paths : List Text) (path : Text)
      → In path (uncovered_paths fold paths targets) ↔ (In path paths × ¬ Covered path)
  unfolding uncovered_paths
  uncovered_paths_iff paths path = (
    λ m.
        let (n, t) = (In-keep _ (distinct paths) path).0 m in
        ((In-distinct paths path).1 n, λ c. clash _ t (Has→any _ targets c)),
    λ (n, c).
        (In-keep _ (distinct paths) path).1
          ((In-distinct paths path).0 n, absent _ (λ t. c (any→Has _ targets t))),
  )
    where
      clash : (b : Bool) → not b ≡ true → b ≡ true → ⊥
      clash b n t = ground arith

      absent : (b : Bool) → (b ≡ true → ⊥) → not b ≡ true
      absent true n = absurd (n refl)
      absent false n = refl

  -- Nothing is left uncovered exactly when each given path is covered.
  pub uncovered_paths-nil :
      (paths : List Text) → uncovered_paths fold paths targets ≡ [] → All Covered paths
  uncovered_paths-nil paths h = All-intro paths λ path m.
      elim (Bool-cases (any (λ target. target_covers_path fold target path) targets)) [
        | inl e ↦ any→Has _ targets e
        | inr e ↦ absurd (
            subst (In path) h
              ((uncovered_paths_iff paths path).1 (m, λ c. differ _ e (Has→any _ targets c))))
      ]
    where
      differ : (b : Bool) → b ≡ false → b ≡ true → ⊥
      differ b f t = cc

  -- If nothing that has to be verified is left uncovered, each file is covered, and each directory
  -- is covered itself or has one of the files at or below it.
  pub source_verification_paths-Covered :
      (files directories : List Text)
      → uncovered_paths fold (source_verification_paths fold files directories) targets ≡ []
      → All Covered files
        × All
            (λ directory.
              Covered directory ⊎ Has (λ path. target_covers_path fold directory path ≡ true) files)
            directories
  unfolding source_verification_paths
  source_verification_paths-Covered files directories h =
      let own =
        λ (directory : Text). not (any (λ path. target_covers_path fold directory path) files) in
      let all_covered = uncovered_paths-nil _ h in
      (
        All-intro files λ path m.
            All-In Covered _ all_covered
              ((In-distinct (files ++ keep own directories) path).0 (Has-append_left _ files _ m)),
        All-intro directories λ directory m.
            elim (Bool-cases (any (λ path. target_covers_path fold directory path) files)) [
              | inl e ↦ inr (any→Has _ files e)
              | inr e ↦ inl (
                  All-In Covered _ all_covered (
                    (In-distinct (files ++ keep own directories) directory).0 (
                      Has-append_right _ files _
                        ((In-keep own directories directory).1 (m, rw e refl)))))
            ],
      )
