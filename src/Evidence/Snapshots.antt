-- ===== src/Evidence/Snapshots.antt =====
-- When evidence of workspace/verification.py holds for a snapshot.
use tricoder_agent.Base.{
  String, ◌≡◌, ◌↔◌, true, false, arith, all, Bool, ==_iff, ==_refl, string_eq,
}
use tricoder_agent.Evidence.{
  WorkspaceSnapshot, VerificationEvidence, VerificationScope, is_valid_for, issue,
  proves_new_file_version,
}

-- Two complete snapshots of the same scope and content.
pub record SameVersion (a b : WorkspaceSnapshot) : Type 0 where
  pub left_complete : a.complete ≡ true
  pub right_complete : b.complete ≡ true
  pub same_scope : a.scope_id ≡ b.scope_id
  pub same_digest : a.digest ≡ b.digest

-- Evidence that was issued for a command holds for a snapshot exactly when the command passed and
-- the snapshots before and after it and the current one are complete and the same version.
pub is_valid_for-issue :
    (scope : VerificationScope) (token : String) (before after current : WorkspaceSnapshot)
    (passed : Bool)
    → (is_valid_for (issue scope token before after passed) current ≡ true)
      ↔ ((passed ≡ true) × SameVersion before after × SameVersion after current)
unfolding is_valid_for issue all
is_valid_for-issue scope token before after current passed = (
  λ h. (
    ground arith,
    ground (arith, ==_iff after.scope_id before.scope_id, ==_iff after.digest before.digest),
    ground (
      arith,
      ==_iff after.scope_id before.scope_id,
      ==_iff after.digest before.digest,
      ==_iff current.scope_id before.scope_id,
      ==_iff current.digest before.digest,
    ),
  ),
  λ h. ground (
    arith,
    ==_iff after.scope_id before.scope_id,
    ==_iff after.digest before.digest,
    ==_iff current.scope_id before.scope_id,
    ==_iff current.digest before.digest,
    ==_refl before.scope_id,
    ==_refl before.digest,
  ),
)

-- Evidence does not hold for a snapshot that proves a new version of the files it was issued for.
pub new_version-invalidates :
    (e : VerificationEvidence) (current : WorkspaceSnapshot)
    → proves_new_file_version e.after current ≡ true
    → is_valid_for e current ≡ false
unfolding proves_new_file_version is_valid_for all
new_version-invalidates e current h = ground (
  arith,
  ==_iff e.after.digest current.digest,
  ==_iff e.after.digest e.before.digest,
  ==_iff current.digest e.before.digest,
)
