-- ===== src/Evidence/Tests.antt =====
-- Runs of workspace/verification.py at concrete snapshots.
use tricoder_agent.Base.{
  String, [], ◌∷◌, ◌≡◌, inl, refl, true, false, none, some, ok, codes, pos, any, contains,
}
use tricoder_agent.Checks.{CommandCheckRecord, validate_record}
use tricoder_agent.Evidence.{
  WorkspaceSnapshot, VerificationEvidence, VerificationScope, CommandFacts, proves_new_file_version,
  begin_task, revoke, issue, owns, issue_command_check, owns_check,
}
use tricoder_agent.Evidence.Authority.{
  Host, Reach, here, next, issued, checked, start, revoked_forever, old_check_disowned,
}

abbrev snapshot : String → WorkspaceSnapshot
snapshot digest = record {
  scope_id = "w";
  digest = digest;
  complete = true;
  limitations = [];
  content_digest = none;
}

abbrev scope : VerificationScope
scope = (start "root" "t1").scope

abbrev proof : VerificationEvidence
proof = issue scope "e1" (snapshot "d1") (snapshot "d1") true

abbrev facts : CommandFacts
facts = record {
  argv = "pytest" ∷ [];
  cwd = codes ".";
  kind = "tests";
  returncode = some (pos 0);
  output_summary = [];
  execution_complete = true;
  workspace_stable = true;
  targets = codes "src" ∷ [];
  snapshot_id = some "d1";
  limitations = [];
  diagnostics = [];
  output_truncated = false;
}

abbrev checked_once : CommandCheckRecord
checked_once = record {
  task_id = "t1";
  check_id = "c1";
  argv = "pytest" ∷ [];
  cwd = codes ".";
  kind = "tests";
  returncode = some (pos 0);
  output_summary = [];
  execution_complete = true;
  workspace_stable = true;
  targets = codes "src" ∷ [];
  snapshot_id = some "d1";
  limitations = [];
  diagnostics = [];
  output_truncated = false;
  spill_reference = none;
  authority = some 1;
}

made : issue_command_check scope "c1" facts ≡ ok checked_once
unfolding issue_command_check validate_record any contains
made = refl

changed : proves_new_file_version proof.after (snapshot "d2") ≡ true
unfolding proves_new_file_version issue
changed = refl

abbrev with_evidence : Host
with_evidence = record (start "root" "t1") { evidence = proof ∷ [] }

with_evidence-Reach : Reach (start "root" "t1") with_evidence
with_evidence-Reach = next here (issued "e1" (snapshot "d1") (snapshot "d1") true)

revoked_forever_example : owns (revoke scope 2) (some proof) ≡ false
revoked_forever_example =
    revoked_forever "root" "t1" with_evidence
      (record with_evidence { scope = revoke scope 2; objects = 3 }) proof with_evidence-Reach
      (inl refl) here

abbrev with_check : Host
with_check = record (start "root" "t1") { checks = checked_once ∷ [] }

with_check-Reach : Reach (start "root" "t1") with_check
with_check-Reach = next here (checked "c1" facts made)

renewed : begin_task scope (some "t1") "r" 2 ≡ ok (record scope { check_authority = 2 })
unfolding begin_task
renewed = refl

old_check_disowned_example : owns_check (record scope { check_authority = 2 }) checked_once ≡ false
old_check_disowned_example =
    old_check_disowned "root" "t1" with_check checked_once (some "t1") "r"
      (record scope { check_authority = 2 }) with_check-Reach (inl refl) renewed
