-- ===== src/Evidence/Authority.antt =====
-- Who holds a capability of workspace/verification.py: the host's steps on a scope, in any order.
use tricoder_agent.Base.{
  ℕ, ◌+◌, ◌≤◌, ◌<◌, String, List, [], ◌∷◌, ◌≡◌, refl, Bool, false, Option, none, some, ok, arith,
  ◌==◌, All, All-map, In, All-In, nat_eq, option_eq, string_eq,
}
use tricoder_agent.Checks.{CommandCheckRecord}
use tricoder_agent.Evidence.{
  VerificationScope, VerificationEvidence, WorkspaceSnapshot, CommandFacts, begin_task, revoke,
  issue, owns, issue_command_check, owns_check,
}

-- A scope with all that it has issued; `objects` counts the objects made so far.
pub record Host : Type 0 where
  pub scope : VerificationScope
  pub objects : ℕ
  pub evidence : List VerificationEvidence
  pub checks : List CommandCheckRecord

-- One call of a method of the scope.
pub data Step (h : Host) : Host → Type 0 where
  began :
      (task_id : Option String) (token : String) {scope : VerificationScope}
      → begin_task h.scope task_id token h.objects ≡ ok scope
      → Step h (record h { scope = scope; objects = h.objects + 1 })
  revoked : Step h (record h { scope = revoke h.scope h.objects; objects = h.objects + 1 })
  issued :
      (token : String) (before after : WorkspaceSnapshot) (passed : Bool)
      → Step h (record h { evidence = issue h.scope token before after passed ∷ h.evidence })
  checked :
      (token : String) (facts : CommandFacts) {r : CommandCheckRecord}
      → issue_command_check h.scope token facts ≡ ok r
      → Step h (record h { checks = r ∷ h.checks })

pub data Reach (h : Host) : Host → Type 0 where
  here : Reach h h
  next : {k l : Host} → Reach h k → Step k l → Reach h l

-- A scope as its constructor makes it.
abbrev pub start : String → String → Host
start token task_id = record {
  scope = record {
    token = token;
    task_id = task_id;
    authority = 0;
    check_authority = 1;
    unknown_effects = false;
  };
  objects = 2;
  evidence = [];
  checks = [];
}

abbrev Below : ℕ → Option ℕ → Type 0
Below n none = ⊥
Below n (some a) = a < n

-- Every authority in use is an object that was made.
record IsFresh (h : Host) : Type 0 where
  authority : h.scope.authority < h.objects
  check_authority : h.scope.check_authority < h.objects
  evidence : All (λ e. Below h.objects e.authority) h.evidence
  checks : All (λ r. Below h.objects r.authority) h.checks

Below-grow : (n : ℕ) (a : Option ℕ) → Below n a → Below (n + 1) a
Below-grow n none b = b
Below-grow n (some a) b = omega arith

begun :
    (h : Host) (task_id : Option String) (token : String) (scope : VerificationScope)
    → begin_task h.scope task_id token h.objects ≡ ok scope
    → (scope.authority ≡ h.scope.authority) × (scope.check_authority ≡ h.objects)
unfolding begin_task
begun h task_id token scope e = ground arith

issued_check :
    (scope : VerificationScope) (token : String) (facts : CommandFacts) (r : CommandCheckRecord)
    → issue_command_check scope token facts ≡ ok r
    → r.authority ≡ some scope.check_authority
unfolding issue_command_check
issued_check scope token facts r e = ground arith

Step-IsFresh : {h k : Host} → Step h k → IsFresh h → IsFresh k
Step-IsFresh {h} (began task_id token {scope = scope} e) f =
    let (same, new) = begun h task_id token scope e in
    record {
      authority = omega (arith, f.authority);
      check_authority = omega arith;
      evidence = All-map (λ x b. Below-grow h.objects x.authority b) h.evidence f.evidence;
      checks = All-map (λ x b. Below-grow h.objects x.authority b) h.checks f.checks;
    }
Step-IsFresh {h} revoked f =
    unfold revoke in
    record {
      authority = omega arith;
      check_authority = omega (arith, f.check_authority);
      evidence = All-map (λ x b. Below-grow h.objects x.authority b) h.evidence f.evidence;
      checks = All-map (λ x b. Below-grow h.objects x.authority b) h.checks f.checks;
    }
Step-IsFresh {h} (issued token before after passed) f = record {
  authority = f.authority;
  check_authority = f.check_authority;
  evidence = (unfold issue in f.authority, f.evidence);
  checks = f.checks;
}
Step-IsFresh {h} (checked token facts {r = r} e) f = record {
  authority = f.authority;
  check_authority = f.check_authority;
  evidence = f.evidence;
  checks = (rw (issued_check h.scope token facts r e) f.check_authority, f.checks);
}

start-IsFresh : (token task_id : String) → IsFresh (start token task_id)
start-IsFresh token task_id = record {
  authority = omega arith;
  check_authority = omega arith;
  evidence = tt;
  checks = tt;
}

Reach-IsFresh : {h k : Host} → IsFresh h → Reach h k → IsFresh k
Reach-IsFresh f here = f
Reach-IsFresh f (next r s) = Step-IsFresh s (Reach-IsFresh f r)

-- An issued capability that the scope does not own any more.
abbrev pub Disowned : Host → VerificationEvidence → Type 0
Disowned h e = Below h.objects e.authority × (owns h.scope (some e) ≡ false)

other_authority : (a : Option ℕ) (n m : ℕ) → Below n a → n ≤ m → (a == some m) ≡ false
other_authority none n m b l = absurd b
other_authority (some a) n m b l = ground arith

Disowned-step : {h k : Host} (e : VerificationEvidence) → Step h k → Disowned h e → Disowned k e
Disowned-step {h} e (began task_id token {scope = scope} q) d =
    let (same, new) = begun h task_id token scope q in
    (Below-grow h.objects e.authority d.0, unfold owns in rw same d.1)
Disowned-step {h} e revoked d = (
  Below-grow h.objects e.authority d.0,
  unfold owns revoke in other_authority e.authority h.objects h.objects d.0 (omega arith),
)
Disowned-step e (issued token before after passed) d = d
Disowned-step e (checked token facts q) d = d

Disowned-Reach : {h k : Host} (e : VerificationEvidence) → Reach h k → Disowned h e → Disowned k e
Disowned-Reach e here d = d
Disowned-Reach e (next r s) d = Disowned-step e s (Disowned-Reach e r d)

-- From a fresh scope, evidence that was issued before a revocation is never owned again, whatever
-- the host does later: new tasks, further revocations, new evidence.
pub revoked_forever :
    (token task_id : String) (h k : Host) (e : VerificationEvidence)
    → Reach (start token task_id) h
    → In e h.evidence
    → Reach (record h { scope = revoke h.scope h.objects; objects = h.objects + 1 }) k
    → owns k.scope (some e) ≡ false
revoked_forever token task_id h k e before m after =
    let below =
      All-In (λ x. Below h.objects x.authority) h.evidence
        (Reach-IsFresh (start-IsFresh token task_id) before).evidence m in
    (Disowned-Reach e after (
      Below-grow h.objects e.authority below,
      unfold owns revoke in other_authority e.authority h.objects h.objects below (omega arith),
    )).1

-- A check record of an earlier task is not the scope's own after a new task began, also when the
-- new task has the same label.
pub old_check_disowned :
    (token task_id : String) (h : Host) (r : CommandCheckRecord) (label : Option String)
    (random : String) (scope : VerificationScope)
    → Reach (start token task_id) h
    → In r h.checks
    → begin_task h.scope label random h.objects ≡ ok scope
    → owns_check scope r ≡ false
unfolding owns_check
old_check_disowned token task_id h r label random scope reach m q =
    let below =
      All-In (λ x. Below h.objects x.authority) h.checks
        (Reach-IsFresh (start-IsFresh token task_id) reach).checks m in
    rw
      (
        (begun h label random scope q).1,
        other_authority r.authority h.objects h.objects below (omega arith),
      )
      refl
