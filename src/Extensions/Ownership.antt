-- ===== src/Extensions/Ownership.antt =====
-- extensions/host.py: what the host holds after it started its extensions, one after another.
use tricoder_agent.Base.{
  List, [], ◌∷◌, ◌++◌, Bool, true, false, not, none, Result, ok, err, ◌≡◌, refl, sym, subst, inl,
  inr, if◌then◌else◌, keep, All, All-map, In, Has-append_left, Has-append_right, Bool-cases, Text,
  In-keep, codes, ◌||◌,
}
use tricoder_agent.Base.Exec.{proceed, raise}
use tricoder_agent.Extensions.{
  ExtensionProvider, ExtensionHost, HostError, cancelled, StopOutcome, StartOutcome, succeeded,
  start_failed, start_cancelled, Turn, Method, record_failure, cleanup, reversed, stop_providers,
  stop_started, launch, start_from, roll_back, has_duplicates, is_enabled, start, failure_of,
}
use tricoder_agent.Extensions.Stopping.{
  is_interrupted, is_failed, Adds, left_of, cleanup-Adds, cleanup-ok, proceed_ok, proceed_err,
  In-reversed, Settled, succeeds, breaks, Fate, cases_of, Grows, stop_providers-Adds,
}

module _ (stops : ExtensionProvider → StopOutcome)
    (calm : (p : ExtensionProvider) → is_interrupted (stops p) ≡ false) where
  Settled-Grows :
      (h new : ExtensionHost) (p : ExtensionProvider)
      → Grows h new
      → Settled stops h p
      → Settled stops new p
  Settled-Grows h new p g (inl m) = inl (g.1 p m)
  Settled-Grows h new p g (inr e) = inr e

  Fate-Grows :
      (h new : ExtensionHost) (b : Bool) (p : ExtensionProvider)
      → Grows h new
      → Fate stops h b p
      → Fate stops new b p
  Fate-Grows h new true p g m = g.0 p m
  Fate-Grows h new false p g s = Settled-Grows h new p g s

  Adds-Grows :
      (h new : ExtensionHost) (added : List ExtensionProvider) → Adds h added new → Grows h new
  Adds-Grows h new added (started, waiting, cache) = (
    λ p m. subst (In p) (sym started) m,
    λ p m. subst (In p) (sym waiting) (Has-append_left (λ q. q ≡ p) h.stop_pending added m),
  )

  -- The first cleanup of an extension settles it.
  cleanup-Settled :
      (p : ExtensionProvider) (h : ExtensionHost)
      → Grows h (cleanup p (stops p) h).1 × Settled stops (cleanup p (stops p) h).1 p
  cleanup-Settled p h =
      let a = cleanup-Adds p (stops p) h in
      (
        Adds-Grows h (cleanup p (stops p) h).1 (left_of p (stops p)) a,
        (elim (cases_of (stops p) (calm p)) [
          | inr e ↦ inr e
          | inl e ↦ inl (
              subst (In p) (sym a.1) (
                Has-append_right (λ q. q ≡ p) h.stop_pending (left_of p (stops p))
                  (subst (λ b. In p (if b then p ∷ [] else [])) (sym e) (inl refl))))
        ]),
      )

  -- An extension is asked to start: its fate, and whether the loop goes on.
  abbrev Begun : ExtensionProvider → StartOutcome → Bool → ExtensionHost → Method → Type 0
  Begun p o after h m =
      Grows h (m h).1
      × Fate stops (m h).1 (succeeds o after) p
      × ((m h).0 ≡ (if breaks o after then err cancelled else ok tt))

  cleaned_up :
      (p : ExtensionProvider) (h : ExtensionHost)
      → proceed {B = Unit {0}} (cleanup p (stops p) h) (λ u. raise cancelled)
        ≡ (err cancelled, (cleanup p (stops p) h).1)
  cleaned_up p h =
      proceed_ok (cleanup p (stops p) h) (raise cancelled) (cleanup-ok p (stops p) h (calm p))

  launch-Begun :
      (p : ExtensionProvider) (o : StartOutcome) (after : Bool) (h : ExtensionHost)
      → Begun p o after h (launch stops p o after)
  unfolding launch record_failure
  launch-Begun p succeeded false h = (
    (λ q m. Has-append_left (λ x. x ≡ q) h.started (p ∷ []) m, λ q m. m),
    Has-append_right (λ x. x ≡ p) h.started (p ∷ []) (inl refl),
    refl,
  )
  launch-Begun p succeeded true h =
      let (grows, settled) = cleanup-Settled p h in rw (cleaned_up p h) (grows, settled, refl)
  launch-Begun p start_cancelled after h =
      let (grows, settled) = cleanup-Settled p h in rw (cleaned_up p h) (grows, settled, refl)
  launch-Begun p start_failed after h =
      let noted : ExtensionHost =
        record_failure (failure_of p (codes "start") (codes "扩展启动失败，已隔离") none) h in
      let (grows, settled) = cleanup-Settled p noted in
      (grows, settled, cleanup-ok p (stops p) noted (calm p))

module _ (turns : ExtensionProvider → Turn) (duplicated : Text → Bool) where
  -- The extensions that the loop asks to start: enabled ones whose id is theirs alone, up to the first
  -- cancellation.
  unfoldable pub asked : List ExtensionProvider → List ExtensionProvider
  asked [] = []
  asked (p ∷ ps) =
      let rest = asked ps in
      if (turns p).cancelled_before
      then []
      else if duplicated p.descriptor.id || not (is_enabled p)
      then rest
      else p ∷ (if breaks (turns p).outcome (turns p).cancelled_after then [] else rest)

module _ (stops : ExtensionProvider → StopOutcome)
    (calm : (p : ExtensionProvider) → is_interrupted (stops p) ≡ false)
    (turns : ExtensionProvider → Turn) (duplicated : Text → Bool) where
  abbrev pub FateOf : ExtensionHost → ExtensionProvider → Type 0
  FateOf h p = Fate stops h (succeeds (turns p).outcome (turns p).cancelled_after) p

  abbrev Ran :
      List ExtensionProvider → ExtensionHost → Result HostError (Unit {0}) × ExtensionHost → Type 0
  Ran ps h r = Grows h r.1 × All (FateOf r.1) (asked turns duplicated ps)

  abbrev rest_of : ExtensionProvider → List ExtensionProvider → Bool → List ExtensionProvider
  rest_of p ps b = p ∷ (if b then [] else asked turns duplicated ps)

  abbrev Went :
      ExtensionProvider
      → List ExtensionProvider
      → ExtensionHost
      → Bool
      → Result HostError (Unit {0}) × ExtensionHost
      → Type 0
  Went p ps h b r = Grows h r.1 × All (FateOf r.1) (rest_of p ps b)

  -- An extension that is asked to start, and the rest of the loop.
  begun_then :
      (p : ExtensionProvider) (ps : List ExtensionProvider) (h : ExtensionHost)
      (x : Result HostError (Unit {0}) × ExtensionHost) (b : Bool)
      → Grows h x.1
      → FateOf x.1 p
      → x.0 ≡ (if b then err cancelled else ok tt)
      → Ran ps x.1 (start_from stops turns duplicated ps x.1)
      → Went p ps h b (proceed x (λ u. start_from stops turns duplicated ps))
  begun_then p ps h x true grows fate ended rest =
      subst (Went p ps h true)
        (sym (proceed_err x (start_from stops turns duplicated ps) cancelled ended))
        (grows, (fate, tt))
  begun_then p ps h x false grows fate ended (more, fates) =
      subst (Went p ps h false) (sym (proceed_ok x (start_from stops turns duplicated ps) ended)) (
        (λ q k. more.0 q (grows.0 q k), λ q k. more.1 q (grows.1 q k)),
        (
          Fate-Grows stops calm x.1 (start_from stops turns duplicated ps x.1).1
              (succeeds (turns p).outcome (turns p).cancelled_after) p more fate,
          fates,
        ),
      )

  start_from-Ran :
      (ps : List ExtensionProvider) (h : ExtensionHost)
      → Ran ps h (start_from stops turns duplicated ps h)
  unfolding start_from asked record_failure
  start_from-Ran [] h = ((λ p m. m, λ p m. m), tt)
  start_from-Ran (p ∷ ps) h = elim (Bool-cases (turns p).cancelled_before) [
    | inl c ↦ rw c ((λ p m. m, λ p m. m), tt)
    | inr c ↦ elim (Bool-cases (duplicated p.descriptor.id)) [
      | inl d ↦
          rw (c, d)
            (start_from-Ran ps
              (record_failure (failure_of p (codes "discover") (codes "扩展 id 冲突，已拒绝启动") none) h))
      | inr d ↦ elim (Bool-cases (is_enabled p)) [
        | inr e ↦ rw (c, d, e) (start_from-Ran ps h)
        | inl e ↦
            let o : StartOutcome = (turns p).outcome in
            let after : Bool = (turns p).cancelled_after in
            let (grows, fate, ended) = launch-Begun stops calm p o after h in
            rw (c, d, e)
              (begun_then p ps h (launch stops p o after h) (breaks o after) grows fate ended
                (start_from-Ran ps (launch stops p o after h).1))
      ]
    ]
  ]

-- What a start leaves: after a cancellation nothing is started, and every extension asked to start is
-- settled; otherwise each has its fate.
abbrev pub Leaves :
    (ExtensionProvider → StopOutcome)
    → (ExtensionProvider → Turn)
    → List ExtensionProvider
    → Result HostError (Unit {0}) × ExtensionHost
    → Type 0
Leaves stops turns ps (ok u, h) =
    All (λ p. Fate stops h (succeeds (turns p).outcome (turns p).cancelled_after) p) ps
Leaves stops turns ps (err e, h) = (h.started ≡ []) × All (Settled stops h) ps

module _ (stops : ExtensionProvider → StopOutcome)
    (calm : (p : ExtensionProvider) → is_interrupted (stops p) ≡ false)
    (turns : ExtensionProvider → Turn) where
  -- A rollback settles what was started.
  Settled-by_stop :
      (h new : ExtensionHost) (b : Bool) (p : ExtensionProvider)
      → new.stop_pending ≡ h.stop_pending ++ keep (λ q. is_failed (stops q)) (reversed h.started)
      → Fate stops h b p
      → Settled stops new p
  Settled-by_stop h new true p e m = elim (cases_of (stops p) (calm p)) [
    | inr s ↦ inr s
    | inl f ↦ inl (
        subst (In p) (sym e) (
          Has-append_right (λ q. q ≡ p) h.stop_pending _
            ((In-keep (λ q. is_failed (stops q)) (reversed h.started) p).1
              (In-reversed p h.started m, f))))
  ]
  Settled-by_stop h new false p e (inl m) =
      inl (subst (In p) (sym e) (Has-append_left (λ q. q ≡ p) h.stop_pending _ m))
  Settled-by_stop h new false p e (inr s) = inr s

  roll_back-Leaves :
      (ps : List ExtensionProvider) (r : Result HostError (Unit {0}) × ExtensionHost)
      → All (λ p. Fate stops r.1 (succeeds (turns p).outcome (turns p).cancelled_after) p) ps
      → Leaves stops turns ps (roll_back stops r)
  unfolding roll_back stop_started
  roll_back-Leaves ps (ok u, h) a = a
  roll_back-Leaves ps (err e, h) a =
      let idle : ExtensionHost = record h { started = []; tool_cache = none } in
      let (fine, (started, waiting, cache)) =
        stop_providers-Adds stops calm (reversed h.started) idle in
      subst (Leaves stops turns ps)
        (sym (proceed_ok (stop_providers stops (reversed h.started) idle) (raise e) fine))
        (
          started,
          All-map
              (λ p f.
                Settled-by_stop h (stop_providers stops (reversed h.started) idle).1
                  (succeeds (turns p).outcome (turns p).cancelled_after) p waiting f)
              ps a,
        )

  -- A start of a host that holds nothing loses none of the extensions that it asks to start, if no native
  -- cancellation leaves a stop. If it ends well, those whose start succeeded are started, and each other
  -- one was stopped or waits to be stopped again; after a cancellation none is started, and each was
  -- stopped or waits.
  pub start-Leaves :
      (h : ExtensionHost)
      → Leaves stops turns
          (asked turns (has_duplicates h.providers) h.providers)
          (start stops turns (record h { started = []; stop_pending = [] }))
  unfolding start
  start-Leaves h =
      let idle : ExtensionHost = record h { started = []; stop_pending = []; tool_cache = none } in
      let twice : Text → Bool = has_duplicates h.providers in
      roll_back-Leaves (asked turns twice h.providers)
        (start_from stops turns twice h.providers idle)
        (start_from-Ran stops calm turns twice h.providers idle).1
