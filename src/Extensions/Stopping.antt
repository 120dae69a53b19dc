-- ===== src/Extensions/Stopping.antt =====
-- extensions/host.py: what waits to be stopped again after a cleanup or a stop.
use tricoder_agent.Base.{
  List, [], ◌∷◌, ◌++◌, Bool, true, false, not, none, Result, ok, err, ◌≡◌, refl, sym, ◌∙◌, ◌⊎◌, inl,
  inr, if◌then◌else◌, keep, In, Has-append_left, Has-append_right, err-ne-ok,
}
use mathlib.Core.List.{append-nil, append_assoc}
use tricoder_agent.Base.Exec.{proceed}
use tricoder_agent.Extensions.{
  ExtensionProvider, ExtensionHost, HostError, StopOutcome, stopped, failed, interrupted,
  StartOutcome, succeeded, start_failed, start_cancelled, Method, record_failure, cleanup, reversed,
  stop_providers, stop,
}

abbrev pub is_interrupted : StopOutcome → Bool
is_interrupted interrupted = true
is_interrupted o = false

abbrev pub is_failed : StopOutcome → Bool
is_failed failed = true
is_failed o = false

-- A method's host keeps these lists but for what is added to the ones that wait to be stopped.
abbrev pub Adds : ExtensionHost → List ExtensionProvider → ExtensionHost → Type 0
Adds h added new =
    (new.started ≡ h.started)
    × (new.stop_pending ≡ h.stop_pending ++ added)
    × (new.tool_cache ≡ h.tool_cache)

abbrev pub left_of : ExtensionProvider → StopOutcome → List ExtensionProvider
left_of p o = if is_failed o then p ∷ [] else []

pub cleanup-Adds :
    (p : ExtensionProvider) (o : StopOutcome) (h : ExtensionHost)
    → Adds h (left_of p o) (cleanup p o h).1
unfolding cleanup record_failure
cleanup-Adds p stopped h = (refl, sym (append-nil h.stop_pending), refl)
cleanup-Adds p failed h = (refl, refl, refl)
cleanup-Adds p interrupted h = (refl, sym (append-nil h.stop_pending), refl)

pub cleanup-ok :
    (p : ExtensionProvider) (o : StopOutcome) (h : ExtensionHost)
    → is_interrupted o ≡ false
    → (cleanup p o h).0 ≡ ok tt
unfolding cleanup
cleanup-ok p stopped h n = refl
cleanup-ok p failed h n = refl
cleanup-ok p interrupted h n = cc

pub proceed_ok :
    (x : Result HostError (Unit {0}) × ExtensionHost) (k : Method)
    → x.0 ≡ ok tt
    → proceed x (λ u. k) ≡ k x.1
proceed_ok (ok u, h) k e = refl
proceed_ok (err e, h) k q = absurd (err-ne-ok q)

pub proceed_err :
    (x : Result HostError (Unit {0}) × ExtensionHost) (k : Method) (e : HostError)
    → x.0 ≡ err e
    → proceed x (λ u. k) ≡ (err e, x.1)
proceed_err (ok u, h) k e q = absurd (err-ne-ok (sym q))
proceed_err (err d, h) k e q = rw q refl

pub In-reversed : {A : Type 0} (a : A) (xs : List A) → In a xs → In a (reversed xs)
unfolding reversed
In-reversed a [] m = m
In-reversed a (x ∷ xs) (inl e) = Has-append_right (λ y. y ≡ a) (reversed xs) (x ∷ []) (inl e)
In-reversed a (x ∷ xs) (inr m) =
    Has-append_left (λ y. y ≡ a) (reversed xs) (x ∷ []) (In-reversed a xs m)

kept :
    {A : Type 0} (b : Bool) (x : A) (before rest now : List A)
    → now ≡ before ++ (if b then x ∷ [] else [])
    → now ++ rest ≡ before ++ (if b then x ∷ rest else rest)
kept true x before rest now e = rw e (append_assoc before (x ∷ []) rest)
kept false x before rest now e = rw e (append_assoc before [] rest)

-- The extension waits to be stopped again, or its stop did not fail.
abbrev pub Settled : (ExtensionProvider → StopOutcome) → ExtensionHost → ExtensionProvider → Type 0
Settled stops h p = In p h.stop_pending ⊎ (stops p ≡ stopped)

-- The start succeeded, and no cancellation was seen after it.
abbrev pub succeeds : StartOutcome → Bool → Bool
succeeds succeeded after = not after
succeeds start_failed after = false
succeeds start_cancelled after = false

-- A cancellation ends the loop.
abbrev pub breaks : StartOutcome → Bool → Bool
breaks succeeded after = after
breaks start_failed after = false
breaks start_cancelled after = true

-- An extension whose start succeeded is started, and any other is settled.
abbrev pub Fate :
    (ExtensionProvider → StopOutcome) → ExtensionHost → Bool → ExtensionProvider → Type 0
Fate stops h true p = In p h.started
Fate stops h false p = Settled stops h p

pub cases_of : (o : StopOutcome) → is_interrupted o ≡ false → (is_failed o ≡ true) ⊎ (o ≡ stopped)
cases_of stopped n = inr refl
cases_of failed n = inl refl
cases_of interrupted n = cc

abbrev pub Grows : ExtensionHost → ExtensionHost → Type 0
Grows h new =
    ((p : ExtensionProvider) → In p h.started → In p new.started)
    × ((p : ExtensionProvider) → In p h.stop_pending → In p new.stop_pending)

module _ (stops : ExtensionProvider → StopOutcome)
    (calm : (p : ExtensionProvider) → is_interrupted (stops p) ≡ false) where
  abbrev refuses : ExtensionProvider → Bool
  refuses p = is_failed (stops p)

  pub stop_providers-Adds :
      (ps : List ExtensionProvider) (h : ExtensionHost)
      → ((stop_providers stops ps h).0 ≡ ok tt)
        × Adds h (keep refuses ps) (stop_providers stops ps h).1
  unfolding stop_providers keep
  stop_providers-Adds [] h = (refl, (refl, sym (append-nil h.stop_pending), refl))
  stop_providers-Adds (p ∷ ps) h =
      let after : ExtensionHost = (cleanup p (stops p) h).1 in
      let (started, waiting, cache) = cleanup-Adds p (stops p) h in
      let (fine, (started', waiting', cache')) = stop_providers-Adds ps after in
      rw
        (proceed_ok (cleanup p (stops p) h) (stop_providers stops ps)
          (cleanup-ok p (stops p) h (calm p)))
        (
          fine,
          (
            started' ∙ started,
            waiting'
                ∙ kept (refuses p) p h.stop_pending (keep refuses ps) after.stop_pending waiting,
            cache' ∙ cache,
          ),
        )

  -- A stop that no native cancellation leaves ends well and forgets the tools. No extension is started
  -- then, and those whose stop failed wait to be stopped again: of the started ones, in the order opposite
  -- to that of their start, and then of those that had waited before.
  pub stop-pending :
      (h : ExtensionHost)
      → ((stop stops h).0 ≡ ok tt)
        × ((stop stops h).1.started ≡ [])
        × ((stop stops h).1.tool_cache ≡ none)
        × ((stop stops h).1.stop_pending
            ≡ keep (λ p. is_failed (stops p)) (reversed h.started ++ h.stop_pending))
  unfolding stop
  stop-pending h =
      let (fine, (started, waiting, cache)) =
        stop_providers-Adds (reversed h.started ++ h.stop_pending)
          (record h { started = []; stop_pending = []; tool_cache = none }) in
      (fine, started, cache, waiting)
