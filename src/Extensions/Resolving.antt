-- ===== src/Extensions/Resolving.antt =====
-- extensions/host.py: the tools that `_resolved_tools` gives.
use tricoder_agent.Base.{
  ℕ, suc, ◌≤◌, List, [], ◌∷◌, Bool, true, false, not, Option, none, some, ◌≡◌, refl, inl, inr,
  if◌then◌else◌, ltb, keep, count_if, contains, Distinct, map, All, All-map, All-keep, All-append,
  ◌++◌, ap, ◌∙◌, eqb, Option-cases, Text, ◌==◌, ==_refl, nat_eq, list_eq, Bool-cases, arith, In,
  All-intro, In-keep,
}
use tricoder_agent.Extensions.{
  ExtensionProvider, ToolHandler, ExtensionHost, Tool, name_of, is_tool_name, candidates_of,
  candidates_from, resolve_from, resolved_tools,
}

abbrev named : Text → List Tool → ℕ
named name ts = count_if (λ other. name_of other == name) ts

abbrev is_unique : List Tool → Tool → Bool
is_unique candidates t = not (ltb 1 (named (name_of t) candidates))

resolve_from-keep :
    (candidates ts : List Tool) (h : ExtensionHost)
    → (resolve_from candidates ts h).0 ≡ keep (is_unique candidates) ts
unfolding resolve_from keep
resolve_from-keep candidates [] h = refl
resolve_from-keep candidates (t ∷ ts) h = elim (Bool-cases (ltb 1 (named (name_of t) candidates))) [
  | inl c ↦ rw (c, resolve_from-keep candidates ts _) refl
  | inr c ↦ rw (c, resolve_from-keep candidates ts _) refl
]

absent :
    (candidates ts : List Tool) (name : Text)
    → named name ts ≡ 0
    → contains (map name_of (keep (is_unique candidates) ts)) name ≡ false
unfolding contains keep count_if
absent candidates [] name e = refl
absent candidates (t ∷ ts) name e = elim (Bool-cases (name_of t == name)) [
  | inl same ↦ absurd (omega (arith, rw same at e))
  | inr other ↦
      let rest = absent candidates ts name (rw other at e) in
      elim (Bool-cases (is_unique candidates t)) [ inl u ↦ rw (u, other) rest | inr u ↦ rw u rest ]
]

-- Every name of what is kept stands there once.
keep-Distinct :
    (candidates ts : List Tool)
    → ((name : Text) → named name ts ≤ named name candidates)
    → Distinct (map name_of (keep (is_unique candidates) ts))
unfolding keep count_if
keep-Distinct candidates [] f = tt
keep-Distinct candidates (t ∷ ts) f =
    let smaller : (name : Text) → named name ts ≤ named name candidates =
      λ name. less name (name_of t == name) (f name) in
    elim (Bool-cases (is_unique candidates t)) [
      | inl u ↦
          let whole : suc (named (name_of t) ts) ≤ named (name_of t) candidates =
            rw (==_refl (name_of t)) at (f (name_of t)) in
          rw u (
            absent candidates ts (name_of t) (ground (arith, u, whole)),
            keep-Distinct candidates ts smaller,
          )
      | inr u ↦ rw u (keep-Distinct candidates ts smaller)
    ]
  where
    less : {m n : ℕ} (name : Text) (b : Bool) → (if b then suc m else m) ≤ n → m ≤ n
    less name b l = ground arith

-- A tool of a started extension that gave it, with a proper name.
abbrev pub IsGiven :
    (ExtensionProvider → Option (List ToolHandler)) → List ExtensionProvider → Tool → Type 0
IsGiven handlers started t =
    In t.0 started
    × ((given : List ToolHandler) × (handlers t.0 ≡ some given) × In t.1 given)
    × (is_tool_name (name_of t) ≡ true)

paired :
    (handlers : ExtensionProvider → Option (List ToolHandler)) (p : ExtensionProvider)
    (given valid : List ToolHandler) (ps : List ExtensionProvider)
    → handlers p ≡ some given
    → All (λ t. In t given × (is_tool_name t.name ≡ true)) valid
    → All (IsGiven handlers (p ∷ ps)) (map (λ t. (p, t)) valid)
paired handlers p given [] ps e a = tt
paired handlers p given (t ∷ valid) ps e ((m, n), a) =
    ((inl refl, (given, e, m), n), paired handlers p given valid ps e a)

candidates_of-IsGiven :
    (handlers : ExtensionProvider → Option (List ToolHandler)) (p : ExtensionProvider)
    (ps : List ExtensionProvider) (o : Option (List ToolHandler)) (h : ExtensionHost)
    → handlers p ≡ o
    → All (IsGiven handlers (p ∷ ps)) (candidates_of p o h).0
unfolding candidates_of
candidates_of-IsGiven handlers p ps none h e = tt
candidates_of-IsGiven handlers p ps (some given) h e =
    paired handlers p given (keep (λ t. is_tool_name t.name) given) ps e (
      All-intro (keep (λ t. is_tool_name t.name) given)
        (λ t m. (In-keep (λ u. is_tool_name u.name) given t).0 m))

candidates_from-IsGiven :
    (handlers : ExtensionProvider → Option (List ToolHandler)) (ps : List ExtensionProvider)
    (h : ExtensionHost)
    → All (IsGiven handlers ps) (candidates_from handlers ps h).0
unfolding candidates_from
candidates_from-IsGiven handlers [] h = tt
candidates_from-IsGiven handlers (p ∷ ps) h =
    let found : List Tool × ExtensionHost = candidates_of p (handlers p) h in
    All-append (IsGiven handlers (p ∷ ps)) found.0 (candidates_from handlers ps found.1).0
      (candidates_of-IsGiven handlers p ps (handlers p) h refl)
      (All-map (λ t (m, g, n). (inr m, g, n)) (candidates_from handlers ps found.1).0
        (candidates_from-IsGiven handlers ps found.1))

-- What the started extensions offer: the tools of proper names of those that give a list, in order.
unfoldable pub offered :
    (ExtensionProvider → Option (List ToolHandler)) → List ExtensionProvider → List Tool
offered handlers [] = []
offered handlers (p ∷ ps) =
    (elim (handlers p) [
      | none ↦ []
      | some given ↦ map (λ t. (p, t)) (keep (λ t. is_tool_name t.name) given)
    ])
    ++ offered handlers ps

candidates_from-offered :
    (handlers : ExtensionProvider → Option (List ToolHandler)) (ps : List ExtensionProvider)
    (h : ExtensionHost)
    → (candidates_from handlers ps h).0 ≡ offered handlers ps
unfolding candidates_from candidates_of offered
candidates_from-offered handlers [] h = refl
candidates_from-offered handlers (p ∷ ps) h = elim (Option-cases (handlers p)) [
  | inl e ↦ rw e (candidates_from-offered handlers ps _)
  | inr (given, e) ↦ rw (e, candidates_from-offered handlers ps _) refl
]

-- A name is the tool's only, among the tools that are offered.
abbrev pub is_only : List Tool → Tool → Bool
is_only tools t = eqb (named (name_of t) tools) 1

named-In : (tools : List Tool) (t : Tool) → In t tools → 1 ≤ named (name_of t) tools
unfolding count_if
named-In [] t m = elim m [ ]
named-In (u ∷ tools) t (inl e) = rw (e, ==_refl (name_of t)) (omega arith)
named-In (u ∷ tools) t (inr m) = ground (arith, named-In tools t m)

keep-same :
    (p q : Tool → Bool) (tools : List Tool)
    → All (λ t. p t ≡ q t) tools
    → keep p tools ≡ keep q tools
unfolding keep
keep-same p q [] a = refl
keep-same p q (t ∷ tools) a = rw (a.0, keep-same p q tools a.1) refl

keep-only : (tools : List Tool) → keep (is_unique tools) tools ≡ keep (is_only tools) tools
keep-only tools =
    keep-same (is_unique tools) (is_only tools) tools
      (All-intro tools (λ t m. once (named (name_of t) tools) (named-In tools t m)))
  where
    once : (n : ℕ) → 1 ≤ n → not (ltb 1 n) ≡ eqb n 1
    once n l = ground arith

abbrev pub unresolved : ExtensionHost → ExtensionHost
unresolved h = record h { tool_cache = none }

-- The tools that a host without resolved ones resolves are, in order, those that the started extensions
-- offer and whose name no other offered tool has: of tools with the same name none wins, and any other
-- is resolved. So their names are different; each has a proper name and was given by a started
-- extension. They are kept: what the extensions give later changes nothing.
pub resolved_tools-Distinct :
    (handlers later : ExtensionProvider → Option (List ToolHandler)) (h : ExtensionHost)
    → ((resolved_tools handlers (unresolved h)).0
        ≡ keep (is_only (offered handlers h.started)) (offered handlers h.started))
      × Distinct (map name_of (resolved_tools handlers (unresolved h)).0)
      × All (IsGiven handlers h.started) (resolved_tools handlers (unresolved h)).0
      × ((resolved_tools later (resolved_tools handlers (unresolved h)).1).0
          ≡ (resolved_tools handlers (unresolved h)).0)
unfolding resolved_tools
resolved_tools-Distinct handlers later h =
    let found : List Tool × ExtensionHost = candidates_from handlers h.started (unresolved h) in
    let all : found.0 ≡ offered handlers h.started =
      candidates_from-offered handlers h.started (unresolved h) in
    (
      resolve_from-keep found.0 found.0 found.1
          ∙ (ap (λ ts. keep (is_unique ts) ts) all ∙ keep-only (offered handlers h.started)),
      (rw (resolve_from-keep found.0 found.0 found.1)
          (keep-Distinct found.0 found.0 (λ name. omega arith))),
      (rw (resolve_from-keep found.0 found.0 found.1) (
          All-keep (IsGiven handlers h.started) (is_unique found.0) found.0
            (candidates_from-IsGiven handlers h.started (unresolved h)))),
      refl,
    )
