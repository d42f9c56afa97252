-- ===== src/Core/Logging/Laws.antt =====
-- Which logs a record reaches.
use mangle_apis.Base.{
  ℕ, ◌≤◌, ◌≡◌, ◌↔◌, ◌⊎◌, refl, Bool, true, false, List, [], ◌∷◌, ◌++◌, not, ◌&&◌, leb, ◌==◌, ==_iff,
  Bool-cases, inl, inr, arith,
}
use mangle_apis.Base.Text.{Text, bytes}
use mangle_apis.Core.Logging.{
  Record, Levels, Logs, security, routing_regex_raw, starts_with, non_stderr, chain, dispatch,
}

-- The record is written at the end of the log if the condition holds, and otherwise the log stays.
abbrev pub WrittenIf : Type 0 → Record → List Record → List Record → Type 0
WrittenIf Condition r before after =
    (Condition × (after ≡ before ++ r ∷ [])) ⊎ (¬ Condition × (after ≡ before))

chain-WrittenIf :
    (Condition : Type 0) (test : Bool) (r : Record) (log : List Record)
    → ((test ≡ true) ↔ Condition)
    → WrittenIf Condition r log (chain test r log)
chain-WrittenIf Condition true r log decides = inl (decides.0 refl, refl)
chain-WrittenIf Condition false r log decides = inr (λ c. absurd (cc (decides.1 c)), refl)

-- The target of the security log, or one that continues it.
abbrev pub IsSecurity : Text → Type 0
IsSecurity target = (rest : Text) × (target ≡ security ++ rest)

pub starts_with_iff :
    (prefix target : Text)
    → (starts_with prefix target ≡ true) ↔ ((rest : Text) × (target ≡ prefix ++ rest))
unfolding starts_with
starts_with_iff [] target = (λ e. (target, refl), λ p. refl)
starts_with_iff (c ∷ prefix) [] = (λ e. absurd (cc), λ p. absurd (cc (p.1)))
starts_with_iff (c ∷ prefix) (d ∷ target) = elim (Bool-cases (c == d)) [
  | inl same ↦
      let e : c ≡ d = (==_iff c d).0 same in
      let (to, back) = starts_with_iff prefix target in
      rw same (λ h. let (rest, q) = to h in (rest, cc (e, q)), λ p. back (p.0, cc (p.1)))
  | inr differ ↦ rw differ (λ h. absurd (cc), λ p. absurd (cc (differ, (==_iff c d).1 (cc (p.1)))))
]

module _ (is_match : Text → Text → Bool)
    (prefix_regex : (target : Text)
      → (is_match (bytes "^" ++ security) target ≡ true) ↔ IsSecurity target) where
  -- The target is one of routing.
  abbrev pub IsRouting : Text → Type 0
  IsRouting target = is_match routing_regex_raw target ≡ true

  non_stderr_iff :
      (target : Text)
      → (not (non_stderr is_match target) ≡ true) ↔ (¬ IsSecurity target × ¬ IsRouting target)
  unfolding non_stderr
  non_stderr_iff target = elim (Bool-cases (is_match routing_regex_raw target)) [
    | inl routing ↦ rw routing (λ e. absurd (cc), λ p. absurd (p.1 refl))
    | inr other ↦ elim (Bool-cases (is_match (bytes "^" ++ security) target)) [
      | inl secure ↦
          rw (other, secure) (λ e. absurd (cc), λ p. absurd (p.0 ((prefix_regex target).0 secure)))
      | inr outside ↦
          rw (other, outside)
            (
              λ e. (λ s. absurd (cc (outside, (prefix_regex target).1 s)), λ q. absurd (cc)),
              λ p. refl,
            )
    ]
  ]

  -- With a crate that matches an anchored literal as a prefix, a record is written to the terminal, and to
  -- its file, if and only if its target neither starts with that of the security log nor is one of
  -- routing, and its level is within the one set for the terminal, or for its file; to the routing file if
  -- and only if its target is one of routing and its level is within the one set there; and to the
  -- security file if and only if its target starts with that of the security log, at whatever level.
  -- It is written at the end, and a log to which it is not written stays as it is.
  pub dispatch_lem :
      (levels : Levels) (r : Record) (before : Logs)
      → let after = dispatch is_match levels r before in
        WrittenIf
          ((¬ IsSecurity r.target × ¬ IsRouting r.target) × (r.level ≤ levels.critical))
          r
          before.stderr
          after.stderr
        × WrittenIf
            ((¬ IsSecurity r.target × ¬ IsRouting r.target) × (r.level ≤ levels.stderr))
            r
            before.stderr_file
            after.stderr_file
        × WrittenIf
            (IsRouting r.target × (r.level ≤ levels.routing))
            r
            before.routing_file
            after.routing_file
        × WrittenIf (IsSecurity r.target) r before.security_file after.security_file
  unfolding dispatch
  dispatch_lem levels r before = (
    chain-WrittenIf _ _ r before.stderr (both_iff (non_stderr_iff r.target) levels.critical),
    chain-WrittenIf _ _ r before.stderr_file (both_iff (non_stderr_iff r.target) levels.stderr),
    chain-WrittenIf _ _ r before.routing_file (both_iff (λ e. e, λ e. e) levels.routing),
    chain-WrittenIf _ _ r before.security_file (starts_with_iff security r.target),
  )
    where
      both_iff :
          {test : Bool} {Condition : Type 0}
          → ((test ≡ true) ↔ Condition)
          → (level : ℕ) → ((test && leb r.level level) ≡ true) ↔ (Condition × (r.level ≤ level))
      both_iff decides level = (
        λ e. (decides.0 (ground (arith, e)), ground (arith, e)),
        λ p. let q = decides.1 (p.0) in ground (arith, p.1, q),
      )
