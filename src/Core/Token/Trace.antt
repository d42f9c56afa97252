-- ===== src/Core/Token/Trace.antt =====
-- Who holds a token after any sequence of calls and expiries, said from the sequence alone.
use mangle_apis.Base.{
  ℕ, ◌+◌, ◌≤◌, ◌<◌, ◌≡◌, refl, sym, ap, ◌∙◌, inl, inr, Bool, true, false, Option, none, some, arith,
  leb, if◌then◌else◌, Bool-cases, Option-cases, List, [], ◌∷◌, ◌++◌, All,
}
use mangle_apis.Base.Text.{Text}
use mangle_apis.Core.Token.BiMap.{BiMapApi, unless}
use mangle_apis.Core.Token.{
  TokenEntry, TokenGranter, new, create_token, revoke_token, verify_token, run_task,
}
use mangle_apis.Core.Token.Laws.{
  IsSingle, SameTokens, as_verified, get-create_token, verify_token_lem, create_token-IsSingle,
  remove-IsSingle, IsSingle-sub,
}

-- One call, or one run of a token's task, with its time where that matters.
pub data Event (I : Type 0) : Type 0 where
  created : I → Text → ℕ → Event I
  revoked : Text → Event I
  verified : Text → Event I
  ran : Text → ℕ → Event I

module _ {I : Type 0} (B : BiMapApi Text I (TokenEntry I) (λ e. e.identifier)) (duration : ℕ) where
  open B use {get, left_eq, right_eq, left_eq_iff, get-remove, get-empty}

  -- The state after the events, of which the latest stands first.
  unfoldable pub replay : List (Event I) → TokenGranter B
  replay [] = new B duration
  replay (created id token now ∷ h) = (create_token B id token now (replay h)).0
  replay (revoked token ∷ h) = revoke_token B token (replay h)
  replay (verified token ∷ h) = (verify_token B token (replay h)).0
  replay (ran token now ∷ h) = run_task B token now (replay h)

  abbrev pub awake : ℕ → Option (TokenEntry I) → Option (TokenEntry I)
  awake now none = none
  awake now (some e) = if leb e.wakes_at now then none else some e

  -- The entry of a token, read off the events: its creation, unless later it was revoked, its
  -- task woke up, or its identity was given another token.
  unfoldable pub holder : Text → List (Event I) → Option (TokenEntry I)
  holder t [] = none
  holder t (created id token now ∷ h) =
      if left_eq token t
      then some (record { wakes_at = now + duration; identifier = id })
      else unless (λ w. right_eq w.identifier id) (holder t h)
  holder t (revoked token ∷ h) = if left_eq token t then none else holder t h
  holder t (verified token ∷ h) = holder t h
  holder t (ran token now ∷ h) = if left_eq token t then awake now (holder t h) else holder t h

  get-run_task :
      (token : Text) (now : ℕ) (g : TokenGranter B) (t : Text)
      → get (run_task B token now g).tokens t
        ≡ (if left_eq token t then awake now (get g.tokens t) else get g.tokens t)
  unfolding run_task
  get-run_task token now g t = elim (Option-cases (get g.tokens token)) [
    | inl gone ↦
        rw (gone, run_task)
          (elim (Bool-cases (left_eq token t)) [
            | inl same ↦ let e = (left_eq_iff token t).0 same in rw same (rw (← e, gone))
            | inr other ↦ rw other
          ])
    | inr (e, found) ↦ elim (Bool-cases (leb e.wakes_at now)) [
      | inl due ↦
          rw (found, run_task)
            (rw (due, get-remove g.tokens token t)
              (elim (Bool-cases (left_eq token t)) [
                | inl same ↦ let p = (left_eq_iff token t).0 same in rw same (rw (← p, found, due))
                | inr other ↦ rw other
              ]))
      | inr early ↦
          rw (found, run_task)
            (rw early (elim (Bool-cases (left_eq token t)) [
              | inl same ↦ let p = (left_eq_iff token t).0 same in rw same (rw (← p, found, early))
              | inr other ↦ rw other
            ]))
    ]
  ]

  awake-some :
      (b : Bool) (now : ℕ) (o : Option (TokenEntry I)) (x : TokenEntry I)
      → (if b then awake now o else o) ≡ some x
      → o ≡ some x
  awake-some false now o x e = e
  awake-some true now none x e = cc
  awake-some true now (some w) x e = ground (arith, e)

  duration-run_task :
      (token : Text) (now : ℕ) (g : TokenGranter B)
      → (run_task B token now g).token_duration ≡ g.token_duration
  unfolding run_task
  duration-run_task token now g = elim (Option-cases (get g.tokens token)) [
    | inl gone ↦ rw (gone, run_task)
    | inr (e, found) ↦
        rw (found, run_task)
          (elim (Bool-cases (leb e.wakes_at now)) [ inl due ↦ rw due | inr early ↦ rw early ])
  ]

  duration-create_token :
      (id : I) (token : Text) (now : ℕ) (g : TokenGranter B)
      → (create_token B id token now g).0.token_duration ≡ g.token_duration
  unfolding create_token
  duration-create_token id token now g = refl

  record Follows (h : List (Event I)) : Type 0 where
    duration_kept : (replay h).token_duration ≡ duration
    one : IsSingle B (replay h)
    holds : (t : Text) → get (replay h).tokens t ≡ holder t h

  replay-Follows : (h : List (Event I)) → Follows h
  unfolding replay holder new revoke_token
  replay-Follows [] = record {
    duration_kept = refl;
    one = record { single = λ s t x y p q e. nothing s x p };
    holds = λ t. get-empty t;
  }
    where
      nothing :
          (s : Text) (x : TokenEntry I)
          → get (new B duration).tokens s ≡ some x
          → {t : Text} → s ≡ t
      nothing s x p = let e : get (new B duration).tokens s ≡ none = unfold new in get-empty s in cc
  replay-Follows (created id token now ∷ h) =
      let f = replay-Follows h in
      record {
        duration_kept = duration-create_token id token now (replay h) ∙ f.duration_kept;
        one = create_token-IsSingle B (replay h) f.one id token now;
        holds = λ t. rw (get-create_token B id token now (replay h) t, f.duration_kept, f.holds t);
      }
  replay-Follows (revoked token ∷ h) =
      let f = replay-Follows h in
      record {
        duration_kept = f.duration_kept;
        one = remove-IsSingle B (replay h) f.one token;
        holds = λ t. rw (get-remove (replay h).tokens token t, f.holds t);
      }
  replay-Follows (verified token ∷ h) =
      let f = replay-Follows h in
      let same = (verify_token_lem B token (replay h) f.one).0 in
      record {
        duration_kept = same.duration ∙ f.duration_kept;
        one =
            IsSingle-sub B (replay h) (verify_token B token (replay h)).0 f.one
              (λ s x p. sym (same.tokens_at s) ∙ p);
        holds = λ t. same.tokens_at t ∙ f.holds t;
      }
  replay-Follows (ran token now ∷ h) =
      let f = replay-Follows h in
      record {
        duration_kept = duration-run_task token now (replay h) ∙ f.duration_kept;
        one = IsSingle-sub B (replay h) (run_task B token now (replay h)) f.one (λ s x p.
            awake-some (left_eq token s) now (get (replay h).tokens s) x
              (sym (get-run_task token now (replay h) s) ∙ p));
        holds = λ t. rw (get-run_task token now (replay h) t, f.holds t);
      }

  -- After any sequence of calls and expiries, verifying a token succeeds exactly when the sequence
  -- gives it a holder, and then gives the holder's identity; and it changes nobody's token.
  pub verify-holder :
      (h : List (Event I)) (token : Text)
      → ((verify_token B token (replay h)).1 ≡ as_verified token (holder token h))
        × SameTokens B (verify_token B token (replay h)).0 (replay h)
  verify-holder h token =
      let f = replay-Follows h in
      let (same, answer) = verify_token_lem B token (replay h) f.one in
      (answer ∙ ap (as_verified token) (f.holds token), same)

  -- An event after which a token that is not yet due still has its holder.
  abbrev pub Spares : Text → I → ℕ → Event I → Type 0
  Spares t id due (created i token now) = (left_eq token t ≡ false) × (right_eq id i ≡ false)
  Spares t id due (revoked token) = left_eq token t ≡ false
  Spares t id due (verified token) = Unit
  Spares t id due (ran token now) = now < due

  left_eq_refl : (t : Text) → left_eq t t ≡ true
  left_eq_refl t = (left_eq_iff t t).1 refl

  holder_spared :
      (t : Text) (id : I) (now : ℕ) (before later : List (Event I))
      → All (Spares t id (now + duration)) later
      → holder t (later ++ created id t now ∷ before)
        ≡ some (record { wakes_at = now + duration; identifier = id })
  unfolding holder
  holder_spared t id now before [] h = rw (left_eq_refl t)
  holder_spared t id now before (created i token at ∷ later) h =
      rw (h.0.0, holder_spared t id now before later h.1, h.0.1)
  holder_spared t id now before (revoked token ∷ later) h =
      rw (h.0) (holder_spared t id now before later h.1)
  holder_spared t id now before (verified token ∷ later) h = holder_spared t id now before later h.1
  holder_spared t id now before (ran token at ∷ later) h =
      let sleeps : leb (now + duration) at ≡ false = ground (arith, h.0) in
      rw (holder_spared t id now before later h.1) (elim (Bool-cases (left_eq token t)) [
        | inl same ↦ rw (same, sleeps)
        | inr other ↦ rw other
      ])

  -- From its creation until its duration has passed, a token verifies as its identity, given that in the
  -- meantime it is not revoked, its identity is given no other token at all, and nobody else is given a
  -- token of the same text.
  pub token_stays_valid :
      (t : Text) (id : I) (now : ℕ) (before later : List (Event I))
      → All (Spares t id (now + duration)) later
      → (verify_token B t (replay (later ++ created id t now ∷ before))).1
        ≡ some (record { token = t; identifier = id })
  token_stays_valid t id now before later h =
      (verify-holder (later ++ created id t now ∷ before) t).0
      ∙ ap (as_verified t) (holder_spared t id now before later h)

  -- A token that has a holder fails once its task has run at or after its time.
  pub token_expires :
      (t : Text) (now : ℕ) (h : List (Event I)) (e : TokenEntry I)
      → holder t h ≡ some e
      → e.wakes_at ≤ now
      → (verify_token B t (replay (ran t now ∷ h))).1 ≡ none
  unfolding holder
  token_expires t now h e found due =
      (verify-holder (ran t now ∷ h) t).0 ∙ ap (as_verified t) (asleep (holder t h) found)
    where
      woken : leb e.wakes_at now ≡ true
      woken = ground arith

      asleep :
          (o : Option (TokenEntry I)) → o ≡ some e → (if left_eq t t then awake now o else o) ≡ none
      asleep o p = rw (left_eq_refl t, p, woken)
