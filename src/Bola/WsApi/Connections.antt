-- ===== src/Bola/WsApi/Connections.antt =====
-- The set of connected players in a session of ws_api.rs, and the length of a session.
use mangle_apis.Base.{
  ℕ, zero, suc, ◌≤◌, ◌<◌, ◌≡◌, ◌≢◌, refl, true, arith, Bool-cases, inl, inr, length,
}
use mangle_apis.Base.Map.{MapApi}
use mangle_apis.Base.Text.{Text}
use mangle_apis.Base.Outcome.{ok, err}
use mangle_apis.Core.Token.{TokenEntry, VerifiedToken}
use mangle_apis.Core.Token.BiMap.{BiMapApi}
use mangle_apis.Bola.WsApi.{LoginTokenData, Json, Env, Ctx, connected}
use mangle_apis.Bola.WsApi.Handle.{
  Round, again, ended, panicked, waiting, Exit, returned, crashed, listening, out_of_fuel, round,
  rounds, handle,
}
use mangle_apis.Bola.WsApi.Request.{conflict, take_session}
use mangle_apis.Bola.WsApi.Steps.{
  Step, sent, received, scored, token_made, signed_in, profile_made, joined, Reach, here, next, one,
  join,
}
use mangle_apis.Bola.WsApi.Rounds.{Played, no_frame, frame_read, round-Played}

module _ (C : MapApi Text (Unit {0}))
    (B : BiMapApi Text LoginTokenData (TokenEntry LoginTokenData) (λ e. e.identifier)) where
  Step-connected :
      (email : Text) {c d : Ctx C B}
      → Step C B c d
      → connected C B email c.handler ≡ true
      → connected C B email d.handler ≡ true
  Step-connected email (sent r n) h = h
  Step-connected email (received frame frames e) h = h
  Step-connected email (scored d m e accepted now) h = h
  Step-connected email (token_made id token now) h = h
  Step-connected email (signed_in v) h = h
  Step-connected email (profile_made p) h = h
  Step-connected email {c} (joined m new) h =
      rw (C.get-insert c.handler.connections m tt email)
        (elim (Bool-cases (C.key_eq m email)) [ inl same ↦ rw same refl | inr other ↦ rw other h ])

  Reach-connected :
      (email : Text) {c d : Ctx C B}
      → Reach C B c d
      → connected C B email c.handler ≡ true
      → connected C B email d.handler ≡ true
  Reach-connected email here h = h
  Reach-connected email (next r s) h = Step-connected email s (Reach-connected email r h)

  Step-inbox : {c d : Ctx C B} → Step C B c d → length d.stream.inbox ≤ length c.stream.inbox
  Step-inbox (sent r n) = omega arith
  Step-inbox (received frame frames e) = rw e (omega arith)
  Step-inbox (scored d m e accepted now) = omega arith
  Step-inbox (token_made id token now) = omega arith
  Step-inbox (signed_in v) = omega arith
  Step-inbox (profile_made p) = omega arith
  Step-inbox (joined m new) = omega arith

  Reach-inbox : {c d : Ctx C B} → Reach C B c d → length d.stream.inbox ≤ length c.stream.inbox
  Reach-inbox here = omega arith
  Reach-inbox (next r s) = let a = Reach-inbox r in let b = Step-inbox s in omega arith

  module _ (json : Json) where
    Played-Reach : {c : Ctx C B} {p : Ctx C B × Round} → Played C B json c p → Reach C B c p.0
    Played-Reach no_frame = here
    Played-Reach (frame_read frame frames d r e q) = join C B (one C B (received frame frames e)) q

    Played-inbox :
        {c : Ctx C B} {p : Ctx C B × Round}
        → Played C B json c p
        → p.1 ≡ again
        → length p.0.stream.inbox < length c.stream.inbox
    Played-inbox no_frame clash = ground arith
    Played-inbox (frame_read frame frames d r e q) goes =
        let shorter = Reach-inbox q in rw e (omega arith)

    -- What follows a round, as in `rounds`.
    abbrev after : Ctx C B × Round → Ctx C B × Exit → Ctx C B × Exit
    after p rest = elim p.1 [
      | again ↦ rest
      | ended ↦ (p.0, returned)
      | panicked ↦ (p.0, crashed)
      | waiting ↦ (p.0, listening)
    ]

    after-Reach :
        (c d : Ctx C B) (r : Round) (rest : Ctx C B × Exit)
        → Reach C B c d
        → (r ≡ again → Reach C B d rest.0)
        → Reach C B c (after (d, r) rest).0
    after-Reach c d again rest q more = join C B q (more refl)
    after-Reach c d ended rest q more = q
    after-Reach c d panicked rest q more = q
    after-Reach c d waiting rest q more = q

    after-ends :
        (d : Ctx C B) (r : Round) (rest : Ctx C B × Exit)
        → (r ≡ again → rest.1 ≢ out_of_fuel)
        → (after (d, r) rest).1 ≢ out_of_fuel
    after-ends d again rest more = more refl
    after-ends d ended rest more = λ e. ground arith
    after-ends d panicked rest more = λ e. ground arith
    after-ends d waiting rest more = λ e. ground arith

    pub rounds-Reach :
        (fuel : ℕ) (envs : ℕ → Env) (c : Ctx C B) → Reach C B c (rounds C B json fuel envs c).0
    unfolding rounds
    rounds-Reach zero envs c = here
    rounds-Reach (suc fuel) envs c =
        let one_round = round C B json (envs 0) c in
        after-Reach c one_round.0 one_round.1 (rounds C B json fuel (λ i. envs (suc i)) one_round.0)
          (Played-Reach (round-Played C B json (envs 0) c))
          (λ _. rounds-Reach fuel (λ i. envs (suc i)) one_round.0)

    rounds_end :
        (fuel : ℕ) (envs : ℕ → Env) (c : Ctx C B)
        → length c.stream.inbox < fuel
        → (rounds C B json fuel envs c).1 ≢ out_of_fuel
    unfolding rounds
    rounds_end zero envs c enough = omega arith
    rounds_end (suc fuel) envs c enough =
        let one_round = round C B json (envs 0) c in
        after-ends one_round.0 one_round.1 (rounds C B json fuel (λ i. envs (suc i)) one_round.0)
          (λ goes.
            let shorter = Played-inbox (round-Played C B json (envs 0) c) goes in
            rounds_end fuel (λ i. envs (suc i)) one_round.0 (omega arith))

    -- The fuel of `handle` is enough.
    pub handle_fuel : (envs : ℕ → Env) (c : Ctx C B) → (handle C B json envs c).1 ≢ out_of_fuel
    unfolding handle
    handle_fuel envs c = rounds_end (suc (length c.stream.inbox)) envs c (omega arith)

    -- A player once connected is refused from then on: after any session of any player, a new
    -- connection with a valid token of that player's is answered with 409, though the session that
    -- had connected the player may be over.
    pub stays_connected :
        (envs : ℕ → Env) (c : Ctx C B) (token : VerifiedToken LoginTokenData)
        → connected C B token.identifier.email c.handler ≡ true
        → (take_session C B (handle C B json envs c).0.handler (ok token)).1 ≡ err conflict
    unfolding take_session handle
    stays_connected envs c token h =
        let still : connected C B token.identifier.email (handle C B json envs c).0.handler ≡ true =
          Reach-connected token.identifier.email (rounds-Reach (suc (length c.stream.inbox)) envs c)
            h in
        rw still refl
