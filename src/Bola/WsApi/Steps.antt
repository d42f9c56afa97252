-- ===== src/Bola/WsApi/Steps.antt =====
-- The effects that a session can have on the state, as a step relation.
use mangle_apis.Base.{
  ℕ, zero, suc, ◌≡◌, refl, Bool, false, some, List, [], ◌∷◌, ◌++◌, inl, inr, ◌⊎◌,
}
use mangle_apis.Base.Map.{MapApi}
use mangle_apis.Base.Text.{Text}
use mangle_apis.Base.Outcome.{Outcome, ok, err, panic}
use mangle_apis.Bola.Leaderboard.{Difficulty, LeaderboardEntry, add_leaderboard_entry}
use mangle_apis.Core.Token.{TokenEntry, VerifiedToken, create_token}
use mangle_apis.Core.Token.BiMap.{BiMapApi}
use mangle_apis.Bola.WsApi.{
  LoginTokenData, Reply, CreatedProfile, Ctx, connected, Stop, Arrival, Act, continue, ◌>>=◌, pure,
}

module _ (C : MapApi Text (Unit {0}))
    (B : BiMapApi Text LoginTokenData (TokenEntry LoginTokenData) (λ e. e.identifier)) where
  pub data Step (c : Ctx C B) : Ctx C B → Type 0 where
    sent :
        (r : Reply) (n : ℕ)
        → Step c (record c {
          stream = record c.stream { outbox = c.stream.outbox ++ r ∷ []; sends_left = n };
        })
    received :
        (arrival : Arrival) (rest : List Arrival)
        → c.stream.inbox ≡ arrival ∷ rest
        → Step c (record c { stream = record c.stream { inbox = rest } })
    scored :
        (d : Difficulty) (email : Text) (e : LeaderboardEntry) (accepted : Bool) (now : ℕ)
        → Step c (record c {
          handler = record c.handler {
            leaderboard = (add_leaderboard_entry d email e accepted now c.handler.leaderboard).0;
          };
        })
    token_made :
        (id : LoginTokenData) (token : Text) (now : ℕ)
        → Step c (record c {
          handler = record c.handler {
            login_tokens = (create_token B id token now c.handler.login_tokens).0;
          };
        })
    signed_in :
        (v : VerifiedToken LoginTokenData)
        → Step c (record c { session = record { login_token = some v } })
    profile_made :
        (p : CreatedProfile)
        → Step c (record c { handler = record c.handler { created = c.handler.created ++ p ∷ [] } })
    joined :
        (email : Text)
        → connected C B email c.handler ≡ false
        → Step c (record c {
          handler = record c.handler { connections = C.insert c.handler.connections email tt };
        })

  pub data Reach (c : Ctx C B) : Ctx C B → Type 0 where
    here : Reach c c
    next : {d e : Ctx C B} → Reach c d → Step d e → Reach c e

  pub one : {c d : Ctx C B} → Step c d → Reach c d
  one s = next here s

  pub join : {c d e : Ctx C B} → Reach c d → Reach d e → Reach c e
  join r here = r
  join r (next q s) = next (join r q) s

  -- An action takes such steps.
  abbrev pub Moves : {A : Type 0} → Act (Ctx C B) A → Type 0
  Moves m = (c : Ctx C B) → Reach c (m c).0

  pub continue-Moves :
      {X Y : Type 0} (c : Ctx C B) (o : Outcome Stop X) (f : X → Act (Ctx C B) Y)
      → ((x : X) → Moves (f x))
      → Reach c (continue c o f).0
  continue-Moves c (ok x) f m = m x c
  continue-Moves c (err e) f m = here
  continue-Moves c panic f m = here

  pub then-Moves :
      {X Y : Type 0} (a : Act (Ctx C B) X) (f : X → Act (Ctx C B) Y)
      → Moves a
      → ((x : X) → Moves (f x))
      → Moves (a >>= f)
  then-Moves a f ma mf c = join (ma c) (continue-Moves (a c).0 (a c).1 f mf)

  pub list-cases :
      {X : Type 0} (xs : List X) → (xs ≡ []) ⊎ ((x : X) × (ys : List X) × (xs ≡ x ∷ ys))
  list-cases [] = inl refl
  list-cases (x ∷ ys) = inr (x, ys, refl)

  pub nat-cases : (n : ℕ) → (n ≡ 0) ⊎ ((m : ℕ) × (n ≡ suc m))
  nat-cases zero = inl refl
  nat-cases (suc m) = inr (m, refl)

  pub pure-Moves : {X : Type 0} (x : X) → Moves (pure x)
  pure-Moves x c = here
