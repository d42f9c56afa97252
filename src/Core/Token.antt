-- ===== src/Core/Token.antt =====
-- mangle-api-core/src/auth/token.rs: tokens that identify a user for a limited time.
-- The table `tokens` is a `bimap::BiMap`, given behind its documented laws. An entry owns the task
-- that sleeps for `token_duration` and then removes the token, and dropping an entry aborts its task;
-- so there is a task exactly for each entry, and it stands in the entry as the time at which it
-- wakes up. Times are in seconds. The random bytes of a new token are an argument.
pub mod BiMap
pub mod Laws
pub mod Trace
pub mod Request
mod Tests
use mangle_apis.Base.{ℕ, ◌+◌, Option, none, some, leb, if◌then◌else◌, ◌==◌, length, List}
use mangle_apis.Base.Text.{Text}
use mangle_apis.Core.Token.BiMap.{BiMapApi}

-- `TokenEntry`: `wakes_at` stands for the task behind `_expiry_handle`.
pub record TokenEntry (I : Type 0) : Type 0 where
  pub wakes_at : ℕ
  pub identifier : I

pub record VerifiedToken (I : Type 0) : Type 0 where
  pub token : Text
  pub identifier : I

module _ {I : Type 0} (B : BiMapApi Text I (TokenEntry I) (λ e. e.identifier)) where
  pub record TokenGranter : Type 0 where
    pub tokens : B.Map
    pub token_duration : ℕ

  unfoldable pub new : ℕ → TokenGranter
  new token_duration = record { tokens = B.empty; token_duration = token_duration }

  -- `token` is the random sample, and `now` the time of the call.
  unfoldable pub create_token : I → Text → ℕ → TokenGranter → TokenGranter × VerifiedToken I
  create_token id token now g =
      let entry : TokenEntry I = record { wakes_at = now + g.token_duration; identifier = id } in
      (
        record g { tokens = B.insert g.tokens token entry },
        record { token = token; identifier = id },
      )

  unfoldable pub revoke_token : Text → TokenGranter → TokenGranter
  revoke_token token g = record g { tokens = B.remove g.tokens token }

  -- The entry is taken out of the table, with its key, and put back.
  unfoldable pub verify_token : Text → TokenGranter → TokenGranter × Option (VerifiedToken I)
  verify_token token g = elim (B.get g.tokens token) [
    | none ↦ (g, none)
    | some entry ↦ (
      record g { tokens = B.insert (B.remove g.tokens token) token entry },
      some (record { token = token; identifier = entry.identifier }),
    )
  ]

  -- The task of a token, at time `now`: it has woken up, or still sleeps.
  unfoldable pub run_task : Text → ℕ → TokenGranter → TokenGranter
  run_task token now g = elim (B.get g.tokens token) [
    | none ↦ g
    | some entry ↦
        if leb entry.wakes_at now then record g { tokens = B.remove g.tokens token } else g
  ]
