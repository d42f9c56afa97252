-- ===== src/Bola/WsApi/Request.antt =====
-- `FromRequest for SessionState`: the session of a new connection, which is refused if its player has
-- one already.
use mangle_apis.Base.{Option, none, some, if◌then◌else◌}
use mangle_apis.Base.Map.{MapApi}
use mangle_apis.Base.Text.{Text}
use mangle_apis.Base.Outcome.{Outcome, ok, err, panic}
use mangle_apis.Core.Token.{TokenEntry, VerifiedToken}
use mangle_apis.Core.Token.BiMap.{BiMapApi}
use mangle_apis.Core.Token.Request.{
  TokenVerificationError, missing_token, HeaderTokenConfig, Parts, from_request_parts,
}
use mangle_apis.Bola.WsApi.{LoginTokenData, WsApiHandler, SessionState, connected}

-- `Self::Rejection`: the response to a connection that is not taken.
pub data Rejection : Type 0 where
  -- 409, "Already Connected"
  conflict : Rejection
  -- the response of a `TokenVerificationError`
  bad_token : TokenVerificationError → Rejection

module _ (C : MapApi Text (Unit {0}))
    (B : BiMapApi Text LoginTokenData (TokenEntry LoginTokenData) (λ e. e.identifier)) where
  unfoldable pub take_session :
      WsApiHandler C B
      → Outcome TokenVerificationError (VerifiedToken LoginTokenData)
      → WsApiHandler C B × Outcome Rejection (SessionState C B)
  take_session h (ok token) =
      if connected C B token.identifier.email h then (h, err conflict) else (
        record h { connections = C.insert h.connections token.identifier.email tt },
        ok (record { login_token = some token }),
      )
  take_session h (err missing_token) = (h, ok (record { login_token = none }))
  take_session h (err e) = (h, err (bad_token e))
  take_session h panic = (h, panic)

  unfoldable pub from_request :
      HeaderTokenConfig
      → (Text → Option Text)
      → Parts
      → WsApiHandler C B
      → WsApiHandler C B × Outcome Rejection (SessionState C B)
  from_request config from_str parts h =
      let (granter, verified) = from_request_parts B config from_str parts h.login_tokens in
      take_session (record h { login_tokens = granter }) verified
