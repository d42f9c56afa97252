-- ===== src/Core/Openid/Tests.antt =====
-- Sign-ins with a client that turns a code into a token of the same text.
use mangle_apis.Base.{ℕ, ◌≡◌, refl, true, false, some, List, [], ◌∷◌, ◌++◌}
use mangle_apis.Base.Text.{Text, bytes, text_eq}
use mangle_apis.Base.Map.{MapApi, assoc_map, text_map}
use mangle_apis.Core.Openid.{
  AuthPages, token, ClientApi, PendingSession, OidcState, track_session, verify_auth,
}
use mangle_apis.Core.Openid.Laws.{
  Event, tracked, untracked, run, redirect_once, answer_reaches_sender,
}

abbrev Sessions : MapApi Text (PendingSession ℕ)
Sessions = text_map (PendingSession ℕ)

abbrev api : ClientApi ℕ Text Text
api = record {
  request_token = λ client code. token (some code);
  decode_token = λ client id_token. some id_token;
  validate_token = λ client id_token. true;
  userinfo = λ id_token. id_token;
}

abbrev nobody : OidcState Sessions api
nobody = record { pending_auths = Sessions.empty; sent = [] }

abbrev pages : AuthPages
pages = record {
  late = bytes "late";
  invalid = bytes "invalid";
  internal_error = bytes "error";
  success = bytes "success";
}

abbrev others : List (Event ℕ)
others = tracked (bytes "bbb") 2 8 ∷ untracked (bytes "ccc") ∷ []

b_is_other : Sessions.key_eq (bytes "bbb") (bytes "aaa") ≡ false
unfolding text_map assoc_map text_eq
b_is_other = refl

c_is_other : Sessions.key_eq (bytes "ccc") (bytes "aaa") ≡ false
unfolding text_map assoc_map text_eq
c_is_other = refl

redirect_once_example :
    let later =
      run Sessions api others
        (verify_auth Sessions api
          (bytes "mail")
          (bytes "aaa")
          pages
          (track_session Sessions api (bytes "aaa") 1 7 nobody)).0 in
    verify_auth Sessions api (bytes "mail") (bytes "aaa") pages later ≡ (later, bytes "late")
redirect_once_example =
    redirect_once Sessions api (bytes "mail") (bytes "aaa") pages
      (track_session Sessions api (bytes "aaa") 1 7 nobody) others (b_is_other, (tt, tt))
      (bytes "mail") pages

answer_reaches_sender_example :
    let later = run Sessions api others (track_session Sessions api (bytes "aaa") 1 7 nobody) in
    ((verify_auth Sessions api (bytes "mail") (bytes "aaa") pages later).0.sent
      ≡ later.sent ++ (7, bytes "mail") ∷ [])
    × ((verify_auth Sessions api (bytes "mail") (bytes "aaa") pages later).1 ≡ bytes "success")
answer_reaches_sender_example =
    answer_reaches_sender Sessions api (bytes "aaa") 1 7 nobody others
      (b_is_other, (c_is_other, tt)) (bytes "mail") pages (bytes "mail") (bytes "mail") refl refl
      refl
