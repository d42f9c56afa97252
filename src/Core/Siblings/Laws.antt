-- ===== src/Core/Siblings/Laws.antt =====
-- Which siblings are accepted, until when.
use mangle_apis.Base.{
  ◌≡◌, refl, sym, ap, ◌∙◌, Bool, false, Option, none, some, List, [], ◌∷◌, ◌++◌, append-nil,
  append_assoc,
}
use mangle_apis.Base.Text.{Text}
use mangle_apis.Core.Api.{SocketAddr}
use mangle_apis.Core.Siblings.{
  Accepted, accept_error, stream, Acceptor, drop_future, spawn, accept_loop,
}

-- Calls of `accept` of which none gives a stranger, with the names of the siblings in order.
module _ (get_by_right : SocketAddr → Option Text) where
  pub data Siblings : List Accepted → List Text → Type 0 where
    nobody : Siblings [] []
    skipped :
        {more : List Accepted} {names : List Text}
        → Siblings more names
        → Siblings (accept_error ∷ more) names
    sibling :
        {more : List Accepted} {names : List Text} (addr : SocketAddr) (tls : Bool) (name : Text)
        → get_by_right addr ≡ some name
        → Siblings more names
        → Siblings (stream addr tls ∷ more) (name ∷ names)

module _ {H : Type 0} (get_by_right : SocketAddr → Option Text) (handle : Text → H → H) where
  accept_loop-append :
      (before after : List Accepted) (names : List Text) (acceptor : Acceptor H)
      → Siblings get_by_right before names
      → accept_loop get_by_right handle (before ++ after) acceptor
        ≡ accept_loop get_by_right handle after
            (record acceptor { spawned = acceptor.spawned ++ names })
  unfolding accept_loop spawn drop_future
  accept_loop-append _ after _ acceptor nobody =
      ap (λ l. accept_loop get_by_right handle after (record acceptor { spawned = l }))
        (sym (append-nil acceptor.spawned))
  accept_loop-append _ after names acceptor (skipped {more} h) =
      accept_loop-append more after names acceptor h
  accept_loop-append _ after _ acceptor (sibling {more} {names} addr tls name known h) =
      rw (known, accept_loop)
        (accept_loop-append more after names
            (record acceptor { spawned = acceptor.spawned ++ name ∷ [] }) h
          ∙ ap (λ l. accept_loop get_by_right handle after (record acceptor { spawned = l }))
              (append_assoc acceptor.spawned (name ∷ []) names))

  -- The accepting task spawns a task for each sibling that connects, in order, past the errors of
  -- `accept`, until somebody connects whose address is no sibling's: then it warns and ends, and whoever
  -- connects afterwards is not accepted. Whatever the tasks do with a connection, the handler stays as it
  -- was, with or without TLS.
  pub accept_loop_lem :
      (before after : List Accepted) (names : List Text) (addr : SocketAddr) (tls : Bool)
      (acceptor : Acceptor H)
      → Siblings get_by_right before names
      → get_by_right addr ≡ none
      → (accept_loop get_by_right handle before acceptor
          ≡ record acceptor { spawned = acceptor.spawned ++ names })
        × (accept_loop get_by_right handle (before ++ stream addr tls ∷ after) acceptor
            ≡ record acceptor {
              running = false;
              warned = acceptor.warned ++ addr ∷ [];
              spawned = acceptor.spawned ++ names;
            })
  unfolding accept_loop
  accept_loop_lem before after names addr tls acceptor h unknown = (
    ap (λ l. accept_loop get_by_right handle l acceptor) (sym (append-nil before))
        ∙ accept_loop-append before [] names acceptor h,
    accept_loop-append before (stream addr tls ∷ after) names acceptor h
        ∙ rw (unknown, accept_loop) refl,
  )
