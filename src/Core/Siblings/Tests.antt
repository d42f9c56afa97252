-- ===== src/Core/Siblings/Tests.antt =====
-- A sibling, then a stranger, then the sibling again.
use mangle_apis.Base.{
  ℕ, ◌≡◌, refl, suc, true, false, Option, none, some, List, [], ◌∷◌, ◌++◌, ◌==◌, if◌then◌else◌,
}
use mangle_apis.Base.Text.{Text, bytes}
use mangle_apis.Core.Api.{SocketAddr}
use mangle_apis.Core.Siblings.{Accepted, accept_error, stream, Acceptor, accept_loop}
use mangle_apis.Core.Siblings.Laws.{Siblings, nobody, skipped, sibling, accept_loop_lem}

abbrev at_port : ℕ → SocketAddr
at_port port = record { ip = bytes "10.0.0.2"; port = port }

abbrev get_by_right : SocketAddr → Option Text
get_by_right addr = if addr.port == 9000 then some (bytes "two.example") else none

-- A handler that counts.
abbrev handle : Text → ℕ → ℕ
handle name n = suc n

abbrev idle : Acceptor ℕ
idle = record { running = true; warned = []; spawned = []; handler = 0 }

abbrev before : List Accepted
before = accept_error ∷ stream (at_port 9000) true ∷ []

two_comes : Siblings get_by_right before (bytes "two.example" ∷ [])
two_comes = skipped (sibling (at_port 9000) true (bytes "two.example") refl nobody)

accept_loop_example :
    (accept_loop get_by_right handle before idle
      ≡ record idle { spawned = bytes "two.example" ∷ [] })
    × (accept_loop get_by_right handle
          (before ++ stream (at_port 50123) true ∷ stream (at_port 9000) true ∷ [])
          idle
        ≡ record idle {
          running = false;
          warned = at_port 50123 ∷ [];
          spawned = bytes "two.example" ∷ [];
        })
accept_loop_example =
    accept_loop_lem get_by_right handle before (stream (at_port 9000) true ∷ [])
      (bytes "two.example" ∷ []) (at_port 50123) true idle two_comes refl
