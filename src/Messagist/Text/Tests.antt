-- ===== src/Messagist/Text/Tests.antt =====
-- JSON over frames, with numbers below 256 as messages.
use mangle_apis.Base.{
  ℕ, ◌≡◌, refl, Option, none, some, List, [], ◌∷◌, length, isize_max, leb, if◌then◌else◌, true,
}
use mangle_apis.Base.Outcome.{ok}
use mangle_apis.Messagist.Bin
use mangle_apis.Messagist.Bin.{Pipe}
use mangle_apis.Messagist.Text.{send_binary}

abbrev to_vec : ℕ → Option (List ℕ)
to_vec n = some (34 ∷ n ∷ 34 ∷ [])

abbrev from_slice : List ℕ → Option ℕ
from_slice (quote ∷ n ∷ quote' ∷ []) = some n
from_slice _ = none

-- Vectors that can be allocated are written as they are.
abbrev serialize : List ℕ → Option (List ℕ)
serialize v = if leb (length v) isize_max then some v else none

abbrev deserialize : List ℕ → Option (List ℕ)
deserialize v = some v

abbrev idle : Pipe
idle = record { input = []; output = []; writable = true }

abbrev after : Pipe
after = record idle { output = 1 ∷ 3 ∷ 34 ∷ 7 ∷ 34 ∷ [] }

seven_sent : send_binary to_vec from_slice serialize deserialize 7 idle ≡ ok after
unfolding send_binary Bin.send_message Bin.write_all Bin.frame Bin.size_field Bin.trim_loop
    Bin.to_le_bytes Bin.resize
seven_sent = refl
