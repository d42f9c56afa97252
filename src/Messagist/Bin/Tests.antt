-- ===== src/Messagist/Bin/Tests.antt =====
-- Runs of the framing of messagist/src/bin.rs, with numbers below 256 as messages.
use mangle_apis.Base.{
  ◌⊎◌, replicate, ℕ, ◌+◌, ◌^◌, ◌≤◌, ◌<◌, ◌≡◌, refl, true, Option, none, some, List, [], ◌∷◌, ◌++◌,
  arith, length,
}
use mangle_apis.Base.Outcome.{ok, err}
use mangle_apis.Messagist.Bin.{
  io_error, Pipe, to_le_bytes, resize, trim_loop, size_field, frame, write_all, send_message,
  recv_message,
}
use mangle_apis.Messagist.Bin.Frame.{IsCodec, send_each, recv_each, recv_each-send_each}
use mangle_apis.Messagist.Bin.Errors.{frame_overhead, recv_truncated}

abbrev serialize : ℕ → Option (List ℕ)
serialize n = some (n ∷ [])

abbrev deserialize : List ℕ → Option ℕ
deserialize (n ∷ []) = some n
deserialize _ = none

codec : IsCodec serialize deserialize
codec m buf written = let same : buf ≡ m ∷ [] = cc in rw same (refl, omega arith)

abbrev idle : Pipe
idle = record { input = []; output = []; writable = true }

seven_framed : frame (7 ∷ []) ≡ 1 ∷ 1 ∷ 7 ∷ []
unfolding frame size_field trim_loop to_le_bytes resize
seven_framed = refl

seven_sent :
    send_message serialize deserialize 7 idle
    ≡ ok (record { input = []; output = 1 ∷ 1 ∷ 7 ∷ []; writable = true })
unfolding send_message write_all frame size_field trim_loop to_le_bytes resize
seven_sent = refl

both_sent :
    send_each serialize deserialize (7 ∷ 0 ∷ []) idle
    ≡ ok (record { input = []; output = 1 ∷ 1 ∷ 7 ∷ 1 ∷ 1 ∷ 0 ∷ []; writable = true })
unfolding send_each send_message write_all frame size_field trim_loop to_le_bytes resize
both_sent = refl

recv_each-send_each_example :
    (wire : List ℕ) × (1 ∷ 1 ∷ 7 ∷ 1 ∷ 1 ∷ 0 ∷ [] ≡ wire)
    × ((to : Pipe) (rest : List ℕ)
        → to.input ≡ wire ++ rest
        → recv_each serialize deserialize 2 to ≡ ok (7 ∷ 0 ∷ [], record to { input = rest }))
recv_each-send_each_example =
    recv_each-send_each serialize deserialize codec (7 ∷ 0 ∷ []) idle
      (record { input = []; output = 1 ∷ 1 ∷ 7 ∷ 1 ∷ 1 ∷ 0 ∷ []; writable = true }) both_sent

abbrev two_bytes : List ℕ
two_bytes = 7 ∷ 8 ∷ []

frame_overhead_example :
    (c : ℕ) × (length (frame two_bytes) ≡ c + 2 + 2)
    × (c < 8)
    × ((256 ^ c ≤ 2) ⊎ ((two_bytes ≡ []) × (frame two_bytes ≡ 8 ∷ replicate 8 0)))
frame_overhead_example = frame_overhead two_bytes (omega arith)

recv_truncated_example :
    recv_message serialize deserialize (record { input = 1 ∷ 1 ∷ []; output = []; writable = true })
    ≡ err io_error
recv_truncated_example =
    recv_truncated serialize deserialize (7 ∷ []) (1 ∷ 1 ∷ []) (7 ∷ [])
      (record { input = 1 ∷ 1 ∷ []; output = []; writable = true }) (omega arith) seven_framed
      (λ e. ground arith) refl
