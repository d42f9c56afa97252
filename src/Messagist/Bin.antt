-- ===== src/Messagist/Bin.antt =====
-- messagist/src/bin.rs: `BinaryMessageStream`, a length-prefixed framing of serialised messages.
-- The peer's end of a connection is the list of all bytes that it will ever deliver, followed by
-- the end of the stream. `bincode` is a pair of functions, given as parameters.
pub mod Bytes
pub mod Frame
pub mod Errors
mod Tests
use mangle_apis.Base.{
  ℕ, zero, suc, ◌+◌, ◌-◌, ◌*◌, ◌/◌, ◌%◌, ◌^◌, Bool, Option, none, some, List, [], ◌∷◌, ◌++◌, ltb,
  leb, if◌then◌else◌, length, get_or, take, drop, replicate, isize_max,
}
use mangle_apis.Base.Outcome.{Outcome, ok, err, panic, ◌>>=◌}

-- `BinaryError`. `DeserializeError` holds bincode's error; `size_limit` is its `SizeLimit`.
pub data BinaryError : Type 0 where
  io_error : BinaryError
  size_limit : BinaryError
  deserialize_error : BinaryError

-- The transport below a `BinaryMessageStream`: what is left to read, what has been written, and
-- whether writes still succeed.
pub record Pipe : Type 0 where
  pub input : List ℕ
  pub output : List ℕ
  pub writable : Bool

-- `usize::to_le_bytes` at `k` bytes.
unfoldable pub to_le_bytes : ℕ → ℕ → List ℕ
to_le_bytes zero n = []
to_le_bytes (suc k) n = (n % 256) ∷ to_le_bytes k (n / 256)

-- `usize::from_le_bytes`.
unfoldable pub from_le_bytes : List ℕ → ℕ
from_le_bytes [] = 0
from_le_bytes (b ∷ bs) = b + 256 * from_le_bytes bs

-- `(usize::BITS / 8) as usize`.
abbrev pub usize_size : ℕ
usize_size = 8

-- `Vec::resize`.
unfoldable pub resize : List ℕ → ℕ → ℕ → List ℕ
resize v n x = take n v ++ replicate (n - length v) x

-- The loop that trims trailing zeroes: the first argument is one more than the index `i`.
unfoldable pub trim_loop : ℕ → List ℕ → List ℕ
trim_loop zero v = v
trim_loop (suc i) v =
    let rest = trim_loop i v in if ltb 0 (get_or v i 0) then resize v (i + 1) 0 else rest

-- The little-endian bytes of the size, with the trailing zeroes trimmed.
unfoldable pub size_field : ℕ → List ℕ
size_field size = let size_vec = to_le_bytes usize_size size in trim_loop (length size_vec) size_vec

-- The buffer that `send_message` writes for serialised data.
unfoldable pub frame : List ℕ → List ℕ
frame data_bytes =
    let size_vec = size_field (length data_bytes) in
    (length size_vec % 256) ∷ (size_vec ++ data_bytes)

-- `AsyncReadExt::read_exact` into a buffer of `n` bytes.
unfoldable pub read_exact : ℕ → Pipe → Outcome BinaryError (List ℕ × Pipe)
read_exact n p =
    if leb n (length p.input)
    then ok (take n p.input, record p { input = drop n p.input })
    else err io_error

-- `AsyncWriteExt::write_all`.
unfoldable pub write_all : List ℕ → Pipe → Outcome BinaryError Pipe
write_all buf p = if p.writable then ok (record p { output = p.output ++ buf }) else err io_error

module _ {M : Type 0} (serialize : M → Option (List ℕ)) (deserialize : List ℕ → Option M) where
  unfoldable pub send_message : M → Pipe → Outcome BinaryError Pipe
  send_message msg p = elim (serialize msg) [
    | none ↦ panic
    | some data_bytes ↦ write_all (frame data_bytes) p
  ]

  abbrev decode : Pipe → List ℕ → Outcome BinaryError (M × Pipe)
  decode p buf = elim (deserialize buf) [ none ↦ err deserialize_error | some m ↦ ok (m, p) ]

  -- `buf.resize(size, 0)` panics with "capacity overflow" above `isize::MAX`.
  unfoldable pub recv_body : ℕ → Pipe → Outcome BinaryError (M × Pipe)
  recv_body size p =
      if ltb isize_max size then panic else do (buf, p') ← read_exact size p; decode p' buf

  unfoldable pub recv_message : Pipe → Outcome BinaryError (M × Pipe)
  recv_message p = do
    (count, p1) ← read_exact 1 p
    let size_byte_count = get_or count 0 0
    if ltb usize_size size_byte_count then err size_limit else do
      (filled_half, p2) ← read_exact size_byte_count p1
      recv_body (from_le_bytes (filled_half ++ replicate (usize_size - size_byte_count) 0)) p2
