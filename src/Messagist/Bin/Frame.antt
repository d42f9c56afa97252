-- ===== src/Messagist/Bin/Frame.antt =====
-- The parts of a frame, and reading a frame.
use mangle_apis.Base.{
  ℕ, zero, suc, ◌-◌, ◌%◌, ◌^◌, ◌≤◌, ◌<◌, ◌≡◌, refl, ap, ◌∙◌, inl, inr, true, Option, some, List, [],
  ◌∷◌, ◌++◌, arith, leb, le→ltb, length, drop, replicate, length-append, take-append, drop-append,
  append-nil, append_assoc, drop_all, isize_max,
}
use mangle_apis.Base.Outcome.{Outcome, ok, ◌>>=◌, >>=-eq-ok}
use mangle_apis.Messagist.Bin.{
  BinaryError, Pipe, size_field, to_le_bytes, from_le_bytes, frame, read_exact, usize_size,
  send_message, recv_message, write_all, recv_body, decode,
}
use mangle_apis.Messagist.Bin.Bytes.{
  length-to_le_bytes, from-to_le_bytes, pow-le_of_byte, from_le_bytes-replicate, trim_loop-append,
  length-trim_loop,
}

module _ (size : ℕ) where
  len : length (to_le_bytes usize_size size) ≡ usize_size
  len = length-to_le_bytes usize_size size

  all_bytes :
      drop (length (to_le_bytes usize_size size)) (to_le_bytes usize_size size)
      ≡ replicate (length (to_le_bytes usize_size size) - length (to_le_bytes usize_size size)) 0
  all_bytes =
      let v = to_le_bytes usize_size size in
      let nothing : length v - length v ≡ 0 = omega arith in rw (nothing, drop_all v)

  -- The field of a size above zero ends at its last byte that is not zero.
  pub size_field_end :
      size < 256 ^ usize_size
      → 0 < size
      → (c : ℕ) × (length (size_field size) ≡ suc c) × (c < usize_size) × (256 ^ c ≤ size)
  unfolding size_field
  size_field_end fits h =
      let v = to_le_bytes usize_size size in
      elim (length-trim_loop (length v) v (omega arith) all_bytes) [
        | inl (zeroes, _) ↦ absurd (
            omega (
              arith,
              ap from_le_bytes zeroes,
              from_le_bytes-replicate (length v),
              from-to_le_bytes usize_size size fits,
            ))
        | inr (c, field_len, below, byte) ↦
            (c, field_len, rw len at below, pow-le_of_byte usize_size size c byte)
      ]

  pub length-size_field-le : length (size_field size) ≤ usize_size
  unfolding size_field
  length-size_field-le =
      let v = to_le_bytes usize_size size in
      elim (length-trim_loop (length v) v (omega arith) all_bytes) [
        | inl (_, same) ↦ rw (same, len) (omega arith)
        | inr (c, field_len, below, byte) ↦ omega (arith, len)
      ]

  -- Filled up with zeroes as the receiver does, the field is the eight bytes of the size.
  size_field-append :
      size_field size ++ replicate (usize_size - length (size_field size)) 0
      ≡ to_le_bytes usize_size size
  unfolding size_field
  size_field-append =
      let v = to_le_bytes usize_size size in
      rw len (rw len at (trim_loop-append (length v) v (omega arith) all_bytes))

  pub from_le_bytes-size_field :
      size < 256 ^ usize_size
      → from_le_bytes (size_field size ++ replicate (usize_size - length (size_field size)) 0)
        ≡ size
  from_le_bytes-size_field h = rw size_field-append (from-to_le_bytes usize_size size h)

pub frame-eq :
    (data_bytes : List ℕ)
    → frame data_bytes
      ≡ length (size_field (length data_bytes)) ∷ (size_field (length data_bytes) ++ data_bytes)
unfolding frame
frame-eq data_bytes =
    let fits : length (size_field (length data_bytes)) % 256
        ≡ length (size_field (length data_bytes)) =
      omega (arith, length-size_field-le (length data_bytes)) in
    rw fits

pub read_exact-append :
    (xs rest : List ℕ) (p : Pipe)
    → p.input ≡ xs ++ rest
    → read_exact (length xs) p ≡ ok (xs, record p { input = rest })
unfolding read_exact
read_exact-append xs rest p e =
    let enough : leb (length xs) (length (xs ++ rest)) ≡ true =
      ground (arith, length-append xs rest) in
    rw (e, enough, take-append xs rest, drop-append xs rest)

module _ {M : Type 0} (serialize : M → Option (List ℕ)) (deserialize : List ℕ → Option M) where
  recv_body-append :
      (m : M) (buf rest : List ℕ) (p : Pipe)
      → deserialize buf ≡ some m
      → length buf ≤ isize_max
      → p.input ≡ buf ++ rest
      → recv_body serialize deserialize (length buf) p ≡ ok (m, record p { input = rest })
  unfolding recv_body
  recv_body-append m buf rest p back fits e =
      rw (le→ltb isize_max (length buf) fits, read_exact-append buf rest p e, back, decode)

  -- What `recv_message` makes of a whole frame with anything behind it.
  pub recv_message-frame :
      (m : M) (buf rest : List ℕ) (p : Pipe)
      → deserialize buf ≡ some m
      → length buf ≤ isize_max
      → p.input ≡ frame buf ++ rest
      → recv_message serialize deserialize p ≡ ok (m, record p { input = rest })
  unfolding recv_message
  recv_message-frame m buf rest p back fits e =
      let field = size_field (length buf) in
      let body = record p { input = buf ++ rest } in
      let e1 : p.input ≡ (length field ∷ []) ++ (field ++ (buf ++ rest)) =
        rw (e, frame-eq buf) (rw (append_assoc field buf rest)) in
      let head : read_exact 1 p
          ≡ ok (length field ∷ [], record p { input = field ++ (buf ++ rest) }) =
        read_exact-append (length field ∷ []) (field ++ (buf ++ rest)) p e1 in
      let tail : read_exact (length field) (record p { input = field ++ (buf ++ rest) })
          ≡ ok (field, body) =
        read_exact-append field (buf ++ rest) (record p { input = field ++ (buf ++ rest) }) refl in
      rw
        (
          head,
          le→ltb usize_size (length field) (length-size_field-le (length buf)),
          tail,
          from_le_bytes-size_field (length buf) (omega arith),
        )
        (recv_body-append m buf rest body back fits refl)

  -- bincode writes a message to bytes that can be allocated, and reads the message back from them.
  abbrev pub IsCodec : Type 0
  IsCodec =
      (m : M) (buf : List ℕ)
      → serialize m ≡ some buf
      → (deserialize buf ≡ some m) × (length buf ≤ isize_max)

  send_message-ok :
      (m : M) (from sent : Pipe)
      → send_message serialize deserialize m from ≡ ok sent
      → (buf : List ℕ) × (serialize m ≡ some buf)
        × (sent ≡ record from { output = from.output ++ frame buf })
  unfolding send_message write_all
  send_message-ok m from sent s = ground arith

  -- For a codec, a `send_message` that succeeds appends bytes to its stream from which
  -- `recv_message` gets that message back, whatever bytes follow, and leaves exactly those.
  pub recv-send :
      IsCodec
      → (m : M) (from sent : Pipe) → send_message serialize deserialize m from ≡ ok sent
      → (wire : List ℕ) × (sent.output ≡ from.output ++ wire)
        × ((to : Pipe) (rest : List ℕ)
            → to.input ≡ wire ++ rest
            → recv_message serialize deserialize to ≡ ok (m, record to { input = rest }))
  recv-send codec m from sent s =
      let (buf, written, after) = send_message-ok m from sent s in
      let (back, fits) = codec m buf written in
      (
        frame buf,
        ap (λ (p : Pipe). p.output) after,
        λ to rest e. recv_message-frame m buf rest to back fits e,
      )

  -- Several messages, one after the other, on one stream.
  unfoldable pub send_each : List M → Pipe → Outcome BinaryError Pipe
  send_each [] p = ok p
  send_each (m ∷ ms) p = do p' ← send_message serialize deserialize m p; send_each ms p'

  unfoldable pub recv_each : ℕ → Pipe → Outcome BinaryError (List M × Pipe)
  recv_each zero p = ok ([], p)
  recv_each (suc n) p = do
    (m, p') ← recv_message serialize deserialize p
    (ms, p'') ← recv_each n p'
    ok (m ∷ ms, p'')

  -- Messages that were all sent without an error arrive complete, unchanged and in order, and the
  -- bytes behind them stay unread.
  pub recv_each-send_each :
      IsCodec
      → (ms : List M) (from sent : Pipe) → send_each ms from ≡ ok sent
      → (wire : List ℕ) × (sent.output ≡ from.output ++ wire)
        × ((to : Pipe) (rest : List ℕ)
            → to.input ≡ wire ++ rest
            → recv_each (length ms) to ≡ ok (ms, record to { input = rest }))
  unfolding send_each recv_each
  recv_each-send_each codec [] from sent s =
      ([], rw append-nil (ground arith), λ to rest e. ap (λ i. ok ([], record to { input = i })) e)
  recv_each-send_each codec (m ∷ ms) from sent s =
      let (mid, first, others) =
        >>=-eq-ok (send_message serialize deserialize m from) (send_each ms) s in
      let (wire1, e1, back1) = recv-send codec m from mid first in
      let (wire2, e2, back2) = recv_each-send_each codec ms mid sent others in
      (
        wire1 ++ wire2,
        e2 ∙ ap (λ o. o ++ wire2) e1 ∙ append_assoc from.output wire1 wire2,
        λ to rest e. rw (
          back1 to (wire2 ++ rest) (e ∙ append_assoc wire1 wire2 rest),
          back2 (record to { input = wire2 ++ rest }) rest refl,
        ),
      )
