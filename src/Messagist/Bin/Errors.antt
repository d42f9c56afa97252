-- ===== src/Messagist/Bin/Errors.antt =====
-- The overhead of a frame, and what `recv_message` does with a stream that is not a whole frame.
use mangle_apis.Base.{
  ℕ, ◌+◌, ◌^◌, ◌≤◌, ◌<◌, ◌≡◌, ◌≢◌, refl, sym, ap, ◌∙◌, inl, inr, Option, List, [], ◌∷◌, ◌++◌, arith,
  le→ltb, length, append_split, length-append, Bool-cases, isize_max, ltb, ltb→lt, ◌⊎◌, replicate,
}
use mangle_apis.Base.Outcome.{ok, err}
use mangle_apis.Messagist.Bin.{
  Pipe, io_error, to_le_bytes, trim_loop, size_field, frame, read_exact, usize_size, recv_message,
  recv_body,
}
use mangle_apis.Messagist.Bin.Frame.{
  frame-eq, length-size_field-le, from_le_bytes-size_field, size_field_end, read_exact-append,
}

empty_frame : frame [] ≡ 8 ∷ replicate 8 0
unfolding frame size_field to_le_bytes trim_loop
empty_frame = refl

-- The frame of data that can be allocated has one byte for the number of size bytes and at most eight size
-- bytes more than the data. With `c + 1` size bytes the data has at least `256 ^ c` bytes, so that none is
-- wasted, except where the data is empty: all eight size bytes of its frame are zero, and are sent.
pub frame_overhead :
    (data_bytes : List ℕ)
    → length data_bytes ≤ isize_max
    → (c : ℕ) × (length (frame data_bytes) ≡ c + 2 + length data_bytes)
      × (c < 8)
      × ((256 ^ c ≤ length data_bytes)
          ⊎ ((data_bytes ≡ []) × (frame data_bytes ≡ 8 ∷ replicate 8 0)))
frame_overhead [] fits = (7, rw empty_frame refl, omega arith, inr (refl, empty_frame))
frame_overhead (byte ∷ more) fits =
    let data_bytes : List ℕ = byte ∷ more in
    let field = size_field (length data_bytes) in
    let (c, field_len, below, bound) =
      size_field_end (length data_bytes) (omega arith) (omega arith) in
    (
      c,
      rw (frame-eq data_bytes) (omega (arith, field_len, length-append field data_bytes)),
      below,
      inl bound,
    )

read_exact_short : (n : ℕ) (p : Pipe) → length p.input < n → read_exact n p ≡ err io_error
unfolding read_exact
read_exact_short n p h = ground arith

length-pos {ℓ} : {A : Type ℓ} (xs : List A) → xs ≢ [] → 0 < length xs
length-pos [] h = absurd (h refl)
length-pos (x ∷ xs) h = omega arith

module _ {M : Type 0} (serialize : M → Option (List ℕ)) (deserialize : List ℕ → Option M) where
  recv_body_short :
      (pre suf buf : List ℕ) (p : Pipe)
      → length buf ≤ isize_max
      → suf ≢ []
      → buf ≡ pre ++ suf
      → p.input ≡ pre
      → recv_body serialize deserialize (length buf) p ≡ err io_error
  unfolding recv_body
  recv_body_short pre suf buf p fits cut whole e =
      let short : length p.input < length buf = omega (
        arith,
        ap (length {0}) whole,
        ap (length {0}) e,
        length-append pre suf,
        length-pos suf cut,
      ) in
      rw (le→ltb isize_max (length buf) fits, read_exact_short (length buf) p short)

  -- The frame of data that can be allocated is an I/O error if it is cut anywhere before its
  -- end, never a message and never a panic.
  pub recv_truncated :
      (buf pre suf : List ℕ) (p : Pipe)
      → length buf ≤ isize_max
      → frame buf ≡ pre ++ suf
      → suf ≢ []
      → p.input ≡ pre
      → recv_message serialize deserialize p ≡ err io_error
  unfolding recv_message
  recv_truncated buf [] suf p fits whole cut e = rw (read_exact_short 1 p (rw e (omega arith)))
  recv_truncated buf (b ∷ pre) suf p fits whole cut e =
      let field = size_field (length buf) in
      let parts : b ∷ (pre ++ suf) ≡ length field ∷ (field ++ buf) = sym whole ∙ frame-eq buf in
      let count : b ≡ length field = cc in
      let rest : pre ++ suf ≡ field ++ buf = cc in
      let head : read_exact 1 p ≡ ok (b ∷ [], record p { input = pre }) =
        read_exact-append (b ∷ []) pre p e in
      let short = ltb (length pre) (length field) in
      rw (head, count, le→ltb usize_size (length field) (length-size_field-le (length buf)))
        (elim (Bool-cases short) [
          | inl early ↦
              rw (read_exact_short (length field) (record p { input = pre }) (ltb→lt _ _ early))
          | inr late ↦
              let (w, front, back) = append_split pre suf field buf rest (ground arith) in
              rw
                (
                  read_exact-append field w (record p { input = pre }) front,
                  from_le_bytes-size_field (length buf) (omega arith),
                )
                (recv_body_short w suf buf (record p { input = w }) fits cut back refl)
        ])
