-- ===== src/Messagist/Text.antt =====
-- messagist/src/text.rs: messages as JSON, over a stream of texts or over binary frames. `serde_json` is a
-- pair of functions, given as parameters.
pub mod Laws
mod Tests
use mangle_apis.Base.{ℕ, Option, none, some, List}
use mangle_apis.Base.Text.{Text}
use mangle_apis.Base.Outcome.{Outcome, ok, err, panic, ◌>>=◌}
use mangle_apis.Messagist.Bin
use mangle_apis.Messagist.Bin.{Pipe, BinaryError}

-- What a call that waits for the peer comes to, or that it still waits.
pub data Receipt (E A : Type 0) : Type 0 where
  got : A → Receipt E A
  refused : E → Receipt E A
  panicked : Receipt E A
  waiting : Receipt E A

-- `TextStream`, on the states of a stream. `wait_for_error` gets as fuel how often it may receive.
pub record TextStreamApi (S E : Type 0) : Type 0 where
  pub recv_string : S → S × Receipt E Text
  pub send_string : Text → S → S × Outcome E (Unit {0})
  pub wait_for_error : ℕ → S → S × Receipt (Unit {0}) E

pub data TextJsonError (E : Type 0) : Type 0 where
  text_error : E → TextJsonError E
  text_deserialize_error : TextJsonError E

pub data BinaryJsonError : Type 0 where
  io_error : BinaryJsonError
  deserialize_error : BinaryJsonError

-- The result of `send_string`, with its error wrapped.
abbrev pub map_text_error : {E A : Type 0} → Outcome E A → Outcome (TextJsonError E) A
map_text_error (ok a) = ok a
map_text_error (err e) = err (text_error e)
map_text_error panic = panic

module _ {M : Type 0} (to_string : M → Option Text) (from_str : Text → Option M) where
  -- The rest of `recv_message`, after `recv_string`.
  unfoldable pub parse : {E : Type 0} → Receipt E Text → Receipt (TextJsonError E) M
  parse (got msg) = elim (from_str msg) [ none ↦ refused text_deserialize_error | some m ↦ got m ]
  parse (refused e) = refused (text_error e)
  parse panicked = panicked
  parse waiting = waiting

  module _ {S E : Type 0} (api : TextStreamApi S E) where
    -- `JsonMessageStream<S>` for a `TextStream` S.
    unfoldable pub recv_message : S → S × Receipt (TextJsonError E) M
    recv_message s = let (s', receipt) = api.recv_string s in (s', parse receipt)

    unfoldable pub send_message : M → S → S × Outcome (TextJsonError E) (Unit {0})
    send_message msg s = elim (to_string msg) [
      | none ↦ (s, panic)
      | some text ↦ let (s', sent) = api.send_string text s in (s', map_text_error sent)
    ]

-- `JsonMessageStream<BinaryMessageStream<S>>`: the JSON is a vector of bytes, which bincode serialises once
-- more.
module _ {M : Type 0} (to_vec : M → Option (List ℕ)) (from_slice : List ℕ → Option M)
    (serialize : List ℕ → Option (List ℕ)) (deserialize : List ℕ → Option (List ℕ)) where
  -- Only an I/O error is taken for possible.
  abbrev pub only_io_error : {A : Type 0} → Outcome BinaryError A → Outcome BinaryJsonError A
  only_io_error (ok a) = ok a
  only_io_error (err Bin.io_error) = err io_error
  only_io_error (err Bin.size_limit) = panic
  only_io_error (err Bin.deserialize_error) = panic
  only_io_error panic = panic

  unfoldable pub read_json : List ℕ × Pipe → Outcome BinaryJsonError (M × Pipe)
  read_json (json_bytes, p) = elim (from_slice json_bytes) [
    | none ↦ err deserialize_error
    | some m ↦ ok (m, p)
  ]

  unfoldable pub recv_binary : Pipe → Outcome BinaryJsonError (M × Pipe)
  recv_binary p = only_io_error (Bin.recv_message serialize deserialize p) >>= read_json

  unfoldable pub send_binary : M → Pipe → Outcome BinaryJsonError Pipe
  send_binary msg p = elim (to_vec msg) [
    | none ↦ panic
    | some json_bytes ↦ only_io_error (Bin.send_message serialize deserialize json_bytes p)
  ]
