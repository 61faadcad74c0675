-- ===== src/Native/Messaging.antt =====
-- crates/kunkka-native-host/src/native_messaging.rs: messages on stdin and stdout, each a body after
-- its length in four bytes, little-endian. `std::io::Read` and `std::io::Write` are the parameters
-- `Reader` and `Writer`: a call answers and moves the stream on.
use kunkka.Base.{
  ℕ, zero, suc, ◌+◌, ◌-◌, ◌*◌, ◌/◌, ◌%◌, ◌^◌, ◌<>◌, true, false, Option, none, some, [], ◌∷◌, ◌++◌,
  ltb, length, if◌then◌else◌,
}
use kunkka.Base.Text.Decimal.{decimal}
use kunkka.Base.Fallible.{Result, ok, err}
use kunkka.Ipc.{Bytes}
use kunkka.Native.{IoError, unexpected_eof, other, NativeHostError, SerdeJson}

abbrev pub max_native_message_len : ℕ
max_native_message_len = 1024 * 1024

-- `read n` fills a part of a buffer of `n` bytes, `read_exact n` the whole of it.
pub record Reader : Type 1 where
  pub Stream : Type 0
  pub read : ℕ → Stream → Result IoError Bytes × Stream
  pub read_exact : ℕ → Stream → Result IoError Bytes × Stream

pub record Writer : Type 1 where
  pub Sink : Type 0
  pub write_all : Bytes → Sink → Result IoError (Unit {0}) × Sink
  pub flush : Sink → Result IoError (Unit {0}) × Sink

-- `u32::from_le_bytes`, of the bytes in the buffer.
unfoldable pub from_le_bytes : Bytes → ℕ
from_le_bytes [] = 0
from_le_bytes (b ∷ bytes) = b + 256 * from_le_bytes bytes

-- The first bytes of a number, the lowest first.
unfoldable pub le_bytes : ℕ → ℕ → Bytes
le_bytes zero n = []
le_bytes (suc k) n = (n % 256) ∷ le_bytes k (n / 256)

-- `(n as u32).to_le_bytes()`
unfoldable pub to_le_bytes : ℕ → Bytes
unfolding le_bytes
to_le_bytes n = le_bytes 4 (n % 2 ^ 32)

abbrev pub prefix_error : NativeHostError
prefix_error = NativeHostError.invalid_request "native message length prefix ended early"

abbrev pub body_error : NativeHostError
body_error = NativeHostError.invalid_request "native message body ended before declared length"

abbrev pub too_large : ℕ → NativeHostError
too_large len =
    NativeHostError.invalid_request ("native message too large: " <> decimal len <> " bytes")

module _ (r : Reader) where
  -- The body of the `while` loop after its read, with the rest of the loop; `none` is the end of the
  -- stream before the first byte of the prefix.
  unfoldable pub finish_read :
      (len_bytes : Bytes)
      → (Bytes → r.Stream → Result NativeHostError (Option Bytes) × r.Stream)
      → Result IoError Bytes × r.Stream
      → Result NativeHostError (Option Bytes) × r.Stream
  finish_read len_bytes loop (err e, s) = (err (NativeHostError.io e), s)
  finish_read [] loop (ok [], s) = (ok none, s)
  finish_read (b ∷ len_bytes) loop (ok [], s) = (err prefix_error, s)
  finish_read len_bytes loop (ok (c ∷ bytes_read), s) = loop (len_bytes ++ c ∷ bytes_read) s

  -- The `while` loop, over the bytes of the prefix read so far. A turn that goes on has read a byte or
  -- more, so four turns end the loop.
  unfoldable pub read_prefix :
      (fuel : ℕ) → Bytes → r.Stream → Result NativeHostError (Option Bytes) × r.Stream
  unfolding finish_read
  read_prefix zero len_bytes s = (ok (some len_bytes), s)
  read_prefix (suc fuel) len_bytes s = elim (ltb (length len_bytes) 4) [
    | false ↦ (ok (some len_bytes), s)
    | true ↦ finish_read len_bytes (read_prefix fuel) (r.read (4 - length len_bytes) s)
  ]

  unfoldable pub finish_body :
      Result IoError Bytes × r.Stream → Result NativeHostError (Option Bytes) × r.Stream
  finish_body (ok body, s) = (ok (some body), s)
  finish_body (err (unexpected_eof text), s) = (err body_error, s)
  finish_body (err (other text), s) = (err (NativeHostError.io (other text)), s)

  unfoldable pub read_body : ℕ → r.Stream → Result NativeHostError (Option Bytes) × r.Stream
  unfolding finish_body
  read_body len s =
      if ltb max_native_message_len len
      then (err (too_large len), s)
      else finish_body (r.read_exact len s)

  unfoldable pub after_prefix :
      Result NativeHostError (Option Bytes) × r.Stream
      → Result NativeHostError (Option Bytes) × r.Stream
  unfolding read_body
  after_prefix (err e, s) = (err e, s)
  after_prefix (ok none, s) = (ok none, s)
  after_prefix (ok (some len_bytes), s) = read_body (from_le_bytes len_bytes) s

  unfoldable pub read_native_message : r.Stream → Result NativeHostError (Option Bytes) × r.Stream
  unfolding after_prefix read_prefix
  read_native_message s = after_prefix (read_prefix 4 [] s)

module _ (w : Writer) where
  abbrev io_result : Result IoError (Unit {0}) × w.Sink → Result NativeHostError (Unit {0}) × w.Sink
  io_result (ok _, sink) = (ok tt, sink)
  io_result (err e, sink) = (err (NativeHostError.io e), sink)

  abbrev then_write :
      (w.Sink → Result IoError (Unit {0}) × w.Sink)
      → Result NativeHostError (Unit {0}) × w.Sink
      → Result NativeHostError (Unit {0}) × w.Sink
  then_write step (ok _, sink) = io_result (step sink)
  then_write step (err e, sink) = (err e, sink)

  unfoldable pub write_body : Bytes → w.Sink → Result NativeHostError (Unit {0}) × w.Sink
  unfolding to_le_bytes
  write_body body sink =
      if ltb max_native_message_len (length body)
      then (err (too_large (length body)), sink)
      else then_write w.flush
          (then_write (w.write_all body) (io_result (w.write_all (to_le_bytes (length body)) sink)))

  unfoldable pub write_native_message :
      {T : Type 0} → SerdeJson T → T → w.Sink → Result NativeHostError (Unit {0}) × w.Sink
  unfolding write_body
  write_native_message serialize value sink = elim (serialize.to_vec value) [
    | err e ↦ (err (NativeHostError.json e), sink)
    | ok body ↦ write_body body sink
  ]
