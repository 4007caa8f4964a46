-- ===== src/Wire/Receive.antt =====
-- generic_client.rs, `receive_task`: the frames that a client reads from its connection. The
-- connection is the list of the bytes that arrive before a read fails, either at its end or with an
-- error of the socket. A run that is out of fuel has no result; a frame takes at least one unit.
pub mod Delivered
pub mod Ends
pub mod Checked
use fractalbits.Base.{
  ℕ, zero, suc, Bool, not, Option, none, some, List, [], ◌∷◌, ltb, if◌then◌else◌, length, take,
  drop,
}
use fractalbits.Base.Results.{Result, ok, err}
use fractalbits.Wire.{
  Bytes, ProtobufMessageHeader, decode, verify_header_checksum_raw, verify_body_checksum,
  get_body_size,
}

-- The values of `RpcError` that the task returns.
pub data ReceiveError : Type 0 where
  io_error checksum_mismatch : ReceiveError

pub record MessageFrame : Type 0 where
  pub header : ProtobufMessageHeader
  pub body : Bytes

-- The frames that are handled, and what the task returns.
abbrev pub Outcome : Type 0
Outcome = List MessageFrame × Option (Result ReceiveError (Unit {0}))

module _ (xxh3 : Bytes → ℕ) where
  -- A body of the length that the header gives, and the loop behind it.
  unfoldable pub receive_body : ProtobufMessageHeader → Bytes → (Bytes → Outcome) → Outcome
  unfolding get_body_size verify_body_checksum
  receive_body header src loop =
      let body_size = get_body_size header in
      let body = take body_size src in
      if ltb (length src) body_size
      then ([], some (err ReceiveError.io_error))
      else if not (verify_body_checksum xxh3 header body)
      then ([], some (err ReceiveError.checksum_mismatch))
      else (let (frames, result) = loop (drop body_size src) in
          (record { header = header; body = body } ∷ frames, result))

  unfoldable pub receive_task : ℕ → Bool → Bytes → Outcome
  unfolding verify_header_checksum_raw decode receive_body
  receive_task zero is_eof src = ([], none)
  receive_task (suc fuel) is_eof src =
      let header_buf = take 48 src in
      if ltb (length src) 48
      then ([], some (if is_eof then ok tt else err ReceiveError.io_error))
      else if not (verify_header_checksum_raw xxh3 header_buf)
      then ([], some (err ReceiveError.checksum_mismatch))
      else elim (decode header_buf) [
        | none ↦ ([], none)
        | some header ↦ receive_body header (drop 48 src) (receive_task fuel is_eof)
      ]
