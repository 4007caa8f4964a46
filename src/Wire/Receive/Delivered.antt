-- ===== src/Wire/Receive/Delivered.antt =====
-- Sealed frames and the stream of their bytes.
use fractalbits.Base.{
  ℕ, zero, suc, ◌+◌, ◌<◌, ◌≡◌, refl, ap, subst, ◌∙◌, Bool, true, false, some, List, [], ◌∷◌, ◌++◌,
  arith, ltb, if◌then◌else◌, length, All, length-append, take-append, drop-append,
}
use mathlib.Core.List.{append-nil}
use fractalbits.Base.Results.{ok, err}
use fractalbits.Wire.{
  Bytes, ProtobufMessageHeader, encode, decode, set_checksum, body_checksum, verify_body_checksum,
  get_body_size,
}
use fractalbits.Wire.Words.{IsHeader, length-encode, decode-encode}
use fractalbits.Wire.Frames.{verified}
use fractalbits.Wire.Receive.{ReceiveError, MessageFrame, Outcome, receive_body, receive_task}

-- The bytes of some frames, one behind the other.
abbrev pub stream : List MessageFrame → Bytes → Bytes
stream [] rest = rest
stream (f ∷ frames) rest = encode f.header ++ (f.body ++ stream frames rest)

module _ (xxh3 : Bytes → ℕ) where
  -- A frame with its size and its checksums.
  abbrev pub IsSealed : MessageFrame → Type 0
  IsSealed f =
      IsHeader f.header
      × (set_checksum xxh3 f.header ≡ f.header)
      × (f.header.checksum_body ≡ body_checksum xxh3 f.body)
      × (f.header.size ≡ 48 + length f.body)

  receive_body-append :
      (f : MessageFrame) (rest : Bytes) (loop : Bytes → Outcome)
      → IsSealed f
      → receive_body xxh3 f.header (f.body ++ rest) loop ≡ (f ∷ (loop rest).0, (loop rest).1)
  receive_body-append f rest loop (_, _, sum, size) =
      let long : get_body_size f.header ≡ length f.body =
        unfold get_body_size in omega (arith, size) in
      let enough : ltb (length (f.body ++ rest)) (length f.body) ≡ false =
        ground (arith, length-append f.body rest) in
      let checked : verify_body_checksum xxh3 f.header f.body ≡ true =
        unfold verify_body_checksum in ground (arith, sum) in
      unfold receive_body in
      rw
        (
          long,
          enough,
          take-append f.body rest (length f.body) refl,
          drop-append f.body rest (length f.body) refl,
          checked,
        )
        refl

  receive_step :
      (fuel : ℕ) (is_eof : Bool) (f : MessageFrame) (more : Bytes)
      → IsSealed f
      → receive_task xxh3 (suc fuel) is_eof (encode f.header ++ (f.body ++ more))
        ≡ (f ∷ (receive_task xxh3 fuel is_eof more).0, (receive_task xxh3 fuel is_eof more).1)
  receive_step fuel is_eof f more s =
      let behind = f.body ++ more in
      let len = length-encode f.header s.0 in
      let long : ltb (length (encode f.header ++ behind)) 48 ≡ false =
        ground (arith, length-append (encode f.header) behind, len) in
      unfold receive_task in
      rw
        (
          long,
          take-append (encode f.header) behind 48 len,
          verified xxh3 f.header s.0 s.1,
          decoded f.header s.0,
          drop-append (encode f.header) behind 48 len,
        )
        (receive_body-append f more (receive_task xxh3 fuel is_eof) s)
    where
      decoded : (h : ProtobufMessageHeader) → IsHeader h → decode (encode h) ≡ some h
      decoded h f = subst (λ bs. decode bs ≡ some h) (append-nil (encode h)) (decode-encode h [] f)

  -- Frames that are sent one behind the other are all handled, in this order and as they were sent,
  -- when the connection ends behind them or inside of the next header; the task ends without an
  -- error exactly at the end of the connection.
  pub receive_task-stream :
      (fuel : ℕ) (is_eof : Bool) (frames : List MessageFrame) (rest : Bytes)
      → All IsSealed frames
      → length rest < 48
      → length frames < fuel
      → receive_task xxh3 fuel is_eof (stream frames rest)
        ≡ (frames, some (if is_eof then ok tt else err ReceiveError.io_error))
  receive_task-stream zero is_eof frames rest s short n = absurd (omega (arith, n))
  receive_task-stream (suc fuel) is_eof [] rest s short n =
      let e : ltb (length rest) 48 ≡ true = ground (arith, short) in
      unfold receive_task in rw e refl
  receive_task-stream (suc fuel) is_eof (f ∷ frames) rest (s, ss) short n =
      receive_step fuel is_eof f (stream frames rest) s
      ∙ ap (λ (o : Outcome). (f ∷ o.0, o.1))
          (receive_task-stream fuel is_eof frames rest ss short (omega (arith, n)))
