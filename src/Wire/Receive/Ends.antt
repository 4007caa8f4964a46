-- ===== src/Wire/Receive/Ends.antt =====
-- The fuel of the receiving loop.
use fractalbits.Base.{
  ℕ, zero, suc, ◌≤◌, ◌<◌, ◌≡◌, refl, ◌≢◌, inl, inr, Bool, false, none, some, arith, ltb,
  if◌then◌else◌, Bool-cases, Option-cases, length, take, drop, length-take, length-drop,
}
use fractalbits.Base.Results.{Result, ok, err}
use fractalbits.Wire.{
  Bytes, ProtobufMessageHeader, decode, of_fields, read_words, verify_header_checksum_raw,
  verify_body_checksum, get_body_size,
}
use fractalbits.Wire.Receive.{ReceiveError, Outcome, receive_body, receive_task}

abbrev pub Ends : Outcome → Type 0
Ends o = (r : Result ReceiveError (Unit {0})) × (o.1 ≡ some r)

decode_long : (src : Bytes) → 48 ≤ length src → decode src ≢ none
unfolding decode of_fields read_words
decode_long src n e =
    let long : ltb (length src) 48 ≡ false = ground (arith, n) in ground (arith, e, long)

module _ (xxh3 : Bytes → ℕ) where
  receive_body-Ends :
      (h : ProtobufMessageHeader) (src : Bytes) (loop : Bytes → Outcome)
      → Ends (loop (drop (get_body_size h) src))
      → Ends (receive_body xxh3 h src loop)
  unfolding receive_body
  receive_body-Ends h src loop later =
      let n = get_body_size h in
      elim (Bool-cases (ltb (length src) n)) [
        | inl g ↦ rw g (err ReceiveError.io_error, refl)
        | inr g ↦ elim (Bool-cases (verify_body_checksum xxh3 h (take n src))) [
          | inr v ↦ rw (g, v) (err ReceiveError.checksum_mismatch, refl)
          | inl v ↦ rw (g, v) later
        ]
      ]

  -- With more fuel than bytes arrive, the task returns.
  pub receive_task-Ends :
      (fuel : ℕ) (is_eof : Bool) (src : Bytes)
      → length src < fuel
      → Ends (receive_task xxh3 fuel is_eof src)
  unfolding receive_task
  receive_task-Ends zero is_eof src n = absurd (omega (arith, n))
  receive_task-Ends (suc fuel) is_eof src n = elim (Bool-cases (ltb (length src) 48)) [
    | inl g ↦ rw g ((if is_eof then ok tt else err ReceiveError.io_error), refl)
    | inr g ↦ elim (Bool-cases (verify_header_checksum_raw xxh3 (take 48 src))) [
      | inr v ↦ rw (g, v) (err ReceiveError.checksum_mismatch, refl)
      | inl v ↦ elim (Option-cases (decode (take 48 src))) [
        | inl d ↦ absurd (decode_long (take 48 src) (ground (arith, g, length-take 48 src)) d)
        | inr (h, d) ↦
            let m = get_body_size h in
            let later =
              receive_task-Ends fuel is_eof (drop m (drop 48 src))
                (ground (arith, n, g, length-drop m (drop 48 src), length-drop 48 src)) in
            rw (g, v, d) (receive_body-Ends h (drop 48 src) (receive_task xxh3 fuel is_eof) later)
      ]
    ]
  ]
