-- ===== src/Wire/Receive/Checked.antt =====
-- The handled frames and the bytes that arrived.
use fractalbits.Base.{
  ℕ, zero, suc, ◌≡◌, refl, sym, ap, subst, ◌∙◌, inl, inr, Bool, true, List, ◌++◌, arith, ltb,
  Bool-cases, Option-cases, length, take, drop, All, length-take, take-append-drop, take_all,
  All-take, All-drop,
}
use mathlib.Core.Path.{ap₂}
use fractalbits.Base.Bytes.{IsByte}
use fractalbits.Wire.{
  Bytes, ProtobufMessageHeader, encode, decode, set_checksum, verify_header_checksum_raw,
  verify_body_checksum, get_body_size,
}
use fractalbits.Wire.Words.{encode-decode}
use fractalbits.Wire.Frames.{verify_header_checksum_raw_iff}
use fractalbits.Wire.Receive.{MessageFrame, Outcome, receive_body, receive_task}
use fractalbits.Wire.Receive.Delivered.{stream}

module _ (xxh3 : Bytes → ℕ) where
  -- A frame that passes both checks, with a body of the size that its header gives.
  abbrev pub IsChecked : MessageFrame → Type 0
  IsChecked f =
      (set_checksum xxh3 f.header ≡ f.header)
      × (verify_body_checksum xxh3 f.header f.body ≡ true)
      × (length f.body ≡ get_body_size f.header)

  -- The frames are checked, and the bytes begin with them.
  abbrev pub IsPrefixOf : List MessageFrame → Bytes → Type 0
  IsPrefixOf frames src = All IsChecked frames × ((rest : Bytes) × (stream frames rest ≡ src))

  receive_body-IsPrefixOf :
      (h : ProtobufMessageHeader) (src : Bytes) (loop : Bytes → Outcome)
      → encode h ≡ take 48 src
      → set_checksum xxh3 h ≡ h
      → ((bs : Bytes) → bs ≡ drop (get_body_size h) (drop 48 src) → IsPrefixOf (loop bs).0 bs)
      → IsPrefixOf (receive_body xxh3 h (drop 48 src) loop).0 src
  unfolding receive_body
  receive_body-IsPrefixOf h src loop bytes sum later =
      let tail = drop 48 src in
      let n = get_body_size h in
      elim (Bool-cases (ltb (length tail) n)) [
        | inl g ↦ rw g (tt, (src, refl))
        | inr g ↦ elim (Bool-cases (verify_body_checksum xxh3 h (take n tail))) [
          | inr v ↦ rw (g, v) (tt, (src, refl))
          | inl v ↦
              let (checked, (rest, whole)) = later (drop n tail) refl in
              let len : length (take n tail) ≡ n = ground (arith, g, length-take n tail) in
              let joined : encode h ++ (take n tail ++ stream (loop (drop n tail)).0 rest) ≡ src =
                ap₂ (λ a b. a ++ (take n tail ++ b)) bytes whole
                ∙ ap (λ b. take 48 src ++ b) (take-append-drop n tail)
                ∙ take-append-drop 48 src in
              rw (g, v) (((sum, v, len), checked), (rest, joined))
        ]
      ]

  -- Every frame that is handled passes both checks, and the bytes that arrived begin with the
  -- handled frames, one behind the other.
  pub receive_task-IsPrefixOf :
      (fuel : ℕ) (is_eof : Bool) (src : Bytes)
      → All IsByte src
      → IsPrefixOf (receive_task xxh3 fuel is_eof src).0 src
  unfolding receive_task
  receive_task-IsPrefixOf zero is_eof src a = (tt, (src, refl))
  receive_task-IsPrefixOf (suc fuel) is_eof src a = elim (Bool-cases (ltb (length src) 48)) [
    | inl g ↦ rw g (tt, (src, refl))
    | inr g ↦ elim (Bool-cases (verify_header_checksum_raw xxh3 (take 48 src))) [
      | inr v ↦ rw (g, v) (tt, (src, refl))
      | inl v ↦ elim (Option-cases (decode (take 48 src))) [
        | inl d ↦ rw (g, v, d) (tt, (src, refl))
        | inr (h, d) ↦
            let byte = All-take IsByte 48 src a in
            let (bytes, _, _) = encode-decode (take 48 src) h byte d in
            let sum = (verify_header_checksum_raw_iff xxh3 (take 48 src) h byte d).0 v in
            let again : take 48 (take 48 src) ≡ take 48 src =
              take_all 48 (take 48 src) (omega (arith, length-take 48 src)) in
            let later : (bs : Bytes)
                → All IsByte bs
                → IsPrefixOf (receive_task xxh3 fuel is_eof bs).0 bs =
              receive_task-IsPrefixOf fuel is_eof in
            let tail_bytes =
              All-drop IsByte (get_body_size h) (drop 48 src) (All-drop IsByte 48 src a) in
            rw (g, v, d)
              (receive_body-IsPrefixOf h src (receive_task xxh3 fuel is_eof) (bytes ∙ again) sum
                (λ bs e. later bs (subst (All IsByte) (sym e) tail_bytes)))
      ]
    ]
  ]
