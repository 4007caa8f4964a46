-- ===== src/Wire/Frames.antt =====
-- A message as it is sent, the header with its checksums and then the body.
use fractalbits.Base.{
  subst, refl, zero, suc, length-append, length-take, take_all, ℕ, ◌+◌, ◌^◌, ◌<◌, ◌≡◌, sym, ap, ◌∙◌,
  ◌↔◌, true, false, some, [], ◌∷◌, ◌++◌, arith, ltb, length, take, drop, All, slice, take-append,
  drop-append,
}
use mathlib.Core.List.{append-nil, append_assoc}
use fractalbits.Base.Bytes.{
  length-le_bytes, from_le-le_bytes, IsByte, IsU32, IsU64, le_bytes, from_le,
}
use fractalbits.Wire.{
  Bytes, ProtobufMessageHeader, remainder_widths, remainder, write_words, encode, decode,
  set_checksum, body_checksum, set_body_checksum, verify_body_checksum, set_body,
  verify_header_checksum_raw, set_request, get_body_size,
}
use fractalbits.Wire.Words.{
  length-encode, length-write_words, decode-encode, take_nothing, encode-decode, IsHeader,
}

-- The bytes that the checksum covers.
slice-encode :
    (h : ProtobufMessageHeader) (rest : Bytes)
    → IsHeader h
    → slice 8 48 (encode h ++ rest) ≡ write_words remainder_widths (remainder h)
unfolding encode
slice-encode h rest f =
    let front = le_bytes 8 h.checksum in
    let back = write_words remainder_widths (remainder h) in
    let n = length-le_bytes 8 h.checksum in
    ap (slice 8 48) (append_assoc front back rest)
    ∙ ap (take 40) (drop-append front (back ++ rest) 8 n)
    ∙ take-append back rest 40 (length-write_words remainder_widths (remainder h) f.1)

first-encode :
    (h : ProtobufMessageHeader) (rest : Bytes)
    → IsHeader h
    → from_le (slice 0 8 (encode h ++ rest)) ≡ h.checksum
unfolding encode
first-encode h rest f =
    let front = le_bytes 8 h.checksum in
    let back = write_words remainder_widths (remainder h) in
    let n = length-le_bytes 8 h.checksum in
    ap (λ bs. from_le (take 8 bs)) (append_assoc front back rest)
    ∙ ap from_le (take-append front (back ++ rest) 8 n)
    ∙ from_le-le_bytes 8 h.checksum f.0

drop-take : (m n : ℕ) (xs : Bytes) → drop m (take (m + n) xs) ≡ take n (drop m xs)
drop-take zero n xs = ap (λ k. take k xs) (omega arith)
drop-take (suc m) n [] = ap (drop (suc m)) (take_nothing (suc m + n)) ∙ sym (take_nothing n)
drop-take (suc m) n (x ∷ xs) =
    let same : suc m + n ≡ suc (m + n) = omega arith in
    ap (λ k. drop (suc m) (take k (x ∷ xs))) same ∙ drop-take m n xs

module _ (xxh3 : Bytes → ℕ) where
  -- The bytes of a decoded header pass the check exactly if its checksum is the one that is set for
  -- its other fields.
  pub verify_header_checksum_raw_iff :
      (src : Bytes) (h : ProtobufMessageHeader)
      → All IsByte src
      → decode src ≡ some h
      → (verify_header_checksum_raw xxh3 src ≡ true) ↔ (set_checksum xxh3 h ≡ h)
  unfolding verify_header_checksum_raw set_checksum
  verify_header_checksum_raw_iff src h a e =
      let (bytes, first, n) = encode-decode src h a e in
      let covered : slice 8 48 (encode h) ≡ slice 8 48 src = ap (slice 8 48) bytes ∙ again src in
      let long : ltb (length src) 48 ≡ false = ground (arith, n) in
      (
        (λ v.
            let same : from_le (take 8 src) ≡ xxh3 (slice 8 48 src) = ground (arith, long, v) in
            ap (λ c. record h { checksum = c }) (ap xxh3 covered ∙ sym same ∙ sym first)),
        λ s.
            let same : from_le (take 8 src) ≡ xxh3 (slice 8 48 src) =
              sym first ∙ sym (ap checksum_of s) ∙ ap xxh3 covered in
            ground (arith, long, same),
      )
    where
      checksum_of : ProtobufMessageHeader → ℕ
      checksum_of h = h.checksum

      again : (xs : Bytes) → slice 8 48 (take 48 xs) ≡ slice 8 48 xs
      again xs =
          ap (take 40) (drop-take 8 40 xs)
          ∙ take_all 40 (take 40 (drop 8 xs)) (omega (arith, length-take 40 (drop 8 xs)))

  -- The bytes of a header whose checksum is set pass the check.
  pub verified :
      (h : ProtobufMessageHeader)
      → IsHeader h
      → set_checksum xxh3 h ≡ h
      → verify_header_checksum_raw xxh3 (encode h) ≡ true
  verified h f e =
      let long : ltb (length (encode h)) 48 ≡ false = ground (arith, length-encode h f) in
      let stored =
        subst (λ bs. from_le (slice 0 8 bs) ≡ h.checksum) (append-nil (encode h))
          (first-encode h [] f) in
      let sum : h.checksum ≡ xxh3 (slice 8 48 (encode h)) =
        unfold set_checksum in sym (ap (λ (g : ProtobufMessageHeader). g.checksum) e) in
      unfold verify_header_checksum_raw in ground (arith, long, stored, sum)

  module _ (word : (bs : Bytes) → IsU64 (xxh3 bs)) where
    body_checksum-word : (body : Bytes) → IsU64 (body_checksum xxh3 body)
    unfolding body_checksum
    body_checksum-word [] = omega arith
    body_checksum-word (b ∷ bs) = word (b ∷ bs)

    set_checksum-IsHeader :
        (h : ProtobufMessageHeader) → IsHeader h → IsHeader (set_checksum xxh3 h)
    unfolding set_checksum remainder
    set_checksum-IsHeader h f = (word (slice 8 48 (encode h)), f.1)

    -- The header with its checksum passes the check, whatever is behind it.
    set_checksum-verified :
        (h : ProtobufMessageHeader) (rest : Bytes)
        → IsHeader h
        → verify_header_checksum_raw xxh3 (encode (set_checksum xxh3 h) ++ rest) ≡ true
    set_checksum-verified h rest f =
        let sealed = set_checksum xxh3 h in
        let g = set_checksum-IsHeader h f in
        let long : ltb (length (encode sealed ++ rest)) 48 ≡ false =
          ground (arith, length-append (encode sealed) rest, length-encode sealed g) in
        let hashed : sealed.checksum ≡ xxh3 (slice 8 48 (encode sealed ++ rest)) =
          unfold set_checksum remainder in
          ap xxh3 (
            ap (slice 8 48) (sym (append-nil (encode h)))
            ∙ slice-encode h [] f
            ∙ sym (slice-encode (set_checksum xxh3 h) rest g)) in
        let stored = first-encode sealed rest g in
        unfold verify_header_checksum_raw in ground (arith, long, hashed, stored)

    request-IsHeader :
        (h : ProtobufMessageHeader) (id command retry_count trace_id : ℕ) (body : Bytes)
        → IsHeader h
        → IsU32 id
        → IsU32 command
        → IsByte retry_count
        → IsU64 trace_id
        → IsHeader (set_body xxh3 body (set_request id command retry_count trace_id h))
    unfolding set_body set_body_checksum set_request remainder
    request-IsHeader h id command retry_count trace_id body f i c r t =
        let (sum, (version, (_, (x, (_, (_, (_, (_, (_, (y, _)))))))))) = f in
        (sum, (version, (r, (x, (omega arith, (body_checksum-word body, (i, (c, (t, (y, tt))))))))))

    -- A request whose size fits in 32 bits passes both checks, and the receiver gets the header that
    -- was sent, the size of the body and the body.
    pub request_accepted :
        (h : ProtobufMessageHeader) (id command retry_count trace_id : ℕ) (body : Bytes)
        → IsHeader h
        → IsU32 id
        → IsU32 command
        → IsByte retry_count
        → IsU64 trace_id
        → 48 + length body < 2 ^ 32
        → let sent =
            set_checksum xxh3
              (set_body xxh3 body (set_request id command retry_count trace_id h)) in
          (verify_header_checksum_raw xxh3 (encode sent ++ body) ≡ true)
          × (decode (encode sent ++ body) ≡ some sent)
          × (verify_body_checksum xxh3 sent body ≡ true)
          × (drop 48 (encode sent ++ body) ≡ body)
          × (get_body_size sent ≡ length body)
          × (sent.id ≡ id)
          × (sent.trace_id ≡ trace_id)
    request_accepted h id command retry_count trace_id body f i c r t n =
        let plain = set_body xxh3 body (set_request id command retry_count trace_id h) in
        let sent = set_checksum xxh3 plain in
        let g = request-IsHeader h id command retry_count trace_id body f i c r t in
        let s = set_checksum-IsHeader plain g in
        (
          set_checksum-verified plain body g,
          decode-encode sent body s,
          (unfold verify_body_checksum set_checksum set_body set_body_checksum in ground arith),
          drop-append (encode sent) body 48 (length-encode sent s),
          (unfold get_body_size set_checksum set_body set_body_checksum in omega (arith, n)),
          (unfold set_checksum set_body set_body_checksum set_request in refl),
          unfold set_checksum set_body set_body_checksum set_request in refl,
        )
