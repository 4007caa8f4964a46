-- ===== src/Wire/Words.antt =====
-- The bytes of a header and the header of some bytes.
use mathlib.Core.Path.{ap₂}
use mathlib.Core.List.{append_assoc}
use fractalbits.Base.{
  inl, inr, Bool-cases, sym, ℕ, zero, suc, ◌+◌, ◌^◌, ◌≤◌, ◌<◌, ◌≡◌, refl, ap, ◌∙◌, false, some,
  List, [], ◌∷◌, ◌++◌, arith, ltb, length, take, drop, All, length-append, length-take, length-drop,
  take-append, drop-append, All-take, All-drop,
}
use fractalbits.Base.Bytes.{
  IsByte, IsU64, le_bytes, from_le, length-le_bytes, from_le-le_bytes, le_bytes-from_le,
}
use fractalbits.Wire.{
  of_fields, Bytes, write_words, read_words, ProtobufMessageHeader, remainder_widths, remainder,
  encode, decode,
}

-- As many values as widths, each within its width.
abbrev pub Fit : List ℕ → List ℕ → Type 0
Fit [] [] = Unit {0}
Fit [] (v ∷ vs) = ⊥
Fit (w ∷ ws) [] = ⊥
Fit (w ∷ ws) (v ∷ vs) = (v < 256 ^ w) × Fit ws vs

abbrev pub total : List ℕ → ℕ
total [] = 0
total (w ∷ ws) = w + total ws

-- A header whose fields are values of their types.
abbrev pub IsHeader : ProtobufMessageHeader → Type 0
IsHeader h = IsU64 h.checksum × Fit remainder_widths (remainder h)

pub take_nothing : (n : ℕ) → take {A = ℕ} n [] ≡ []
take_nothing zero = refl
take_nothing (suc n) = refl

take_add : (m n : ℕ) (xs : Bytes) → take m xs ++ take n (drop m xs) ≡ take (m + n) xs
take_add zero n xs = ap (λ k. take k xs) (omega arith)
take_add (suc m) n [] = take_nothing n ∙ sym (take_nothing (suc m + n))
take_add (suc m) n (x ∷ xs) =
    let same : suc (m + n) ≡ suc m + n = omega arith in
    ap (◌∷◌ x) (take_add m n xs) ∙ ap (λ k. take k (x ∷ xs)) same

read_words-write_words :
    (ws vs : List ℕ) (rest : Bytes) → Fit ws vs → read_words ws (write_words ws vs ++ rest) ≡ vs
unfolding read_words write_words
read_words-write_words [] [] rest f = refl
read_words-write_words [] (v ∷ vs) rest f = absurd f
read_words-write_words (w ∷ ws) [] rest f = absurd f
read_words-write_words (w ∷ ws) (v ∷ vs) rest f =
    let front = le_bytes w v in
    let back = write_words ws vs in
    let n = length-le_bytes w v in
    let whole = append_assoc front back rest in
    rw
      (
        whole,
        take-append front (back ++ rest) w n,
        drop-append front (back ++ rest) w n,
        from_le-le_bytes w v f.0,
        read_words-write_words ws vs rest f.1,
      )
      refl

pub length-write_words : (ws vs : List ℕ) → Fit ws vs → length (write_words ws vs) ≡ total ws
unfolding write_words
length-write_words [] [] f = refl
length-write_words [] (v ∷ vs) f = absurd f
length-write_words (w ∷ ws) [] f = absurd f
length-write_words (w ∷ ws) (v ∷ vs) f = omega (
  arith,
  length-append (le_bytes w v) (write_words ws vs),
  length-le_bytes w v,
  length-write_words ws vs f.1,
)

write_words-read_words :
    (ws : List ℕ) (bs : Bytes)
    → total ws ≤ length bs
    → All IsByte bs
    → write_words ws (read_words ws bs) ≡ take (total ws) bs
unfolding read_words write_words
write_words-read_words [] bs n a = refl
write_words-read_words (w ∷ ws) bs n a =
    let front : le_bytes w (from_le (take w bs)) ≡ take w bs =
      le_bytes-from_le w (take w bs) (omega (arith, length-take w bs)) (All-take IsByte w bs a) in
    let back : write_words ws (read_words ws (drop w bs)) ≡ take (total ws) (drop w bs) =
      write_words-read_words ws (drop w bs) (omega (arith, length-drop w bs))
        (All-drop IsByte w bs a) in
    ap₂ ◌++◌ front back ∙ take_add w (total ws) bs

pub length-encode : (h : ProtobufMessageHeader) → IsHeader h → length (encode h) ≡ 48
unfolding encode
length-encode h f = omega (
  arith,
  length-append (le_bytes 8 h.checksum) (write_words remainder_widths (remainder h)),
  length-le_bytes 8 h.checksum,
  length-write_words remainder_widths (remainder h) f.1,
)

-- A header is read back from a message that begins with it.
pub decode-encode :
    (h : ProtobufMessageHeader) (rest : Bytes) → IsHeader h → decode (encode h ++ rest) ≡ some h
unfolding decode
decode-encode h rest f =
    let front = le_bytes 8 h.checksum in
    let back = write_words remainder_widths (remainder h) in
    let n = length-le_bytes 8 h.checksum in
    let long : ltb (length (encode h ++ rest)) 48 ≡ false =
      ground (arith, length-append (encode h) rest, length-encode h f) in
    let whole : encode h ++ rest ≡ front ++ (back ++ rest) =
      unfold encode in append_assoc front back rest in
    let fields = read_words-write_words remainder_widths (remainder h) rest f.1 in
    rw
      (
        long,
        whole,
        take-append front (back ++ rest) 8 n,
        drop-append front (back ++ rest) 8 n,
        from_le-le_bytes 8 h.checksum f.0,
      )
      (unfold of_fields remainder in ap (of_fields h.checksum) fields)

of_fields_lem :
    (c v r x s b i m t y : ℕ) (h : ProtobufMessageHeader)
    → of_fields c (v ∷ r ∷ x ∷ s ∷ b ∷ i ∷ m ∷ t ∷ y ∷ []) ≡ some h
    → (h.checksum ≡ c) × (remainder h ≡ v ∷ r ∷ x ∷ s ∷ b ∷ i ∷ m ∷ t ∷ y ∷ [])
unfolding of_fields remainder
of_fields_lem c v r x s b i m t y h e = (ground (arith, e), ground (arith, e))

-- The bytes of a decoded header are the ones that it was read from, and its checksum is the first
-- word of them.
pub encode-decode :
    (src : Bytes) (h : ProtobufMessageHeader)
    → All IsByte src
    → decode src ≡ some h
    → (encode h ≡ take 48 src) × (h.checksum ≡ from_le (take 8 src)) × (48 ≤ length src)
unfolding decode encode read_words
encode-decode src h a e = elim (Bool-cases (ltb (length src) 48)) [
  | inl g ↦ absurd (ground (arith, e, g))
  | inr g ↦
      let n : 48 ≤ length src = ground (arith, g) in
      let read : of_fields (from_le (take 8 src)) (read_words remainder_widths (drop 8 src))
          ≡ some h =
        rw g at e in
      let (first, others) = of_fields_lem _ _ _ _ _ _ _ _ _ _ h read in
      let front : le_bytes 8 (from_le (take 8 src)) ≡ take 8 src =
        le_bytes-from_le 8 (take 8 src) (omega (arith, n, length-take 8 src))
          (All-take IsByte 8 src a) in
      let back =
        write_words-read_words remainder_widths (drop 8 src) (omega (arith, n, length-drop 8 src))
          (All-drop IsByte 8 src a) in
      (
        ap₂ (λ c l. le_bytes 8 c ++ write_words remainder_widths l) first others
            ∙ ap₂ ◌++◌ front back
            ∙ take_add 8 40 src,
        first,
        n,
      )
]
