-- ===== src/Ovr/Keys/Sorted.antt =====
-- The order of the keys of one blob under a prefix listing.
use fractalbits.Base.{
  All, length, ℕ, zero, suc, ◌*◌, ◌/◌, ◌%◌, ◌^◌, ◌≤◌, ◌<◌, ◌≡◌, refl, ◌⊎◌, inl, inr, Bool, true,
  false, ◌&&◌, ◌||◌, List, [], ◌∷◌, ◌++◌, arith, ltb, ◌==◌,
}
use native.Mathlib.Nat.{pow-suc}
use fractalbits.Base.Bytes.{IsU32}
use fractalbits.Base.Text.Hex.{
  All-hex_fixed, hex_fixed, hex_char, hex_char_mono, length-hex_fixed, hex_char_range,
}
use fractalbits.Ovr.Keys.{ovr_row_key, ovr_abort_key, ovr_row_prefix_text}

-- Lexicographic order of keys.
abbrev pub lex_lt : List ℕ → List ℕ → Bool
lex_lt xs [] = false
lex_lt [] (y ∷ ys) = true
lex_lt (x ∷ xs) (y ∷ ys) = ltb x y || (x == y) && lex_lt xs ys

lex_lt-append_left : (p xs ys : List ℕ) → lex_lt xs ys ≡ true → lex_lt (p ++ xs) (p ++ ys) ≡ true
lex_lt-append_left [] xs ys h = h
lex_lt-append_left (c ∷ cs) xs ys h = ground (arith, lex_lt-append_left cs xs ys h)

lex_lt-append_right :
    (xs ys u v : List ℕ)
    → length xs ≡ length ys
    → lex_lt xs ys ≡ true
    → lex_lt (xs ++ u) (ys ++ v) ≡ true
lex_lt-append_right xs [] u v e h = cc
lex_lt-append_right [] (y ∷ ys) u v e h = absurd (omega arith)
lex_lt-append_right (x ∷ xs) (y ∷ ys) u v e h =
    ground (arith, lex_lt-append_right xs ys u v (omega arith))

hex_fixed-sorted : (w a b : ℕ) → b < 16 ^ w → a < b → lex_lt (hex_fixed w a) (hex_fixed w b) ≡ true
unfolding hex_fixed
hex_fixed-sorted zero a b h lt = absurd (omega arith)
hex_fixed-sorted (suc w) a b h lt = elim (cases_lem) [
  | inl high ↦
      lex_lt-append_right (hex_fixed w (a / 16)) (hex_fixed w (b / 16)) (hex_char (a % 16) ∷ [])
        (hex_char (b % 16) ∷ [])
        (omega (arith, length-hex_fixed w (a / 16), length-hex_fixed w (b / 16)))
        (hex_fixed-sorted w (a / 16) (b / 16) (omega arith) high)
  | inr (same, low) ↦ rw same (
      lex_lt-append_left (hex_fixed w (b / 16)) (hex_char (a % 16) ∷ []) (hex_char (b % 16) ∷ [])
        (ground (arith, hex_char_mono (a % 16) (b % 16))))
]
  where
    small : b < 16 ^ w * 16
    small = rw pow-suc at h

    cases_lem : (a / 16 < b / 16) ⊎ (a / 16 ≡ b / 16) × (a % 16 < b % 16)
    cases_lem = omega arith

-- Under the prefix of one blob the order is that of the rests.
under_blob :
    (text u v : List ℕ)
    → lex_lt u v ≡ true
    → lex_lt
        (ovr_row_prefix_text ++ (text ++ (b'/' ∷ u)))
        (ovr_row_prefix_text ++ (text ++ (b'/' ∷ v)))
      ≡ true
under_blob text u v h =
    lex_lt-append_left ovr_row_prefix_text (text ++ (b'/' ∷ u)) (text ++ (b'/' ∷ v))
      (lex_lt-append_left text (b'/' ∷ u) (b'/' ∷ v) (ground arith))

digits_before-x : (xs ys : List ℕ) → All (λ c. c ≤ 102) xs → lex_lt xs (b'x' ∷ ys) ≡ true
digits_before-x [] ys h = refl
digits_before-x (x ∷ xs) ys h = ground arith

module _ {U : Type 0} (as_simple : U → List ℕ) (blob_id : U) where
  -- Under the prefix of a blob, the lexicographic order of the row keys is the order of the
  -- blocks, for 32-bit block numbers.
  pub ovr_row_key-sorted :
      (a b : ℕ)
      → a < b
      → IsU32 b
      → lex_lt (ovr_row_key as_simple blob_id a) (ovr_row_key as_simple blob_id b) ≡ true
  unfolding ovr_row_key
  ovr_row_key-sorted a b lt h =
      under_blob (as_simple blob_id) (hex_fixed 8 a) (hex_fixed 8 b)
        (hex_fixed-sorted 8 a b (omega arith) lt)

  -- Every abort record stands behind every row of its blob.
  pub ovr_abort_key_last :
      (block lo hi : ℕ)
      → lex_lt (ovr_row_key as_simple blob_id block) (ovr_abort_key as_simple blob_id lo hi) ≡ true
  unfolding ovr_row_key ovr_abort_key
  ovr_abort_key_last block lo hi =
      under_blob (as_simple blob_id) (hex_fixed 8 block)
        (b'x' ∷ (hex_fixed 16 lo ++ (b'-' ∷ hex_fixed 16 hi)))
        (digits_before-x (hex_fixed 8 block) (hex_fixed 16 lo ++ (b'-' ∷ hex_fixed 16 hi))
          (All-hex_fixed (λ c. c ≤ 102) 8 block (λ d hd. (hex_char_range d hd).1)))
