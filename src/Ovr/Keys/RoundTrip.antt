-- ===== src/Ovr/Keys/RoundTrip.antt =====
-- The keys are read back, with or without trailing NULs, and the two kinds are never confused.
use fractalbits.Base.{
  ℕ, ◌^◌, ◌≤◌, ◌<◌, ◌≡◌, ◌≢◌, ◌⊎◌, Option, none, some, List, [], ◌∷◌, ◌++◌, arith, All-append,
  length-append, replicate,
}
use fractalbits.Base.Bytes.{IsU32, IsU64}
use fractalbits.Base.Text.{
  IsFree, trim_end, trim_end-append, split_once-append, strip_prefix-append,
}
use fractalbits.Base.Text.Hex.{
  hex_fixed, from_hex-hex_fixed, length-hex_fixed, All-hex_fixed, hex_char_range,
}
use fractalbits.Ovr.Keys.{
  ovr_row_prefix_text, ovr_row_key, ovr_abort_key, ovr_gc_key, ovr_gc_prefix, parse_ovr_row_block,
  parse_ovr_abort_range, parse_ovr_gc_blob_id,
}

-- The text of a blob id holds neither a slash nor a NUL.
pub record IsIdText (text : List ℕ) : Type 0 where
  pub no_slash : IsFree b'/' text
  pub no_nul : IsFree 0 text

hex-IsFree : (c w v : ℕ) → (c < 48) ⊎ (102 < c) → IsFree c (hex_fixed w v)
hex-IsFree c w v h = All-hex_fixed (λ x. x ≢ c) w v (λ d hd. omega (arith, hex_char_range d hd))

-- A key under `@ovr/{id}/` with any number of trailing NULs, taken apart.
trim-key :
    (text body : List ℕ) (k : ℕ)
    → IsIdText text
    → IsFree 0 body
    → trim_end 0 ((ovr_row_prefix_text ++ (text ++ (b'/' ∷ body))) ++ replicate k 0)
      ≡ ovr_row_prefix_text ++ (text ++ (b'/' ∷ body))
trim-key text body k id free =
    trim_end-append 0 k (ovr_row_prefix_text ++ (text ++ (b'/' ∷ body))) (
      All-append (λ x. x ≢ 0) ovr_row_prefix_text (text ++ (b'/' ∷ body)) (omega arith)
        (All-append (λ x. x ≢ 0) text (b'/' ∷ body) id.no_nul (omega arith, free)))

module _ {U : Type 0} (as_simple : U → List ℕ) (blob_id : U)
    (id : IsIdText (as_simple blob_id)) where
  -- For a blob id whose text holds neither a slash nor a NUL: the key of a row, with any number
  -- of NULs behind it, parses to its block, for every 32-bit block number.
  pub parse_ovr_row_block-ovr_row_key :
      (block k : ℕ)
      → IsU32 block
      → parse_ovr_row_block (ovr_row_key as_simple blob_id block ++ replicate k 0) ≡ some block
  unfolding parse_ovr_row_block ovr_row_key
  parse_ovr_row_block-ovr_row_key block k h =
      rw
        (
          trim-key (as_simple blob_id) (hex_fixed 8 block) k id
              (hex-IsFree 0 8 block (omega arith)),
          strip_prefix-append ovr_row_prefix_text (as_simple blob_id ++ (b'/' ∷ hex_fixed 8 block)),
          split_once-append b'/' (as_simple blob_id) (hex_fixed 8 block) id.no_slash,
          length-hex_fixed 8 block,
        )
        (from_hex-hex_fixed (2 ^ 32) 8 block (omega arith) (omega arith) h)

  -- For such a blob id: the key of an abort record, with any number of NULs behind it, parses
  -- to its range, for every range of 64-bit generations that starts above 0 and does not end
  -- before it starts.
  pub parse_ovr_abort_range-ovr_abort_key :
      (lo hi k : ℕ)
      → 0 < lo
      → lo ≤ hi
      → IsU64 hi
      → parse_ovr_abort_range (ovr_abort_key as_simple blob_id lo hi ++ replicate k 0)
        ≡ some (lo, hi)
  unfolding parse_ovr_abort_range ovr_abort_key
  parse_ovr_abort_range-ovr_abort_key lo hi k pos le word =
      let tail : List ℕ = hex_fixed 16 lo ++ (b'-' ∷ hex_fixed 16 hi) in
      rw
        (
          trim-key (as_simple blob_id) (b'x' ∷ tail) k id (
            omega arith,
            All-append (λ x. x ≢ 0) (hex_fixed 16 lo) (b'-' ∷ hex_fixed 16 hi)
                (hex-IsFree 0 16 lo (omega arith)) (omega arith, hex-IsFree 0 16 hi (omega arith)),
          ),
          strip_prefix-append ovr_row_prefix_text (as_simple blob_id ++ (b'/' ∷ b'x' ∷ tail)),
          split_once-append b'/' (as_simple blob_id) (b'x' ∷ tail) id.no_slash,
          strip_prefix-append (b'x' ∷ []) tail,
          split_once-append b'-' (hex_fixed 16 lo) (hex_fixed 16 hi)
              (hex-IsFree b'-' 16 lo (omega arith)),
          length-hex_fixed 16 lo,
          length-hex_fixed 16 hi,
          from_hex-hex_fixed (2 ^ 64) 16 lo (omega arith) (omega arith) (omega arith),
          from_hex-hex_fixed (2 ^ 64) 16 hi (omega arith) (omega arith) word,
        )
        (ground arith)

  -- For a blob id whose text holds neither a slash nor a NUL: the key of an abort record, with
  -- any number of NULs behind it, is never taken for the key of a row.
  pub parse_ovr_row_block-ovr_abort_key :
      (lo hi k : ℕ)
      → parse_ovr_row_block (ovr_abort_key as_simple blob_id lo hi ++ replicate k 0) ≡ none
  unfolding parse_ovr_row_block ovr_abort_key
  parse_ovr_row_block-ovr_abort_key lo hi k =
      let tail : List ℕ = hex_fixed 16 lo ++ (b'-' ∷ hex_fixed 16 hi) in
      rw (
        trim-key (as_simple blob_id) (b'x' ∷ tail) k id (
          omega arith,
          All-append (λ x. x ≢ 0) (hex_fixed 16 lo) (b'-' ∷ hex_fixed 16 hi)
              (hex-IsFree 0 16 lo (omega arith)) (omega arith, hex-IsFree 0 16 hi (omega arith)),
        ),
        strip_prefix-append ovr_row_prefix_text (as_simple blob_id ++ (b'/' ∷ b'x' ∷ tail)),
        split_once-append b'/' (as_simple blob_id) (b'x' ∷ tail) id.no_slash,
        length-append (hex_fixed 16 lo) (b'-' ∷ hex_fixed 16 hi),
        length-hex_fixed 16 lo,
        length-hex_fixed 16 hi,
      )

  -- The teardown key of a blob, with any number of NULs behind it, parses to that blob, if the
  -- uuid parser reads the text of its id.
  pub parse_ovr_gc_blob_id-ovr_gc_key :
      (try_parse : List ℕ → Option U) (k : ℕ)
      → try_parse (as_simple blob_id) ≡ some blob_id
      → parse_ovr_gc_blob_id try_parse (ovr_gc_key as_simple blob_id ++ replicate k 0)
        ≡ some blob_id
  unfolding parse_ovr_gc_blob_id ovr_gc_key
  parse_ovr_gc_blob_id-ovr_gc_key try_parse k h =
      rw
        (
          trim_end-append 0 k (ovr_gc_prefix ++ as_simple blob_id)
              (All-append (λ x. x ≢ 0) ovr_gc_prefix (as_simple blob_id) (omega arith) id.no_nul),
          strip_prefix-append ovr_gc_prefix (as_simple blob_id),
        )
        h
