-- ===== src/Read/Content.antt =====
-- The streams deliver the content of the object: all of it, or exactly the range.
use fractalbits.Base.Division.{div_lt, div_lower, div_upper, mul_next}
use fractalbits.Base.{
  subst, min, take_all, ◌/◌, max, inl, inr, ◌==◌, ==→eq, Bool-cases, slice, length-drop, take-take,
  drop-take, ◌++◌, ℕ, zero, suc, ◌+◌, ◌-◌, ◌*◌, ◌≤◌, ◌<◌, ◌≡◌, refl, ap, ◌∙◌, ◌≢◌, List, [], ◌∷◌,
  arith, length, take, drop, drop-drop, take-add,
}
use mathlib.Core.Path.{ap₂}
use mathlib.Core.List.{append-nil}
use native.Mathlib.Nat.{div-add-mod}
use fractalbits.Base.Results.{Result, ok, ◌>>=◌, collect}
use fractalbits.Layout.{div_ceil}
use fractalbits.Read.{
  S3Error, Bytes, content_len_at, read_blocks, get_full_blob_stream, scan_chunks,
  get_range_blob_stream,
}
use fractalbits.Read.Streams.{take_any, take-drop_at, joined, oks, scan_chunks-collect, collect-oks}

div_ceil_range :
    (size bs : ℕ) → 0 < bs → (size ≤ bs * div_ceil size bs) × (bs * div_ceil size bs < size + bs)
unfolding div_ceil
div_ceil_range size bs pos =
    let e : bs * (size / bs + 1) ≡ bs * (size / bs) + bs = grind arith in
    ground (arith, div_lower size bs, div_upper size bs pos, div-add-mod size bs, e)

div_ceil_bound :
    (size bs i : ℕ)
    → 0 < bs
    → i < div_ceil size bs
    → (bs * i < size)
      × (i ≢ div_ceil size bs - 1 → bs * i + bs ≤ size)
      × (i ≡ div_ceil size bs - 1 → size ≤ bs * i + bs)
div_ceil_bound size bs i pos h =
    let n = div_ceil size bs in
    let (lo, hi) = div_ceil_range size bs pos in
    let next = mul_next bs i n h in
    (
      omega arith,
      λ ne. omega (arith, mul_next bs (i + 1) n (omega arith), step),
      λ e. let m : n ≡ i + 1 = omega arith in omega (arith, ap (λ (t : ℕ). bs * t) m, step),
    )
  where
    step : bs * (i + 1) ≡ bs * i + bs
    step = grind arith

module _ (content : Bytes) (bs : ℕ) (pos : 0 < bs) where
  -- Block `i` of the content.
  abbrev block_of : ℕ → Bytes
  block_of i = take bs (drop (bs * i) content)

  abbrev run : ℕ → ℕ → List Bytes
  run i zero = []
  run i (suc count) = block_of i ∷ run (i + 1) count

  -- Reading a block yields the first `len` bytes of it.
  abbrev pub Reads : (ℕ → ℕ → Result S3Error Bytes) → Type 0
  Reads read =
      (i len : ℕ)
      → bs * i + len ≤ length content
      → len ≤ bs
      → read i len ≡ ok (take len (drop (bs * i) content))

  joined-run : (i count : ℕ) → joined (run i count) ≡ take (bs * count) (drop (bs * i) content)
  joined-run i zero = let e : 0 ≡ bs * 0 = omega arith in ap (λ n. take n (drop (bs * i) content)) e
  joined-run i (suc count) =
      let e : bs * suc count ≡ bs + bs * count = grind arith in
      let f : bs * i + bs ≡ bs * (i + 1) = grind arith in
      ap (◌++◌ (block_of i)) (joined-run (i + 1) count)
      ∙ rw (e, take-add bs (bs * count) (drop (bs * i) content), drop-drop bs (bs * i) content, f)

  block-read :
      (read : ℕ → ℕ → Result S3Error Bytes) (i : ℕ)
      → Reads read
      → i < div_ceil (length content) bs
      → read i (content_len_at bs (length content) (div_ceil (length content) bs) i)
        ≡ ok (block_of i)
  unfolding content_len_at
  block-read read i reads h =
      let (low, inner, last) = div_ceil_bound (length content) bs i pos h in
      elim (Bool-cases (i == div_ceil (length content) bs - 1)) [
        | inl e ↦
            let short : length content ≤ bs * i + bs = last (==→eq _ _ e) in
            rw e (
              reads i (length content - bs * i) (omega arith) (omega arith)
              ∙ ap ok (
                  take_any (length content - bs * i) bs (drop (bs * i) content) (
                    inr (
                      omega (arith, length-drop (bs * i) content),
                      omega (arith, length-drop (bs * i) content),
                    ))))
        | inr e ↦ rw e (reads i bs (inner (λ q. ground arith)) (omega arith))
      ]

  read_blocks-run :
      (read : ℕ → ℕ → Result S3Error Bytes) (i count : ℕ)
      → Reads read
      → i + count ≤ div_ceil (length content) bs
      → read_blocks read bs (length content) (div_ceil (length content) bs) i count
        ≡ oks (run i count)
  unfolding read_blocks
  read_blocks-run read i zero reads h = refl
  read_blocks-run read i (suc count) reads h =
      ap₂ ◌∷◌ (block-read read i reads (omega arith))
        (read_blocks-run read (i + 1) count reads (omega arith))

  whole : joined (run 0 (div_ceil (length content) bs)) ≡ content
  whole =
      let n = div_ceil (length content) bs in
      let e : bs * 0 ≡ 0 = omega arith in
      joined-run 0 n
      ∙ ap (λ k. take (bs * n) (drop k content)) e
      ∙ take_all (bs * n) content ((div_ceil_range (length content) bs pos).0)

  -- For a positive block size: if reading a block yields the requested bytes of it, a full
  -- request streams the whole content, whatever its length.
  pub get_full_blob_stream-content :
      (read : ℕ → ℕ → Result S3Error Bytes)
      → Reads read
      → (get_full_blob_stream read bs (length content) (div_ceil (length content) bs) >>= collect)
        ≡ ok content
  unfolding get_full_blob_stream
  get_full_blob_stream-content read reads = go (div_ceil (length content) bs) refl
    where
      go :
          (m : ℕ)
          → div_ceil (length content) bs ≡ m
          → (get_full_blob_stream read bs (length content) (div_ceil (length content) bs)
              >>= collect)
            ≡ ok content
      go zero e = let all = subst (λ k. joined (run 0 k) ≡ content) e whole in rw e (ap ok all)
      go (suc zero) e =
          let (lo, hi) = div_ceil_range (length content) bs pos in
          let fits : length content ≤ bs = omega (arith, ap (λ (t : ℕ). bs * t) e) in
          let none_before : bs * 0 ≡ 0 = omega arith in
          let one =
            reads 0 (length content) (omega arith) fits
            ∙ ap (λ k. ok (take (length content) (drop k content))) none_before
            ∙ ap ok (take_all (length content) content (omega arith)) in
          rw (e, one) (ap ok (append-nil content))
      go (suc (suc m)) e =
          let all = subst (λ k. joined (run 0 k) ≡ content) e whole in
          let (lo, hi) = div_ceil_range (length content) bs pos in
          let two = mul_next bs 1 (suc (suc m)) (omega arith) in
          let first = reads 0 bs (omega (arith, ap (λ (t : ℕ). bs * t) e)) (omega arith) in
          let rest = rw e at (read_blocks-run read 1 (suc m) reads (omega arith)) in
          ground (arith, e, first, rest, collect-oks (run 1 (suc m)), all)

  last_block :
      (end' : ℕ) → 0 < end' → end' ≤ length content → (end' - 1) / bs < div_ceil (length content) bs
  last_block end' p h =
      let (lo, _) = div_ceil_range (length content) bs pos in
      div_lt (end' - 1) bs (div_ceil (length content) bs) (omega arith)

  -- For a positive block size: if reading a block yields the requested bytes of it, a request
  -- for a range that is not empty and lies in the content streams exactly the bytes of the
  -- range, in order, whatever blocks it touches.
  pub get_range_blob_stream-content :
      (read : ℕ → ℕ → Result S3Error Bytes) (start end' : ℕ)
      → Reads read
      → start < end'
      → end' ≤ length content
      → collect
          (get_range_blob_stream read bs (length content) (div_ceil (length content) bs) start end')
        ≡ ok (slice start end' content)
  unfolding get_range_blob_stream
  get_range_blob_stream-content read start end' reads h k =
      let first = start / bs in
      let last = (end' - 1) / bs in
      let count = last + 1 - first in
      let offset = bs * first in
      let lo = div_lower start bs in
      let top = div_upper (end' - 1) bs pos in
      let next : bs * (last + 1) ≡ bs * last + bs = grind arith in
      let order : first < last + 1 = div_lt start bs (last + 1) (omega arith) in
      let sum : first + count ≡ last + 1 = omega arith in
      let hi : end' ≤ offset + bs * count = omega (arith, ap (λ (t : ℕ). bs * t) sum) in
      let inside : first + count ≤ div_ceil (length content) bs =
        omega (arith, last_block end' (omega arith) k) in
      let want = end' - max start offset in
      let skip = start - offset in
      let part =
        drop-take skip (bs * count) (drop offset content)
        ∙ ap (take (bs * count - skip)) (drop-drop skip offset content) in
      ap (λ l. collect (scan_chunks start end' offset l))
        (read_blocks-run read first count reads inside)
      ∙ scan_chunks-collect start end' offset (run first count)
      ∙ ap (λ c. ok (take want (drop skip c))) (joined-run first count)
      ∙ ap ok (
          ap (take want) part
          ∙ take-take want (bs * count - skip) (drop (offset + skip) content)
          ∙ take-drop_at (min want (bs * count - skip)) (end' - start) (offset + skip) start content
              (omega arith) (omega arith))
