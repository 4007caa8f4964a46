-- ===== src/Read/Parts/Ranges.antt =====
-- The body of an upload is its parts' contents one behind the other, and a range of it is the range.
use fractalbits.Base.Results.{Result-cases, Result, ok, err, ◌>>=◌, collect}
use fractalbits.Base.{
  zero, suc, max, ◌↔◌, ◌⊎◌, Option, some, Option-cases, get_elem?, take, drop, ◌-◌, Bool, true,
  false, ◌&&◌, ltb, ◌==◌, if◌then◌else◌, ℕ, ◌+◌, ◌≤◌, leb, Bool-cases, All, slice, sym, ◌∙◌, refl,
  ap, ◌<◌, ◌≡◌, inl, inr, none, List, [], ◌∷◌, ◌++◌, arith, length,
}
use mathlib.Core.List.{append_assoc}
use fractalbits.Ovr.Map.{OvrRowMap}
use fractalbits.Layout.{
  MpuState, ObjectCoreMetaData, ObjectLayout, s3_volume, ObjectMetaData, BlobLocation, ObjectState,
  blob_guid, get_blob_location, size, num_blocks, div_ceil,
}
use fractalbits.Read.{S3Error, Bytes, scan_chunks, get_full_blob_stream, get_range_blob_stream}
use fractalbits.Read.Streams.{scan_chunks-collect, joined, oks}
use fractalbits.Read.Content.{Reads, get_full_blob_stream-content, get_range_blob_stream-content}
use fractalbits.Read.Parts.{
  content_of_parts, chosen_parts, range_of_state, content_of_state, whole_streams,
  get_object_range_content, get_object_content, Part, Stream, BlobClient, PartRange, from_layout,
  read_object, try_flatten, full_stream, range_stream, parts_in_range, part_streams,
}

-- A stored blob with a content: its layout tells its size, and reading a block of it yields the bytes
-- of the block.
abbrev pub IsPart : BlobClient → Part → Bytes → Type 0
IsPart client p content =
    (d : ObjectMetaData) × (p.1.state ≡ ObjectState.normal d)
    × (d.core_meta_data.size ≡ length content)
    × (pos : 0 < p.1.block_size) × Reads content p.1.block_size pos
        (read_object client p.0 p.1 d.blob_guid none)

abbrev pub AreParts : BlobClient → List Part → List Bytes → Type 0
AreParts client [] [] = Unit {0}
AreParts client [] (c ∷ contents) = ⊥
AreParts client (p ∷ parts) [] = ⊥
AreParts client (p ∷ parts) (c ∷ contents) = IsPart client p c × AreParts client parts contents

collect-append :
    (xs ys : Stream) (a : Bytes)
    → collect xs ≡ ok a
    → collect (xs ++ ys) ≡ (collect ys >>= λ b. ok (a ++ b))
collect-append [] ys a h = go (collect ys)
  where
    nil : [] ≡ a
    nil = cc

    go : (r : Result S3Error Bytes) → r ≡ (r >>= λ b. ok (a ++ b))
    go (err e) = refl
    go (ok b) = ap (λ (n : Bytes). ok (n ++ b)) nil
collect-append (err e ∷ xs) ys a h = cc
collect-append (ok c ∷ xs) ys a h = go (collect xs) refl (collect-append xs ys)
  where
    go :
        (r : Result S3Error Bytes)
        → collect xs ≡ r
        → ((b : Bytes)
            → collect xs ≡ ok b
            → collect (xs ++ ys) ≡ (collect ys >>= λ b'. ok (b ++ b')))
        → (collect (xs ++ ys) >>= λ cs. ok (c ++ cs)) ≡ (collect ys >>= λ b. ok (a ++ b))
    go (err e) f next = absurd (ground (arith, f, h))
    go (ok b) f next = rw (next b f) (last (collect ys))
      where
        whole : c ++ b ≡ a
        whole = cc (f, h)

        last :
            (r : Result S3Error Bytes)
            → ((r >>= λ b'. ok (b ++ b')) >>= λ cs. ok (c ++ cs)) ≡ (r >>= λ b'. ok (a ++ b'))
        last (err e) = refl
        last (ok b') = ap ok (sym (append_assoc c b b') ∙ ap (λ (l : Bytes). l ++ b') whole)

module _ (client : BlobClient) where
  -- What the accessors say of a part.
  part_facts :
      (p : Part) (content : Bytes) (part : IsPart client p content)
      → (from_layout (blob_guid p.1) ≡ ok part.0.blob_guid)
        × (from_layout (size p.1) ≡ ok (length content))
        × (from_layout (num_blocks p.1) ≡ ok (div_ceil (length content) p.1.block_size))
        × ((l : BlobLocation) × (from_layout (get_blob_location p.1) ≡ ok l))
  unfolding from_layout blob_guid size num_blocks get_blob_location
  part_facts p content (d, state, len, _, _) =
      rw (state, len) (refl, refl, refl, go (d.blob_guid.volume_id == s3_volume))
    where
      go :
          (b : Bool)
          → (l : BlobLocation) × (from_layout
                (if b then ok BlobLocation.s3 else ok BlobLocation.data_vg_proxy)
              ≡ ok l)
      go true = (BlobLocation.s3, refl)
      go false = (BlobLocation.data_vg_proxy, refl)

  range_stream-content :
      (p : Part) (content : Bytes) (start end' : ℕ)
      → IsPart client p content
      → start < end'
      → end' ≤ length content
      → (s : Stream) × (range_stream client p.0 p.1 none start end' ≡ ok s)
        × (collect s ≡ ok (slice start end' content))
  unfolding range_stream
  range_stream-content p content start end' part lt le =
      let (d, state, len, pos, reads) = part in
      let (guid, total, blocks, (l, location)) = part_facts p content part in
      let read = read_object client p.0 p.1 d.blob_guid none in
      let bs = p.1.block_size in
      let s =
        get_range_blob_stream read bs (length content) (div_ceil (length content) bs) start end' in
      (
        s,
        ground (arith, guid, total, blocks, location),
        get_range_blob_stream-content content bs pos read start end' reads lt le,
      )

  full_stream-content :
      (p : Part) (content : Bytes)
      → IsPart client p content
      → (s : Stream) × (full_stream client p.0 p.1 none ≡ ok s) × (collect s ≡ ok content)
  unfolding full_stream
  full_stream-content p content part =
      let (d, state, len, pos, reads) = part in
      let (guid, total, blocks, (l, location)) = part_facts p content part in
      let read = read_object client p.0 p.1 d.blob_guid none in
      let bs = p.1.block_size in
      let whole = get_full_blob_stream-content content bs pos read reads in
      elim (Result-cases
        (get_full_blob_stream read bs (length content) (div_ceil (length content) bs))) [
          | inl (e, f) ↦ absurd (ground (arith, f, whole))
          | inr (s, f) ↦
              (s, ground (arith, guid, total, blocks, location, f), ground (arith, f, whole))
        ]

  abbrev bodies_of : Result S3Error (List PartRange) → Result S3Error Bytes
  bodies_of ranges = ranges >>= λ rs. collect (try_flatten (part_streams client rs))

  -- A part that meets the range, with those behind it.
  joined_part :
      (p : Part) (content cut : Bytes) (start end' : ℕ) (rest : Result S3Error (List PartRange))
      (more : Result S3Error Bytes)
      → IsPart client p content
      → start < end'
      → end' ≤ length content
      → slice start end' content ≡ cut
      → bodies_of rest ≡ more
      → bodies_of
          (rest >>= λ rs. ok (record { part = p; blob_start = start; blob_end = end' } ∷ rs))
        ≡ (more >>= λ cs. ok (cut ++ cs))
  unfolding part_streams try_flatten
  joined_part p content cut start end' (err e) more part lt le same next =
      ap (λ m. m >>= λ cs. ok (cut ++ cs)) next
  joined_part p content cut start end' (ok rs) more part lt le same next =
      let (s, opened_, bytes) = range_stream-content p content start end' part lt le in
      rw opened_ (
        collect-append s (try_flatten (part_streams client rs)) cut (bytes ∙ ap ok same)
        ∙ ap (λ m. m >>= λ cs. ok (cut ++ cs)) next)

  parts_in_range-scan :
      (start end' offset : ℕ) (parts : List Part) (contents : List Bytes)
      → start < end'
      → AreParts client parts contents
      → All (λ c. 0 < length c) contents
      → bodies_of (parts_in_range start end' offset parts)
        ≡ collect (scan_chunks start end' offset (oks contents))
  unfolding parts_in_range part_streams try_flatten scan_chunks
  parts_in_range-scan start end' offset [] [] lt are some_ = refl
  parts_in_range-scan start end' offset [] (c ∷ contents) lt are some_ = absurd are
  parts_in_range-scan start end' offset (p ∷ parts) [] lt are some_ = absurd are
  parts_in_range-scan start end' offset (p ∷ parts) (c ∷ contents) lt are some_ =
      let next =
        parts_in_range-scan start end' (offset + length c) parts contents lt are.1 some_.1 in
      let (_, total, _, _) = part_facts p c are.0 in
      elim (Bool-cases (leb end' offset)) [
        | inl past ↦ ground (arith, total, past)
        | inr more ↦ elim (Bool-cases (leb (offset + length c) start)) [
          | inl early ↦ ground (arith, total, more, early, next)
          | inr inside ↦
              let stop = if ltb (offset + length c) end' then length c else end' - offset in
              let met : (ltb offset end' && ltb start (offset + length c)) ≡ true =
                ground (arith, more, inside) in
              let part =
                joined_part p c (slice (start - offset) stop c) (start - offset) stop
                  (parts_in_range start end' (offset + length c) parts)
                  (collect (scan_chunks start end' (offset + length c) (oks contents))) are.0
                  (ground (arith, more, inside, lt, some_.0)) (ground (arith, more)) refl next in
              ground (arith, total, more, inside, met, part)
        ]
      ]

  whole_streams-content :
      (parts : List Part) (contents : List Bytes)
      → AreParts client parts contents
      → collect (try_flatten (whole_streams client parts)) ≡ ok (joined contents)
  unfolding whole_streams try_flatten
  whole_streams-content [] [] are = refl
  whole_streams-content [] (c ∷ contents) are = absurd are
  whole_streams-content (p ∷ parts) [] are = absurd are
  whole_streams-content (p ∷ parts) (c ∷ contents) are =
      let (s, opened_, bytes) = full_stream-content p c are.0 in
      rw opened_ (
        collect-append s (try_flatten (whole_streams client parts)) c bytes
        ∙ rw (whole_streams-content parts contents are.1) refl)

-- For a completed upload whose parts are stored with contents that are not empty, and a range that
-- is not empty: the request streams exactly the bytes of the range of the parts' contents one
-- behind the other, in order, whichever parts and blocks it touches.
pub get_object_range_content-parts :
    (client : BlobClient) (key : Bytes) (object : ObjectLayout) (core : ObjectCoreMetaData)
    (rows : Result S3Error (Option OvrRowMap)) (parts : List Part) (contents : List Bytes)
    (start end' : ℕ)
    → object.state ≡ ObjectState.mpu (MpuState.completed core)
    → AreParts client parts contents
    → All (λ c. 0 < length c) contents
    → start < end'
    → (get_object_range_content (some client) key object rows (ok parts) start end' >>= collect)
      ≡ ok (slice start end' (joined contents))
unfolding get_object_range_content range_of_state
get_object_range_content-parts client key object core rows parts contents start end' state are some_
      lt =
    rw state (flat (parts_in_range start end' 0 parts) ∙ scanned ∙ ap ok whole)
  where
    flat :
        (r : Result S3Error (List PartRange))
        → ((r >>= λ ranges. ok (try_flatten (part_streams client ranges))) >>= collect)
          ≡ bodies_of client r
    flat (err e) = refl
    flat (ok rs) = refl

    scanned :
        bodies_of client (parts_in_range start end' 0 parts)
        ≡ ok (take (end' - max start 0) (drop (start - 0) (joined contents)))
    scanned =
        parts_in_range-scan client start end' 0 parts contents lt are some_
        ∙ scan_chunks-collect start end' 0 contents

    whole :
        take (end' - max start 0) (drop (start - 0) (joined contents))
        ≡ slice start end' (joined contents)
    whole =
        let e : max start 0 ≡ start = omega arith in
        let f : start - 0 ≡ start = omega arith in rw (e, f) refl

-- For a completed upload whose parts are stored with their contents: the request for the whole body
-- streams the parts' contents one behind the other, with the size that the upload records.
pub get_object_content-parts :
    (client : BlobClient) (key : Bytes) (object : ObjectLayout) (core : ObjectCoreMetaData)
    (rows : Result S3Error (Option OvrRowMap)) (parts : List Part) (contents : List Bytes)
    → object.state ≡ ObjectState.mpu (MpuState.completed core)
    → AreParts client parts contents
    → (s : Stream) × (get_object_content (some client) key object rows (ok parts) none
        ≡ some (ok (s, core.size)))
      × (collect s ≡ ok (joined contents))
unfolding get_object_content content_of_state chosen_parts content_of_parts
get_object_content-parts client key object core rows parts contents state are = (
  try_flatten (whole_streams client parts),
  rw state refl,
  whole_streams-content client parts contents are,
)

get_elem?-none : (parts : List Part) (i : ℕ) → (get_elem? parts i ≡ none) ↔ (length parts ≤ i)
get_elem?-none [] i = ((λ _. omega arith), λ _. refl)
get_elem?-none (p ∷ parts) zero = ((λ e. absurd (ground (arith, e))), λ h. absurd (omega arith))
get_elem?-none (p ∷ parts) (suc i) =
    let (to_, from) = get_elem?-none parts i in
    ((λ e. omega (arith, to_ e)), λ h. from (omega arith))

-- A request for one part of a completed upload panics exactly if the part number is 0 or above the
-- number of parts that the listing returned.
pub get_object_content_panic :
    (client : BlobClient) (key : Bytes) (object : ObjectLayout) (core : ObjectCoreMetaData)
    (rows : Result S3Error (Option OvrRowMap)) (parts : List Part) (n : ℕ)
    → object.state ≡ ObjectState.mpu (MpuState.completed core)
    → (get_object_content (some client) key object rows (ok parts) (some n) ≡ none)
      ↔ ((n ≡ 0) ⊎ (length parts < n))
unfolding get_object_content content_of_state chosen_parts
get_object_content_panic client key object core rows parts zero state =
    ((λ _. inl refl), λ _. rw state refl)
get_object_content_panic client key object core rows parts (suc i) state =
    let (to_, from) = get_elem?-none parts i in
    elim (Option-cases (get_elem? parts i)) [
      | inl e ↦ ((λ _. inr (omega (arith, to_ e))), λ _. ground (arith, state, e))
      | inr (p, e) ↦ (
        (λ h. absurd (ground (arith, state, e, h))),
        λ h. absurd (no_part e (from (ground (arith, h)))),
      )
    ]
  where
    no_part : {p : Part} → get_elem? parts i ≡ some p → get_elem? parts i ≡ none → ⊥
    no_part e f = ground (arith, e, f)
