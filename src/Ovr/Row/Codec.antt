-- ===== src/Ovr/Row/Codec.antt =====
-- The row codec: every valid row survives the round trip, and every accepted buffer is canonical.
use fractalbits.Base.{
  ℕ, ◌^◌, ◌<◌, ◌≡◌, refl, sym, subst, ◌∙◌, Option, none, some, List, [], ◌∷◌, ◌++◌, arith, length,
  ◌==◌, if◌then◌else◌, ◌>>=◌, take, drop, All, All-split, length-append, length-take, length-drop,
  take-append, drop-append, take_all, take-append-drop,
}
use fractalbits.Base.Bytes.{
  IsByte, IsU64, le_bytes, from_le, length-le_bytes, from_le-le_bytes, le_bytes-from_le, from_le-lt,
}
use fractalbits.Ovr.Row.{
  OvrRow, RowState, PrevSlot, encode, decode, decode_prev, tag_state, state_tag, prev_bytes,
  IsValid, IsPrevBelow,
}

tag_state-state_tag : (s : RowState) → tag_state (state_tag s) ≡ some s
unfolding tag_state state_tag
tag_state-state_tag RowState.written = refl
tag_state-state_tag RowState.hole = refl

decode_prev-prev_bytes :
    (p : PrevSlot) (v : ℕ)
    → IsPrevBelow p v
    → decode_prev (prev_bytes p).0 (prev_bytes p).1 v ≡ some p
unfolding decode_prev prev_bytes tag_state state_tag
decode_prev-prev_bytes PrevSlot.base v h = refl
decode_prev-prev_bytes (PrevSlot.slot RowState.written p) v h = ground arith
decode_prev-prev_bytes (PrevSlot.slot RowState.hole p) v h = ground arith

-- What `decode` makes of its fields.
finish : ℕ → ℕ → ℕ → ℕ → Option OvrRow
finish b1 b2 cur prv = do
  cur_state ← tag_state b1
  prev ← decode_prev b2 prv cur
  if cur == 0 then none else some (record { cur_state = cur_state; cur_version = cur; prev = prev })

-- A buffer of twenty bytes with the fixed tags decodes by its two words.
decode-eq :
    (b1 b2 : ℕ) (xs ys : List ℕ)
    → length xs ≡ 8
    → length ys ≡ 8
    → decode (1 ∷ b1 ∷ b2 ∷ 0 ∷ (xs ++ ys)) ≡ finish b1 b2 (from_le xs) (from_le ys)
unfolding decode finish
decode-eq b1 b2 xs ys hx hy =
    let e : length (xs ++ ys) ≡ 16 = omega (arith, length-append xs ys) in
    let f : take 8 (drop 8 (xs ++ ys)) ≡ ys =
      rw (drop-append xs ys 8 hx) (take_all 8 ys (omega arith)) in
    rw (e, take-append xs ys 8 hx, f)

finish-prev_bytes :
    (s : RowState) (cur : ℕ) (p : PrevSlot)
    → 0 < cur
    → IsPrevBelow p cur
    → finish (state_tag s) (prev_bytes p).0 cur (prev_bytes p).1
      ≡ some (record { cur_state = s; cur_version = cur; prev = p })
unfolding finish
finish-prev_bytes s cur p pos h =
    rw (tag_state-state_tag s, decode_prev-prev_bytes p cur h) (ground arith)

prev_bytes-word : (p : PrevSlot) (v : ℕ) → IsU64 v → IsPrevBelow p v → IsU64 (prev_bytes p).1
unfolding prev_bytes
prev_bytes-word PrevSlot.base v w h = omega arith
prev_bytes-word (PrevSlot.slot s p) v w h = omega arith

-- Every row that meets the documented field invariants is read back from its encoding.
pub decode-encode : (r : OvrRow) → IsValid r → decode (encode r) ≡ some r
unfolding encode
decode-encode r v =
    let small : IsU64 (prev_bytes r.prev).1 =
      prev_bytes-word r.prev r.cur_version v.is_word v.below in
    decode-eq (state_tag r.cur_state) (prev_bytes r.prev).0 (le_bytes 8 r.cur_version)
      (le_bytes 8 (prev_bytes r.prev).1) (length-le_bytes 8 r.cur_version)
      (length-le_bytes 8 (prev_bytes r.prev).1)
    ∙ rw
        (from_le-le_bytes 8 r.cur_version v.is_word, from_le-le_bytes 8 (prev_bytes r.prev).1 small)
        (finish-prev_bytes r.cur_state r.cur_version r.prev v.positive v.below)

-- What an accepted buffer looks like.
decode_shape :
    (buf : List ℕ) {r : OvrRow}
    → decode buf ≡ some r
    → (b1 b2 : ℕ) × (xs ys : List ℕ) × (buf ≡ 1 ∷ b1 ∷ b2 ∷ 0 ∷ (xs ++ ys))
      × (length xs ≡ 8)
      × (length ys ≡ 8)
unfolding decode
decode_shape [] h = absurd (ground arith)
decode_shape (b0 ∷ []) h = absurd (ground arith)
decode_shape (b0 ∷ b1 ∷ []) h = absurd (ground arith)
decode_shape (b0 ∷ b1 ∷ b2 ∷ []) h = absurd (ground arith)
decode_shape (b0 ∷ b1 ∷ b2 ∷ b3 ∷ rest) h =
    let n : length rest ≡ 16 = ground arith in
    (
      b1,
      b2,
      take 8 rest,
      drop 8 rest,
      ground (arith, take-append-drop 8 rest),
      omega (arith, length-take 8 rest),
      omega (arith, length-drop 8 rest),
    )

tag_state_sound : (t : ℕ) (s : RowState) → tag_state t ≡ some s → state_tag s ≡ t
unfolding tag_state state_tag
tag_state_sound t RowState.written h = ground arith
tag_state_sound t RowState.hole h = ground arith

decode_prev_sound :
    (t p v : ℕ) (s : PrevSlot)
    → decode_prev t p v ≡ some s
    → (prev_bytes s ≡ (t, p)) × IsPrevBelow s v
unfolding decode_prev prev_bytes
decode_prev_sound t p v (PrevSlot.base) h = ground arith
decode_prev_sound t p v (PrevSlot.slot s q) h = ground (arith, tag_state_sound t s)

finish_sound :
    (b1 b2 cur prv : ℕ) (r : OvrRow)
    → finish b1 b2 cur prv ≡ some r
    → (state_tag r.cur_state ≡ b1)
      × (r.cur_version ≡ cur)
      × (prev_bytes r.prev ≡ (b2, prv))
      × (0 < cur)
      × IsPrevBelow r.prev cur
unfolding finish
finish_sound b1 b2 cur prv r h =
    ground (arith, tag_state_sound b1 r.cur_state, decode_prev_sound b2 prv cur r.prev)

-- Reading the buffer that `decode_shape` describes.
decode-finish :
    (b1 b2 : ℕ) (xs ys buf : List ℕ) (r : OvrRow)
    → buf ≡ 1 ∷ b1 ∷ b2 ∷ 0 ∷ (xs ++ ys)
    → length xs ≡ 8
    → length ys ≡ 8
    → decode buf ≡ some r
    → finish b1 b2 (from_le xs) (from_le ys) ≡ some r
decode-finish b1 b2 xs ys buf r e hx hy h = cc (decode-eq b1 b2 xs ys hx hy)

-- A byte buffer that is accepted is the encoding of the row that it decodes to.
pub encode-decode :
    (buf : List ℕ) (r : OvrRow) → All IsByte buf → decode buf ≡ some r → encode r ≡ buf
unfolding encode
encode-decode buf r bytes h =
    let (b1, b2, xs, ys, e, hx, hy) = decode_shape buf h in
    let (s, v, p, _, _) =
      finish_sound b1 b2 (from_le xs) (from_le ys) r (decode-finish b1 b2 xs ys buf r e hx hy h) in
    let parts = All-split IsByte xs ys (subst (All IsByte) e bytes).1.1.1.1 in
    rw (s, v, p, le_bytes-from_le 8 xs hx parts.0, le_bytes-from_le 8 ys hy parts.1) (sym e)

-- Any row that `decode` accepts meets the field invariants.
pub decode-IsValid : (buf : List ℕ) (r : OvrRow) → All IsByte buf → decode buf ≡ some r → IsValid r
decode-IsValid buf r bytes h =
    let (b1, b2, xs, ys, e, hx, hy) = decode_shape buf h in
    let (_, v, _, pos, below) =
      finish_sound b1 b2 (from_le xs) (from_le ys) r (decode-finish b1 b2 xs ys buf r e hx hy h) in
    let parts = All-split IsByte xs ys (subst (All IsByte) e bytes).1.1.1.1 in
    let small : from_le xs < 256 ^ 8 =
      subst (λ n. from_le xs < 256 ^ n) hx (from_le-lt xs parts.0) in
    record { positive = omega arith; is_word = omega arith; below = rw v below }
