-- ===== src/Wire.antt =====
-- protobuf_header.rs and the default methods of lib.rs in codec_common: the header of an RPC message
-- and its checks. A header is a C struct without padding, on a little-endian machine; a field of
-- type `i32` is its two's complement word. The hash XXH3 is a parameter.
pub mod Words
pub mod Frames
pub mod Receive
mod Examples
use fractalbits.Base.{
  ℕ, ◌+◌, ◌-◌, ◌%◌, ◌^◌, Bool, false, Option, none, some, List, [], ◌∷◌, ◌++◌, ltb, ◌==◌,
  if◌then◌else◌, length, take, drop, slice,
}
use fractalbits.Base.Bytes.{le_bytes, from_le}

abbrev pub Bytes : Type 0
Bytes = List ℕ

-- The fields of a struct one behind the other, each with its width in bytes.
unfoldable pub write_words : List ℕ → List ℕ → Bytes
unfolding le_bytes
write_words [] vs = []
write_words (w ∷ ws) [] = []
write_words (w ∷ ws) (v ∷ vs) = le_bytes w v ++ write_words ws vs

unfoldable pub read_words : List ℕ → Bytes → List ℕ
unfolding from_le
read_words [] bs = []
read_words (w ∷ ws) bs = from_le (take w bs) ∷ read_words ws (drop w bs)

pub record ProtobufMessageHeader : Type 0 where
  pub checksum : ℕ
  pub proto_version : ℕ
  pub retry_count : ℕ
  pub reserved0 : ℕ
  pub size : ℕ
  pub checksum_body : ℕ
  pub id : ℕ
  pub command : ℕ
  pub trace_id : ℕ
  pub reserved1 : ℕ

-- The widths of the fields behind the checksum.
abbrev pub remainder_widths : List ℕ
remainder_widths = 1 ∷ 1 ∷ 2 ∷ 4 ∷ 8 ∷ 4 ∷ 4 ∷ 8 ∷ 8 ∷ []

abbrev pub header_size : ℕ
header_size = 48

abbrev pub empty_body_checksum : ℕ
empty_body_checksum = 3244421341483603138

-- The fields behind the checksum.
unfoldable pub remainder : ProtobufMessageHeader → List ℕ
remainder h =
    h.proto_version ∷ h.retry_count ∷ h.reserved0 ∷ h.size ∷ h.checksum_body ∷ h.id ∷ h.command
    ∷ h.trace_id ∷ h.reserved1 ∷ []

unfoldable pub encode : ProtobufMessageHeader → Bytes
unfolding write_words remainder
encode h = le_bytes 8 h.checksum ++ write_words remainder_widths (remainder h)

-- A header of its checksum and its other fields.
unfoldable pub of_fields : ℕ → List ℕ → Option ProtobufMessageHeader
of_fields c (v ∷ r ∷ x ∷ s ∷ b ∷ i ∷ m ∷ t ∷ y ∷ []) = some (record {
  checksum = c;
  proto_version = v;
  retry_count = r;
  reserved0 = x;
  size = s;
  checksum_body = b;
  id = i;
  command = m;
  trace_id = t;
  reserved1 = y;
})
of_fields c _ = none

-- `none` is the panic of the slice where there are fewer bytes than a header has.
unfoldable pub decode : Bytes → Option ProtobufMessageHeader
unfolding of_fields read_words
decode src =
    if ltb (length src) header_size
    then none
    else of_fields (from_le (take 8 src)) (read_words remainder_widths (drop 8 src))

module _ (xxh3 : Bytes → ℕ) where
  unfoldable pub set_checksum : ProtobufMessageHeader → ProtobufMessageHeader
  unfolding encode
  set_checksum h = record h { checksum = xxh3 (slice 8 header_size (encode h)) }

  unfoldable pub body_checksum : Bytes → ℕ
  body_checksum [] = empty_body_checksum
  body_checksum (b ∷ bs) = xxh3 (b ∷ bs)

  unfoldable pub set_body_checksum : Bytes → ProtobufMessageHeader → ProtobufMessageHeader
  unfolding body_checksum
  set_body_checksum body h = record h { checksum_body = body_checksum body }

  unfoldable pub verify_body_checksum : ProtobufMessageHeader → Bytes → Bool
  unfolding body_checksum
  verify_body_checksum h body = h.checksum_body == body_checksum body

  -- The size is cut to 32 bits.
  unfoldable pub set_body : Bytes → ProtobufMessageHeader → ProtobufMessageHeader
  unfolding set_body_checksum
  set_body body h =
      set_body_checksum body (record h { size = (header_size + length body) % 2 ^ 32 })

  unfoldable pub verify_header_checksum_raw : Bytes → Bool
  verify_header_checksum_raw header_bytes =
      if ltb (length header_bytes) header_size
      then false
      else from_le (slice 0 8 header_bytes) == xxh3 (slice 8 header_size header_bytes)

unfoldable pub set_request : ℕ → ℕ → ℕ → ℕ → ProtobufMessageHeader → ProtobufMessageHeader
set_request id command retry_count trace_id h = record h {
  id = id;
  command = command;
  retry_count = retry_count;
  trace_id = trace_id;
}

unfoldable pub get_body_size : ProtobufMessageHeader → ℕ
get_body_size h = h.size - header_size
