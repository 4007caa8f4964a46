-- ===== src/Drives.antt =====
-- drive.rs, the record of a drive, and the names that a bucket may have. Texts are lists of code
-- points; identifiers and clock readings are arguments.
pub mod Lease
pub mod World
pub mod Fencing
pub mod Slots
mod Examples
use fractalbits.Base.Bytes.{bytes_eq}
use fractalbits.Base.Text.{codes, starts_with}
use fractalbits.Base.{
  ℕ, ◌-◌, Bool, true, false, not, ◌&&◌, ◌||◌, List, [], ◌∷◌, ◌++◌, ltb, leb, ◌==◌,
}

pub data DriveStatus : Type 0 where
  ready deleting : DriveStatus

-- A text, as its code points.
abbrev pub Chars : Type 0
Chars = List ℕ

pub record Drive : Type 0 where
  pub id : Chars
  pub name : Chars
  pub display_name : Chars
  pub labels : List (Chars × Chars)
  pub status : DriveStatus
  pub created_at_ms : ℕ
  pub created_by : Chars
  pub bucket_root : Chars
  pub deleting_since_ms : ℕ
  pub sweep_heartbeat_ms : ℕ
  pub sweep_token : Chars

abbrev pub sweep_lease_ms : ℕ
sweep_lease_ms = 60000

unfoldable pub is_deleting : DriveStatus → Bool
is_deleting DriveStatus.ready = false
is_deleting DriveStatus.deleting = true

unfoldable pub new : Chars → ℕ → Chars → Chars → List (Chars × Chars) → Chars → Chars → Drive
new id now name display_name labels created_by bucket_root = record {
  id = id;
  name = name;
  display_name = display_name;
  labels = labels;
  status = DriveStatus.ready;
  created_at_ms = now;
  created_by = created_by;
  bucket_root = bucket_root;
  deleting_since_ms = 0;
  sweep_heartbeat_ms = 0;
  sweep_token = [];
}

-- The age is saturating.
unfoldable pub sweep_alive : ℕ → Drive → Bool
unfolding is_deleting
sweep_alive now_ms d = is_deleting d.status && ltb (now_ms - d.sweep_heartbeat_ms) sweep_lease_ms

unfoldable pub kv_key : Chars → Chars
kv_key name = codes "drive:" ++ name

-- Equality of the label maps, which are in key order.
unfoldable pub same_labels : List (Chars × Chars) → List (Chars × Chars) → Bool
same_labels [] [] = true
same_labels [] (l ∷ ls) = false
same_labels (k ∷ ks) [] = false
same_labels ((k, v) ∷ ks) ((l, w) ∷ ls) = bytes_eq k l && bytes_eq v w && same_labels ks ls

unfoldable pub same_metadata : Chars → List (Chars × Chars) → Drive → Bool
unfolding same_labels
same_metadata display_name labels d =
    bytes_eq d.display_name display_name && same_labels d.labels labels

unfoldable pub ends_with : Chars → Chars → Bool
ends_with suffix [] = bytes_eq suffix []
ends_with suffix (c ∷ cs) = bytes_eq suffix (c ∷ cs) || ends_with suffix cs

unfoldable pub contains : Chars → Chars → Bool
unfolding starts_with
contains part [] = starts_with part []
contains part (c ∷ cs) = starts_with part (c ∷ cs) || contains part cs

-- `.`, `-`, a small letter or a digit.
unfoldable pub is_name_char : ℕ → Bool
is_name_char c = (c == 46) || (c == 45) || (leb 97 c && leb c 122) || (leb 48 c && leb c 57)

unfoldable pub all_name_chars : Chars → Bool
unfolding is_name_char
all_name_chars [] = true
all_name_chars (c ∷ cs) = is_name_char c && all_name_chars cs

-- `is_ip` is whether the text parses as an IP address. The length is that of the text in bytes,
-- `byte_len`.
unfoldable pub is_valid_bucket_name : (Chars → Bool) → (Chars → ℕ) → Chars → Bool
unfolding ends_with contains all_name_chars starts_with
is_valid_bucket_name is_ip byte_len n =
    leb 3 (byte_len n)
    && leb (byte_len n) 63
    && all_name_chars n
    && not (starts_with (codes "-") n || starts_with (codes ".") n)
    && not (ends_with (codes "-") n || ends_with (codes ".") n)
    && not (is_ip n)
    && not (starts_with (codes "xn--") n)
    && not (contains (codes ".xn--") n)
    && not (ends_with (codes "-s3alias") n)
