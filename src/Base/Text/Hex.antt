-- ===== src/Base/Text/Hex.antt =====
-- Fixed-width lower-case hexadecimal (`{:08x}`), and `from_str_radix(_, 16)`.
use Prim.Native.Nat.{ℕ, zero, suc, ◌+◌, ◌-◌, ◌*◌, ◌/◌, ◌%◌, ◌^◌, ◌≤◌, ◌<◌}
use mathlib.Core.Path.{◌≡◌, refl, ◌∙◌}
use mathlib.Core.Logic.{◌≢◌}
use mathlib.Core.Bool.{◌&&◌}
use mathlib.Core.List.{List, [], ◌∷◌, ◌++◌}
use mathlib.Core.Option.{Option, none, some}
use native.Mathlib.Omega.{arith}
use native.Mathlib.Nat.{pow-suc}
use fractalbits.Base.Tests.{ltb, leb, ◌==◌, if◌then◌else◌}
use fractalbits.Base.Lists.{All, length, length-append, All-append}
use fractalbits.Base.Options.{◌>>=◌}

unfoldable pub hex_char : ℕ → ℕ
hex_char d = if ltb d 10 then d + 48 else d + 87

-- The value in `w` digits, highest first, for a value that fits.
unfoldable pub hex_fixed : ℕ → ℕ → List ℕ
unfolding hex_char
hex_fixed zero v = []
hex_fixed (suc w) v = hex_fixed w (v / 16) ++ (hex_char (v % 16) ∷ [])

-- `char::to_digit(16)`.
unfoldable pub hex_digit : ℕ → Option ℕ
hex_digit c =
    if leb 48 c && leb c 57
    then some (c - 48)
    else if leb 97 c && leb c 102
    then some (c - 87)
    else if leb 65 c && leb c 70
    then some (c - 55)
    else none

unfoldable pub hex_value : ℕ → List ℕ → Option ℕ
unfolding hex_digit
hex_value acc [] = some acc
hex_value acc (c ∷ cs) = hex_digit c >>= λ d. hex_value (acc * 16 + d) cs

-- A sign `+` may stand in front of the digits; an empty number and a lone sign are refused.
unfoldable pub radix_digits : List ℕ → Option (List ℕ)
radix_digits [] = none
radix_digits (c ∷ []) = if (c == b'+') then none else some (c ∷ [])
radix_digits (c ∷ d ∷ cs) = if c == b'+' then some (d ∷ cs) else some (c ∷ d ∷ cs)

-- `from_str_radix(s, 16)` of an unsigned word with that many values.
unfoldable pub from_hex : ℕ → List ℕ → Option ℕ
unfolding radix_digits hex_value
from_hex values s = do
  digits ← radix_digits s
  v ← hex_value 0 digits
  if ltb v values then some v else none

pub hex_digit-hex_char : (d : ℕ) → d < 16 → hex_digit (hex_char d) ≡ some d
unfolding hex_digit hex_char
hex_digit-hex_char d h = ground arith

pub hex_char_range : (d : ℕ) → d < 16 → (48 ≤ hex_char d) × (hex_char d ≤ 102)
unfolding hex_char
hex_char_range d h = ground arith

pub hex_char_mono : (a b : ℕ) → a < b → hex_char a < hex_char b
unfolding hex_char
hex_char_mono a b h = ground arith

hex_value-append :
    (acc : ℕ) (xs ys : List ℕ)
    → hex_value acc (xs ++ ys) ≡ (hex_value acc xs >>= λ a. hex_value a ys)
unfolding hex_value
hex_value-append acc [] ys = refl
hex_value-append acc (c ∷ cs) ys = go (hex_digit c) (λ d. hex_value-append (acc * 16 + d) cs ys)
  where
    go :
        (o : Option ℕ)
        → ((d : ℕ)
            → hex_value (acc * 16 + d) (cs ++ ys)
              ≡ (hex_value (acc * 16 + d) cs >>= λ a. hex_value a ys))
        → (o >>= λ d. hex_value (acc * 16 + d) (cs ++ ys))
          ≡ (o >>= (λ d. hex_value (acc * 16 + d) cs) >>= λ a. hex_value a ys)
    go none ih = refl
    go (some d) ih = ih d

hex_value-hex_fixed :
    (w v acc : ℕ) → v < 16 ^ w → hex_value acc (hex_fixed w v) ≡ some (acc * 16 ^ w + v)
unfolding hex_value hex_fixed
hex_value-hex_fixed zero v acc h = ground arith
hex_value-hex_fixed (suc w) v acc h =
    let small : v < 16 ^ w * 16 = rw pow-suc at h in
    hex_value-append acc (hex_fixed w (v / 16)) (hex_char (v % 16) ∷ [])
    ∙ rw
        (
          hex_value-hex_fixed w (v / 16) acc (omega arith),
          hex_digit-hex_char (v % 16) (omega arith),
          pow-suc,
        )
        (ground arith)

pub length-hex_fixed : (w v : ℕ) → length (hex_fixed w v) ≡ w
unfolding hex_fixed
length-hex_fixed zero v = refl
length-hex_fixed (suc w) v = omega (
  arith,
  length-hex_fixed w (v / 16),
  length-append (hex_fixed w (v / 16)) (hex_char (v % 16) ∷ []),
)

pub All-hex_fixed :
    (P : ℕ → Type 0) (w v : ℕ) → ((d : ℕ) → d < 16 → P (hex_char d)) → All P (hex_fixed w v)
unfolding hex_fixed
All-hex_fixed P zero v h = tt
All-hex_fixed P (suc w) v h =
    All-append P (hex_fixed w (v / 16)) (hex_char (v % 16) ∷ []) (All-hex_fixed P w (v / 16) h)
      (h (v % 16) (omega arith), tt)

hex_value-bound : (w v : ℕ) → v < 16 ^ w → hex_value 0 (hex_fixed w v) ≡ some v
hex_value-bound w v h = rw (hex_value-hex_fixed w v 0 h) (ground arith)

radix_digits-plain : (s : List ℕ) → 0 < length s → All (λ c. c ≢ b'+') s → radix_digits s ≡ some s
unfolding radix_digits
radix_digits-plain [] h k = absurd (omega arith)
radix_digits-plain (c ∷ []) h k = ground arith
radix_digits-plain (c ∷ d ∷ cs) h k = ground arith

-- What `{:0wx}` prints is read back.
pub from_hex-hex_fixed :
    (values w v : ℕ) → 0 < w → v < 16 ^ w → v < values → from_hex values (hex_fixed w v) ≡ some v
unfolding from_hex
from_hex-hex_fixed values w v pos h k =
    rw
      (
        radix_digits-plain (hex_fixed w v) (omega (arith, length-hex_fixed w v))
            (All-hex_fixed (λ c. c ≢ b'+') w v (λ d hd. omega (arith, hex_char_range d hd))),
        hex_value-bound w v h,
      )
      (ground arith)
