-- ===== src/Decode/Hex.antt =====
-- `toHex` and `hexAsUuid` of fb_decode.cpp.
use ob_dump.Base.{
  ℕ, zero, suc, ◌+◌, ◌-◌, ◌*◌, ◌/◌, ◌%◌, ◌<◌, ◌≡◌, refl, ap, true, false, [], ◌∷◌, ◌++◌,
  append_assoc, append-nil, arith, Bytes, codes, length, get_or, take, drop, ◌==◌, ltb, ==_iff,
  upto, upto_sound, Bool-cases, inl, inr, if◌then◌else◌, All,
}

abbrev hex_digits : Bytes
hex_digits = codes "0123456789abcdef"

-- `data[i] >> 4` and `data[i] & 0x0F`.
abbrev hex_of : ℕ → Bytes
hex_of b = get_or hex_digits (b / 16) 0 ∷ get_or hex_digits (b % 16) 0 ∷ []

hex_loop : Bytes → Bytes → Bytes
hex_loop [] hex = hex
hex_loop (b ∷ bytes) hex = hex_loop bytes (hex ++ hex_of b)

unfoldable pub to_hex : Bytes → Bytes
unfolding hex_loop
to_hex bytes = hex_loop bytes []

abbrev pub substr : Bytes → ℕ → ℕ → Bytes
substr s from count = take count (drop from s)

unfoldable pub hex_as_uuid : Bytes → Bytes
hex_as_uuid hex =
    if length hex == 32
    then substr hex 0 8
      ++ b'-' ∷ substr hex 8 4
      ++ b'-' ∷ substr hex 12 4
      ++ b'-' ∷ substr hex 16 4
      ++ b'-' ∷ substr hex 20 12
    else hex

-- The value of a hex digit, and the bytes that hex digits spell.
nibble : ℕ → ℕ
nibble c = if ltb c b'a' then c - b'0' else c - b'a' + 10

pub from_hex : Bytes → Bytes
from_hex (a ∷ b ∷ rest) = (nibble a * 16 + nibble b) ∷ from_hex rest
from_hex _ = []

abbrev IsByte : ℕ → Type 0
IsByte b = b < 256

digit_table : upto (λ n. nibble (get_or hex_digits n 0) == n) 16 ≡ true
unfolding upto nibble
digit_table = refl

nibble-digit : (n : ℕ) → n < 16 → nibble (get_or hex_digits n 0) ≡ n
nibble-digit n h =
    (==_iff (nibble (get_or hex_digits n 0)) n).0
      (upto_sound (λ n. nibble (get_or hex_digits n 0) == n) 16 digit_table n h)

flat_hex : Bytes → Bytes
flat_hex [] = []
flat_hex (b ∷ bytes) = hex_of b ++ flat_hex bytes

hex_loop-flat_hex : (bytes hex : Bytes) → hex_loop bytes hex ≡ hex ++ flat_hex bytes
unfolding hex_loop flat_hex
hex_loop-flat_hex [] hex = rw append-nil
hex_loop-flat_hex (b ∷ bytes) hex = rw (hex_loop-flat_hex bytes (hex ++ hex_of b), append_assoc)

to_hex-flat_hex : (bytes : Bytes) → to_hex bytes ≡ flat_hex bytes
unfolding to_hex
to_hex-flat_hex bytes = hex_loop-flat_hex bytes []

from_hex-flat_hex : (bytes : Bytes) → All IsByte bytes → from_hex (flat_hex bytes) ≡ bytes
unfolding from_hex flat_hex
from_hex-flat_hex [] h = refl
from_hex-flat_hex (b ∷ bytes) (hb, h) = ground (
  arith,
  nibble-digit (b / 16) (omega arith),
  nibble-digit (b % 16) (omega arith),
  from_hex-flat_hex bytes h,
)

-- The hex text of a blob spells its bytes: read back, two digits a byte, it gives them again.
pub from_hex-to_hex : (bytes : Bytes) → All IsByte bytes → from_hex (to_hex bytes) ≡ bytes
from_hex-to_hex bytes h = rw to_hex-flat_hex (from_hex-flat_hex bytes h)

length-flat_hex : (bytes : Bytes) → length (flat_hex bytes) ≡ 2 * length bytes
unfolding flat_hex
length-flat_hex [] = refl
length-flat_hex (b ∷ bytes) = omega (arith, length-flat_hex bytes)

length-to_hex : (bytes : Bytes) → length (to_hex bytes) ≡ 2 * length bytes
length-to_hex bytes = rw to_hex-flat_hex (length-flat_hex bytes)

abbrev double : ℕ → ℕ
double zero = 0
double (suc n) = suc (suc (double n))

drop-flat_hex : (n : ℕ) (bytes : Bytes) → drop (double n) (flat_hex bytes) ≡ flat_hex (drop n bytes)
unfolding flat_hex
drop-flat_hex zero bytes = refl
drop-flat_hex (suc n) [] = refl
drop-flat_hex (suc n) (b ∷ bytes) = drop-flat_hex n bytes

take-flat_hex : (n : ℕ) (bytes : Bytes) → take (double n) (flat_hex bytes) ≡ flat_hex (take n bytes)
unfolding flat_hex
take-flat_hex zero bytes = refl
take-flat_hex (suc n) [] = refl
take-flat_hex (suc n) (b ∷ bytes) = ap (λ (s : Bytes). hex_of b ++ s) (take-flat_hex n bytes)

-- The digits of some of the bytes.
substr-to_hex :
    (from count : ℕ) (bytes : Bytes)
    → substr (to_hex bytes) (double from) (double count) ≡ to_hex (take count (drop from bytes))
substr-to_hex from count bytes =
    rw
      (
        to_hex-flat_hex bytes,
        drop-flat_hex from bytes,
        to_hex-flat_hex (take count (drop from bytes)),
      )
      (take-flat_hex count (drop from bytes))

-- The text of a UUID: the digits of four bytes, of three times two and of six, with dashes between.
unfoldable pub uuid_text : Bytes → Bytes
uuid_text bytes =
    to_hex (take 4 bytes)
    ++ b'-' ∷ to_hex (take 2 (drop 4 bytes))
    ++ b'-' ∷ to_hex (take 2 (drop 6 bytes))
    ++ b'-' ∷ to_hex (take 2 (drop 8 bytes))
    ++ b'-' ∷ to_hex (take 6 (drop 10 bytes))

hex_as_uuid-grouped :
    (bytes : Bytes) → length (to_hex bytes) ≡ 32 → hex_as_uuid (to_hex bytes) ≡ uuid_text bytes
unfolding hex_as_uuid uuid_text
hex_as_uuid-grouped bytes n = rw ((==_iff (length (to_hex bytes)) 32).1 n) (
    simp (
      substr-to_hex 0 4 bytes,
      substr-to_hex 4 2 bytes,
      substr-to_hex 6 2 bytes,
      substr-to_hex 8 2 bytes,
      substr-to_hex 10 6 bytes,
    ))

hex_as_uuid-other :
    (bytes : Bytes) → (length bytes == 16) ≡ false → hex_as_uuid (to_hex bytes) ≡ to_hex bytes
unfolding hex_as_uuid
hex_as_uuid-other bytes other =
    let n : length (to_hex bytes) ≡ 2 * length bytes = length-to_hex bytes in
    ground (arith, n, other)

-- The hex text of a blob of 16 bytes becomes the text of a UUID: the digits of its first four bytes,
-- of the next two, two, two and six, with dashes between. A blob of any other size is left as plain
-- hex.
pub hex_as_uuid-to_hex :
    (bytes : Bytes)
    → hex_as_uuid (to_hex bytes) ≡ (if length bytes == 16 then uuid_text bytes else to_hex bytes)
hex_as_uuid-to_hex bytes =
    let n : length (to_hex bytes) ≡ 2 * length bytes = length-to_hex bytes in
    elim (Bool-cases (length bytes == 16)) [
      | inl sixteen ↦
          rw sixteen
            (hex_as_uuid-grouped bytes (omega (arith, n, (==_iff (length bytes) 16).0 sixteen)))
      | inr other ↦ rw other (hex_as_uuid-other bytes other)
    ]
