-- ===== src/Lmdb/Keys.antt =====
-- The keys of a store: the big-endian numbers in them, and the constants of lmdb_reader.cpp.
use ob_dump.Base.{ℕ, ◌+◌, ◌*◌, ◌/◌, ◌%◌, ◌^◌, ◌<◌, ◌≡◌, [], ◌∷◌, arith, Bytes, get_or}

abbrev pub key_type_data : ℕ
key_type_data = 0x18

abbrev pub key_type_relation : ℕ
key_type_relation = 0x08

abbrev pub relation_direction_forward : ℕ
relation_direction_forward = 0

-- The four bytes at `p`; `|` of numbers that share no bit is `+`.
unfoldable pub read_uint32_be : Bytes → ℕ
read_uint32_be p =
    get_or p 0 0 * 2 ^ 24 + get_or p 1 0 * 2 ^ 16 + get_or p 2 0 * 2 ^ 8 + get_or p 3 0

-- A cast to uint8_t keeps the low byte.
unfoldable pub write_uint32_be : ℕ → Bytes
write_uint32_be v = (v / 2 ^ 24 % 256) ∷ (v / 2 ^ 16 % 256) ∷ (v / 2 ^ 8 % 256) ∷ (v % 256) ∷ []

-- Every number below 2^32 is read back from the four bytes that it is written as.
pub read_uint32_be-write_uint32_be : (v : ℕ) → v < 2 ^ 32 → read_uint32_be (write_uint32_be v) ≡ v
unfolding read_uint32_be write_uint32_be
read_uint32_be-write_uint32_be v h = omega arith

-- Four bytes are written back as they were read.
pub write_uint32_be-read_uint32_be :
    (a b c d : ℕ)
    → a < 256
    → b < 256
    → c < 256
    → d < 256
    → write_uint32_be (read_uint32_be (a ∷ b ∷ c ∷ d ∷ [])) ≡ a ∷ b ∷ c ∷ d ∷ []
unfolding read_uint32_be write_uint32_be
write_uint32_be-read_uint32_be a b c d ha hb hc hd = ground arith
