-- ===== src/Schema/Ids.antt =====
-- `parseLeadingId` of schema.cpp, with `std::stoi`, and what it makes of "id:uid".
pub mod Accepts
use ob_dump.Base.{
  ℕ, suc, ◌+◌, ◌-◌, ◌*◌, ◌≤◌, ◌≡◌, ◌≢◌, refl, Bool, true, false, ◌&&◌, ◌||◌, List, [], ◌∷◌, ◌++◌,
  Option, none, some, arith, Bytes, codes, ltb, leb, ◌==◌, if◌then◌else◌, All,
}
use ob_dump.Base.Int.{ℤ, pos, negsuc, int_max, IsInt}
use ob_dump.Base.Exec.{Result, ok, err, std_exception, runtime_error, ◌>>=◌}

-- str.substr(0, str.find(c)), or none if c does not occur.
before : ℕ → Bytes → Option Bytes
before c [] = none
before c (b ∷ s) =
    if b == c then some [] else (elim (before c s) [ none ↦ none | some p ↦ some (b ∷ p) ])

is_digit : ℕ → Bool
is_digit c = leb b'0' c && leb c b'9'

-- The isspace of the C locale.
is_space : ℕ → Bool
is_space c = c == 32 || leb 9 c && leb c 13

skip_spaces : Bytes → Bytes
skip_spaces [] = []
skip_spaces (c ∷ s) = if is_space c then skip_spaces s else c ∷ s

-- The value of the digits at the front, behind those that made `n`.
read_digits : ℕ → Bytes → ℕ
read_digits n [] = n
read_digits n (c ∷ s) =
    let more = read_digits (n * 10 + (c - b'0')) s in if is_digit c then more else n

starts_with_digit : Bytes → Bool
starts_with_digit [] = false
starts_with_digit (c ∷ s) = is_digit c

abbrev no_conversion : Result ℤ
no_conversion = err (std_exception (codes "stoi"))

positive : ℕ → Result ℤ
positive n = if leb n int_max then ok (pos n) else no_conversion

negative : ℕ → Result ℤ
negative n =
    if n == 0
    then ok (pos 0)
    else if leb n (int_max + 1)
    then ok (negsuc (n - 1))
    else no_conversion

signed : Bool → Bytes → Result ℤ
signed minus s =
    let n = read_digits 0 s in
    if starts_with_digit s then (if minus then negative n else positive n) else no_conversion

stoi_sign : Bytes → Result ℤ
stoi_sign [] = no_conversion
stoi_sign (c ∷ s) =
    if c == b'-' then signed true s else if c == b'+' then signed false s else signed false (c ∷ s)

-- std::stoi in base 10: white space, a sign, digits; the rest of the text is not looked at. No digit
-- is std::invalid_argument and a value that is no `int` std::out_of_range, both with what() "stoi".
unfoldable pub stoi : Bytes → Result ℤ
unfolding is_digit is_space skip_spaces read_digits starts_with_digit positive negative signed
    stoi_sign
stoi s = stoi_sign (skip_spaces s)

abbrev malformed : Bytes
malformed = codes "malformed id field (expected \"id:uid\"): "

unfoldable pub parse_leading_id : Bytes → Result ℤ
unfolding before stoi
parse_leading_id id_uid = elim (before b':' id_uid) [
  | none ↦ runtime_error (malformed ++ id_uid)
  | some prefix ↦ stoi prefix
]

parse_plain : parse_leading_id (codes "12:4711") ≡ ok (pos 12)
unfolding parse_leading_id
parse_plain = refl

parse_signed : parse_leading_id (codes " -5x:1") ≡ ok (negsuc 4)
unfolding parse_leading_id
parse_signed = refl

parse_too_large : parse_leading_id (codes "2147483648:1") ≡ err (std_exception (codes "stoi"))
unfolding parse_leading_id
parse_too_large = refl
