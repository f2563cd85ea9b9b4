-- ===== src/Schema/Ids/Accepts.antt =====
-- What `parse_leading_id` accepts, refuses and ignores.
use ob_dump.Base.{
  ℕ, ◌+◌, ◌-◌, ◌*◌, ◌≤◌, ◌<◌, codes, ◌≡◌, ◌≢◌, refl, [], ◌∷◌, ◌++◌, none, some, arith, Bytes, All,
  IsDigit, value, decimal, decimal-IsDigit, value-decimal, decimal-cons,
}
use ob_dump.Base.Int.{pos, int_max}
use ob_dump.Base.Exec.{ok, err, std_exception}
use ob_dump.Schema.Ids.{
  before, is_digit, read_digits, stoi, malformed, no_conversion, parse_leading_id,
}

before-digits : (s t : Bytes) → All IsDigit s → before b':' (s ++ b':' ∷ t) ≡ some s
unfolding before
before-digits [] t h = refl
before-digits (c ∷ s) t h = ground (arith, before-digits s t h.1)

read_digits-value : (s : Bytes) (n : ℕ) → All IsDigit s → read_digits n s ≡ value n s
unfolding read_digits is_digit
read_digits-value [] n h = refl
read_digits-value (c ∷ s) n h = ground (arith, read_digits-value s (n * 10 + (c - b'0')) h.1)

stoi-digits :
    (c : ℕ) (s : Bytes)
    → All IsDigit (c ∷ s)
    → value 0 (c ∷ s) ≤ int_max
    → stoi (c ∷ s) ≡ ok (pos (value 0 (c ∷ s)))
unfolding stoi
stoi-digits c s h fits = ground (arith, read_digits-value (c ∷ s) 0 h)

stoi-decimal : (n : ℕ) → n ≤ int_max → stoi (decimal n) ≡ ok (pos n)
stoi-decimal n fits =
    let (c, s, e) = decimal-cons n in
    let v : value 0 (c ∷ s) ≡ n = rw (← e) (value-decimal n) in
    rw e (rw (stoi-digits c s (rw e at (decimal-IsDigit n)) (rw v fits)) (cc v))

-- An id that fits an `int`, in decimal digits in front of a colon, is read back as it was printed,
-- whatever the uid behind the colon is.
pub parse_leading_id-decimal :
    (n : ℕ) (uid : Bytes) → n ≤ int_max → parse_leading_id (decimal n ++ b':' ∷ uid) ≡ ok (pos n)
unfolding parse_leading_id
parse_leading_id-decimal n uid fits =
    rw (parse_leading_id, before-digits (decimal n) uid (decimal-IsDigit n)) (stoi-decimal n fits)

stoi-digits_large :
    (c : ℕ) (s : Bytes)
    → All IsDigit (c ∷ s)
    → int_max < value 0 (c ∷ s)
    → stoi (c ∷ s) ≡ no_conversion
unfolding stoi
stoi-digits_large c s h large = ground (arith, read_digits-value (c ∷ s) 0 h)

stoi-decimal_large : (n : ℕ) → int_max < n → stoi (decimal n) ≡ no_conversion
stoi-decimal_large n large =
    let (c, s, e) = decimal-cons n in
    let v : value 0 (c ∷ s) ≡ n = rw (← e) (value-decimal n) in
    rw e (stoi-digits_large c s (rw e at (decimal-IsDigit n)) (rw v large))

-- A number that is too large for an `int`, in decimal digits in front of a colon, is refused with
-- what std::stoi throws: nothing wraps around.
pub parse_leading_id-large :
    (n : ℕ) (uid : Bytes)
    → int_max < n
    → parse_leading_id (decimal n ++ b':' ∷ uid) ≡ err (std_exception (codes "stoi"))
unfolding parse_leading_id
parse_leading_id-large n uid large =
    rw (parse_leading_id, before-digits (decimal n) uid (decimal-IsDigit n))
      (stoi-decimal_large n large)

before-lacks : (s : Bytes) → All (λ c. c ≢ b':') s → before b':' s ≡ none
unfolding before
before-lacks [] h = refl
before-lacks (c ∷ s) h = ground (arith, before-lacks s h.1)

-- A text with no colon is refused with the message that quotes it.
pub parse_leading_id-malformed :
    (s : Bytes) → All (λ c. c ≢ b':') s → parse_leading_id s ≡ err (std_exception (malformed ++ s))
unfolding parse_leading_id
parse_leading_id-malformed s h = rw (before-lacks s h, parse_leading_id)
