-- ===== src/Lmdb/Lex.antt =====
-- The order of LMDB's keys: byte for byte, a proper prefix first.
use ob_dump.Base.{
  ◌≡◌, refl, Bool, true, false, ◌&&◌, ◌||◌, [], ◌∷◌, ◌++◌, arith, Bytes, ltb, ◌==◌, length,
}

abbrev pub lex_ltb : Bytes → Bytes → Bool
lex_ltb s [] = false
lex_ltb [] (b ∷ t) = true
lex_ltb (a ∷ s) (b ∷ t) = ltb a b || (a == b && lex_ltb s t)

pub lex_trans : (a b c : Bytes) → lex_ltb a b ≡ true → lex_ltb b c ≡ true → lex_ltb a c ≡ true
lex_trans a b [] h k = cc
lex_trans a [] (z ∷ c) h k = cc
lex_trans [] (y ∷ b) (z ∷ c) h k = refl
lex_trans (x ∷ a) (y ∷ b) (z ∷ c) h k = ground (arith, lex_trans a b c)

-- Between two texts that begin with `p` there are only such texts.
pub prefix_between :
    (p z k t : Bytes)
    → lex_ltb k (p ++ z) ≡ false
    → lex_ltb k (p ++ t) ≡ true
    → (r : Bytes) × (k ≡ p ++ r)
prefix_between [] z k t h l = (k, refl)
prefix_between (a ∷ p) z [] t h l = cc
prefix_between (a ∷ p) z (b ∷ k) t h l =
    let (r, e) = prefix_between p z k t (ground arith) (ground arith) in (r, ground (arith, e))

-- Nothing of the same length is before the text of zeros.
pub zeros_first : (p t : Bytes) → length t ≡ 4 → lex_ltb (p ++ t) (p ++ 0 ∷ 0 ∷ 0 ∷ 0 ∷ []) ≡ false
zeros_first [] (a ∷ b ∷ c ∷ d ∷ []) h = ground arith
zeros_first [] t h = absurd (omega arith)
zeros_first (x ∷ p) t h = ground (arith, zeros_first p t h)
