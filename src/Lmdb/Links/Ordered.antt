-- ===== src/Lmdb/Links/Ordered.antt =====
-- Walks over keys in their order, and the walk that starts at a key.
use ob_dump.Base.{◌≡◌, ◌∙◌, refl, sym, true, false, Bytes, if◌then◌else◌, Bool-cases, inl, inr}
use mathlib.Core.Bool.{false≢true}
use ob_dump.Lmdb.{Cursor, ended, entry}
use ob_dump.Lmdb.Lex.{lex_ltb, lex_trans}
use ob_dump.Lmdb.Walk.{last_code}

-- Every key of the walk satisfies `P`.
abbrev pub AllKeys : (Bytes → Type 0) → Cursor → Type 0
AllKeys P (ended rc) = Unit
AllKeys P (entry key value c) = P key × AllKeys P c

-- The keys ascend.
abbrev pub IsSorted : Cursor → Type 0
IsSorted (ended rc) = Unit
IsSorted (entry key value c) = AllKeys (λ k. lex_ltb key k ≡ true) c × IsSorted c

-- The walk from the first key that is not before `k`.
abbrev pub drop_below : Bytes → Cursor → Cursor
drop_below k (ended rc) = ended rc
drop_below k (entry key value c) =
    let rest = drop_below k c in if lex_ltb key k then rest else entry key value c

module _ (P : Bytes → Type 0) (k : Bytes) where
  pub AllKeys-drop_below : (c : Cursor) → AllKeys P c → AllKeys P (drop_below k c)
  AllKeys-drop_below (ended rc) h = tt
  AllKeys-drop_below (entry key v c) h = elim (Bool-cases (lex_ltb key k)) [
    | inl before ↦ rw before (AllKeys-drop_below c h.1)
    | inr behind ↦ rw behind h
  ]

module _ (k : Bytes) where
  pub IsSorted-drop_below : (c : Cursor) → IsSorted c → IsSorted (drop_below k c)
  IsSorted-drop_below (ended rc) h = tt
  IsSorted-drop_below (entry key v c) h = elim (Bool-cases (lex_ltb key k)) [
    | inl before ↦ rw before (IsSorted-drop_below c h.1)
    | inr behind ↦ rw behind h
  ]

  pub last_code-drop_below : (c : Cursor) → last_code (drop_below k c) ≡ last_code c
  last_code-drop_below (ended rc) = refl
  last_code-drop_below (entry key v c) = elim (Bool-cases (lex_ltb key k)) [
    | inl before ↦ rw before (last_code-drop_below c)
    | inr behind ↦ rw behind
  ]

  behind_not_before : (a b : Bytes) → lex_ltb a k ≡ false → lex_ltb a b ≡ true → lex_ltb b k ≡ false
  behind_not_before a b h l = elim (Bool-cases (lex_ltb b k)) [
    | inl before ↦ absurd (false≢true (sym h ∙ lex_trans a b k l before))
    | inr e ↦ e
  ]

  rest_not_before :
      (key : Bytes) (c : Cursor)
      → lex_ltb key k ≡ false
      → AllKeys (λ b. lex_ltb key b ≡ true) c
      → AllKeys (λ b. lex_ltb b k ≡ false) c
  rest_not_before key (ended rc) h s = tt
  rest_not_before key (entry b v c) h s =
      (behind_not_before key b h s.0, rest_not_before key c h s.1)

  pub drop_below-not_before :
      (c : Cursor) → IsSorted c → AllKeys (λ b. lex_ltb b k ≡ false) (drop_below k c)
  drop_below-not_before (ended rc) s = tt
  drop_below-not_before (entry key v c) s = elim (Bool-cases (lex_ltb key k)) [
    | inl before ↦ rw before (drop_below-not_before c s.1)
    | inr behind ↦ rw behind (behind, rest_not_before key c behind s.0)
  ]
