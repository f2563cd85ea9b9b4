-- ===== src/Fbs/Slots.antt =====
-- Every field of a generated table stands where its vtable slot says.
use ob_dump.Base.{
  ℕ, zero, suc, ◌+◌, ◌*◌, ◌<◌, ◌≡◌, ◌⊎◌, refl, ap, ◌∙◌, sym, List, [], ◌∷◌, ◌++◌, if◌then◌else◌,
  Option, none, some, Option-cases, Bytes, get_elem?, arith, inl, inr, Bool-cases,
}
use ob_dump.Base.Int.{
  ℤ, pos, negsuc, pos_part, ◌≤ℤ◌, eqb_ℤ, eqb_ℤ_iff, ltb_ℤ, ltb_ℤ→lt, ltb_ℤ-false, ◌+ℤ◌, ◌-ℤ◌, ◌*ℤ◌,
}
use ob_dump.Schema.{PropertyDef}
use ob_dump.Decode.{slot_for}
use ob_dump.Fbs.{by_id, max_id, write_id, write_field, write_reserved_placeholder, write_fields}

abbrev pub field_or : Option PropertyDef → ℕ → Bytes
field_or none id = write_reserved_placeholder id
field_or (some p) id = write_field p

write_id-field_at :
    (ps : List PropertyDef) (id : ℕ) → write_id ps id ≡ field_or (by_id ps (pos id)) id
unfolding write_id
write_id-field_at ps id = by_case (by_id ps (pos id))
  where
    by_case :
        (o : Option PropertyDef)
        → ◌≡◌ {A = Bytes}
            (elim o [ none ↦ write_reserved_placeholder id | some prop ↦ write_field prop ])
            (field_or o id)
    by_case none = refl
    by_case (some p) = refl

-- The text of the field of an id: the property's, or the placeholder of a retired one.
abbrev pub field_at : List PropertyDef → ℕ → Bytes
field_at ps id = field_or (by_id ps (pos id)) id

-- The fields' texts, one for each id from `id` on.
pub field_list : List PropertyDef → ℕ → ℕ → List Bytes
field_list ps zero id = []
field_list ps (suc rounds) id = field_at ps id ∷ field_list ps rounds (id + 1)

pub concat : List Bytes → Bytes
concat [] = []
concat (s ∷ ss) = s ++ concat ss

write_fields-concat :
    (ps : List PropertyDef) (rounds id : ℕ)
    → write_fields ps rounds id ≡ concat (field_list ps rounds id)
unfolding write_fields concat field_list
write_fields-concat ps zero id = refl
write_fields-concat ps (suc rounds) id =
    ap (λ (s : Bytes). write_id ps id ++ s) (write_fields-concat ps rounds (id + 1))
    ∙ ap (λ (s : Bytes). s ++ concat (field_list ps rounds (id + 1))) (write_id-field_at ps id)

get_elem?-field_list :
    (ps : List PropertyDef) (rounds id k : ℕ)
    → k < rounds
    → get_elem? (field_list ps rounds id) k ≡ some (field_at ps (id + k))
unfolding field_list
get_elem?-field_list ps zero id k h = absurd (omega arith)
get_elem?-field_list ps (suc rounds) id zero h = ap (λ (n : ℕ). some (field_at ps n)) (omega arith)
get_elem?-field_list ps (suc rounds) id (suc k) h =
    get_elem?-field_list ps rounds (id + 1) k (omega arith)
    ∙ ap (λ (n : ℕ). some (field_at ps n)) (omega arith)

max_id-ge : (ps : List PropertyDef) (m : ℤ) → m ≤ℤ max_id ps m
unfolding max_id
max_id-ge [] m = omega arith
max_id-ge (p ∷ ps) m = elim (Bool-cases (ltb_ℤ m p.id)) [
  | inl less ↦ rw less (omega (arith, ltb_ℤ→lt m p.id less, max_id-ge ps p.id))
  | inr other ↦ rw other (max_id-ge ps m)
]

max_id-ge_head : (p : PropertyDef) (ps : List PropertyDef) (m : ℤ) → p.id ≤ℤ max_id (p ∷ ps) m
unfolding max_id
max_id-ge_head p ps m = elim (Bool-cases (ltb_ℤ m p.id)) [
  | inl less ↦ rw less (max_id-ge ps p.id)
  | inr other ↦ rw other (omega (arith, ltb_ℤ-false m p.id other, max_id-ge ps m))
]

some-inj : {A : Type 0} {a b : A} → some a ≡ some b → a ≡ b
some-inj h = cc

none-ne-some : {A : Type 0} {a : A} → ¬ (none ≡ some a)
none-ne-some h = cc

by_id-nil : (id : ℤ) {p : PropertyDef} → ¬ (by_id [] id ≡ some p)
unfolding by_id
by_id-nil id h = cc

by_id-cons :
    (q : PropertyDef) (ps : List PropertyDef) (id : ℤ) (p : PropertyDef)
    → by_id (q ∷ ps) id ≡ some p
    → (by_id ps id ≡ some p) ⊎ ((q ≡ p) × (q.id ≡ id))
unfolding by_id
by_id-cons q ps id p h = elim (Option-cases (by_id ps id)) [
  | inl e ↦ elim (Bool-cases (eqb_ℤ q.id id)) [
    | inl same ↦ inr (some-inj (rw (e, same) at h), (eqb_ℤ_iff q.id id).0 same)
    | inr other ↦ absurd (none-ne-some (rw (e, other) at h))
  ]
  | inr (r, e) ↦ inl (rw e (rw e at h))
]

by_id-found :
    (ps : List PropertyDef) (id m : ℤ) (p : PropertyDef)
    → by_id ps id ≡ some p
    → (p.id ≡ id) × (id ≤ℤ max_id ps m)
unfolding max_id
by_id-found [] id m p h = absurd (by_id-nil id h)
by_id-found (q ∷ ps) id m p h = elim (by_id-cons q ps id p h) [
  | inl later ↦ by_id-found ps id (if ltb_ℤ m q.id then q.id else m) p later
  | inr (e, here) ↦
      (ap (λ (x : PropertyDef). x.id) (sym e) ∙ here, rw (← here) (max_id-ge_head q ps m))
]

slot_for-suc : (k : ℕ) → k < 32766 → slot_for (pos (suc k)) ≡ 4 + 2 * k
unfolding slot_for ◌+ℤ◌ ◌-ℤ◌ ◌*ℤ◌
slot_for-suc k h = ground arith

-- The rounds of the loop over ids.
abbrev pub rounds_of : List PropertyDef → ℕ
rounds_of ps = pos_part (max_id ps (pos 0))

below : {k : ℕ} (m : ℤ) → pos (suc k) ≤ℤ m → k < pos_part m
below (pos n) h = omega arith
below (negsuc n) h = omega arith

-- Of a property that is the last of its id, with an id from 1 up to 32766, the field's text is the
-- one at the place in the table that gives it the vtable slot that the decoder reads the property at.
pub write_fields-slot :
    (ps : List PropertyDef) (k : ℕ) (p : PropertyDef)
    → by_id ps (pos (suc k)) ≡ some p
    → k < 32766
    → (get_elem? (field_list ps (rounds_of ps) 1) k ≡ some (write_field p))
      × (write_fields ps (rounds_of ps) 1 ≡ concat (field_list ps (rounds_of ps) 1))
      × (slot_for p.id ≡ 4 + 2 * k)
write_fields-slot ps k p h small =
    let (e, le) = by_id-found ps (pos (suc k)) (pos 0) p h in
    (
      get_elem?-field_list ps (rounds_of ps) 1 k (below (max_id ps (pos 0)) le)
          ∙ ap some (
              ap (field_at ps) (omega arith)
              ∙ ap (λ (o : Option PropertyDef). field_or o (suc k)) h),
      write_fields-concat ps (rounds_of ps) 1,
      ap slot_for e ∙ slot_for-suc k small,
    )

-- An id from 1 up to the largest of the properties that no property has keeps its place among the
-- fields, with a placeholder.
pub write_fields-gap :
    (ps : List PropertyDef) (k : ℕ)
    → by_id ps (pos (suc k)) ≡ none
    → k < rounds_of ps
    → (get_elem? (field_list ps (rounds_of ps) 1) k ≡ some (write_reserved_placeholder (suc k)))
      × (write_fields ps (rounds_of ps) 1 ≡ concat (field_list ps (rounds_of ps) 1))
write_fields-gap ps k h small = (
  get_elem?-field_list ps (rounds_of ps) 1 k small
      ∙ ap some
          (ap (field_at ps) (omega arith) ∙ ap (λ (o : Option PropertyDef). field_or o (suc k)) h),
  write_fields-concat ps (rounds_of ps) 1,
)
