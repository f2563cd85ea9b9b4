-- ===== src/Dump/Groups.antt =====
-- The object that `dumpToJson` builds: one array for each entity name, in the order of the records.
use ob_dump.Base.{
  List, [], ◌∷◌, ◌++◌, true, false, Bytes, ◌≡◌, sym, ap, ◌∙◌, append_assoc, append-nil, eqb,
  eqb_iff, Bool-cases, inl, inr, if◌then◌else◌,
}
use mathlib.Core.Bool.{false≢true}
use ob_dump.Json.{JsonLib, ArrayLaws, ObjectLaws}
use ob_dump.Dump.{append_record}

module _ {F : Type 0} (J : JsonLib F) where
  open J use {Value}

  -- The records under their names, one after the other.
  unfoldable pub append_all : Value → List (Bytes × Value) → Value
  append_all result [] = result
  append_all result ((name, obj) ∷ rest) = append_all (append_record J result name obj) rest

module _ {F : Type 0} (J : JsonLib F) (a : ArrayLaws J) (o : ObjectLaws J) where
  open J use {Value}

  -- The records of one name.
  unfoldable pub named : Bytes → List (Bytes × Value) → List Value
  named key [] = []
  named key ((name, obj) ∷ rest) = if eqb name key then obj ∷ named key rest else named key rest

  -- No record is null, and no key in the object; otherwise the array of the records.
  abbrev pub Holds : Value → List Value → Type 0
  Holds v [] = v ≡ J.null
  Holds v (x ∷ xs) = (J.is_array v ≡ true) × (J.items v ≡ x ∷ xs)

  fresh_or_same :
      (v : Value) (xs : List Value)
      → Holds v xs
      → (J.is_array (if J.is_array v then v else J.array) ≡ true)
        × (J.items (if J.is_array v then v else J.array) ≡ xs)
  fresh_or_same v [] h =
      let n : J.is_array v ≡ false = ap J.is_array h ∙ o.is_array-null in
      rw n (a.is_array-array, a.items-array)
  fresh_or_same v (x ∷ xs) h = rw h.0 (h.0, h.1)

  Holds-snoc :
      (u : Value) (xs : List Value) (obj : Value)
      → J.is_array u ≡ true
      → J.items u ≡ xs ++ obj ∷ []
      → Holds u (xs ++ obj ∷ [])
  Holds-snoc u [] obj h k = (h, k)
  Holds-snoc u (x ∷ xs) obj h k = (h, k)

  Holds-push_back :
      (v : Value) (xs : List Value) (obj : Value)
      → Holds v xs
      → Holds (J.push_back (if J.is_array v then v else J.array) obj) (xs ++ obj ∷ [])
  Holds-push_back v xs obj h =
      let w = if J.is_array v then v else J.array in
      let (arr, its) = fresh_or_same v xs h in
      Holds-snoc (J.push_back w obj) xs obj (a.is_array-push_back w obj arr)
        (a.items-push_back w obj arr ∙ ap (λ (l : List Value). l ++ obj ∷ []) its)

  Holds-append_self :
      (result : Value) (name : Bytes) (obj : Value) (xs : List Value)
      → Holds (J.index result name) xs
      → Holds (J.index (append_record J result name obj) name) (xs ++ obj ∷ [])
  unfolding append_record
  Holds-append_self result name obj xs h =
      rw (o.index-set_self result name _) (Holds-push_back (J.index result name) xs obj h)

  Holds-append_record :
      (result : Value) (name key : Bytes) (obj : Value) (xs : List Value)
      → Holds (J.index result key) xs
      → Holds
          (J.index (append_record J result name obj) key)
          (if eqb name key then xs ++ obj ∷ [] else xs)
  unfolding append_record
  Holds-append_record result name key obj xs h = elim (Bool-cases (eqb name key)) [
    | inl same ↦
        (let e = (eqb_iff name key).0 same in
          rw same (rw (← e) (Holds-append_self result name obj xs (rw (← e) at h))))
    | inr other ↦
        rw other (
          rw (o.index-set_ne _ name key _ (λ e. false≢true (sym other ∙ (eqb_iff name key).1 e))) h)
  ]

  Holds-append_all :
      (result : Value) (key : Bytes) (pairs : List (Bytes × Value)) (xs : List Value)
      → Holds (J.index result key) xs
      → Holds (J.index (append_all J result pairs) key) (xs ++ named key pairs)
  unfolding append_all named
  Holds-append_all result key [] xs h = rw append-nil h
  Holds-append_all result key ((name, obj) ∷ rest) xs h =
      let ih =
        Holds-append_all (append_record J result name obj) key rest _
          (Holds-append_record result name key obj xs h) in
      elim (Bool-cases (eqb name key)) [
        | inl same ↦ rw same (rw (same, append_assoc) at ih)
        | inr other ↦ rw other (rw other at ih)
      ]

  -- Over a JSON library with the laws of arrays and objects: whatever the records are, none of
  -- them included, the object that they are put into one after the other has under each entity's
  -- name the array of that entity's records in their order, and null under a name that no record
  -- has.
  pub append_all-groups :
      (pairs : List (Bytes × Value)) (key : Bytes)
      → Holds (J.index (append_all J J.object pairs) key) (named key pairs)
  append_all-groups pairs key = Holds-append_all J.object key pairs [] (o.index-object key)
