-- ===== src/Decode/Object/Contents.antt =====
-- What a decoded record holds under the name of each property.
use ob_dump.Base.{
  ◌==◌, ◌≡◌, ◌≢◌, sym, ap, ◌∙◌, refl, List, [], ◌∷◌, Bool, true, false, not, Option, none, some,
  Bytes, All,
}
use ob_dump.Base.Exec.{ok-inj, Result, ok, ◌>>◌, >>=-eq-ok}
use ob_dump.Json.{JsonLib, ObjectLaws}
use ob_dump.Schema.{PropertyDef, EntityDef}
use ob_dump.Decode.{FlatLib, FlexLib, slot_for}
use ob_dump.Decode.Fields.{require}
use ob_dump.Decode.Object.{decode_property, decode_properties, decode_object}
use ob_dump.Decode.Object.Wire.{wire_of, read, put}
use ob_dump.Decode.Object.Follows.{decode_property-read}

behind_require :
    {A : Type 0} (test : Bool) (message : Bytes) (r : Result A) {x : A}
    → (require test message >> r) ≡ ok x
    → r ≡ ok x
behind_require true message r h = h
behind_require false message r h = cc

module _ {F : Type 0} (J : JsonLib F) (B : FlatLib F) (X : FlexLib F) where
  open J use {Value}
  open B use {Table, Verifier}

  module _ (t : Table) (v : Verifier) where
    -- What is read of a property.
    abbrev pub read_of : PropertyDef → Result (Option Value)
    read_of p = read J B X (wire_of p) t v (slot_for p.id) p.name

    abbrev pub Others : PropertyDef → List PropertyDef → Type 0
    Others p = All (λ (q : PropertyDef). p.name ≢ q.name)

    -- No name occurs twice.
    abbrev pub Distinct : List PropertyDef → Type 0
    Distinct [] = Unit {0}
    Distinct (p ∷ ps) = Others p ps × Distinct ps

    abbrev pub or_null : Option Value → Value
    or_null none = J.null
    or_null (some x) = x

    -- Under the property's name stands what is read of it, or nothing if nothing is.
    abbrev pub Contents : Value → PropertyDef → Type 0
    Contents out p = (o : Option Value) × (read_of p ≡ ok o) × (J.index out p.name ≡ or_null o)

    abbrev Fresh : Value → List PropertyDef → Type 0
    Fresh out = All (λ (q : PropertyDef). J.index out q.name ≡ J.null)

    module _ (laws : ObjectLaws J) where
      index-put :
          (out : Value) (name : Bytes) (o : Option Value)
          → J.index out name ≡ J.null
          → J.index (put J B X out name o) name ≡ or_null o
      index-put out name none free = free
      index-put out name (some x) free = laws.index-set_self out name x

      index-put_ne :
          (out : Value) (name key : Bytes) (o : Option Value)
          → name ≢ key
          → J.index (put J B X out name o) key ≡ J.index out key
      index-put_ne out name key none ne = refl
      index-put_ne out name key (some x) ne = laws.index-set_ne out name key x ne

      read_one :
          (p : PropertyDef) (out out' : Value)
          → decode_property J B X t v p out ≡ ok out'
          → (o : Option Value) × (read_of p ≡ ok o) × (put J B X out p.name o ≡ out')
      read_one p out out' h =
          let (o, e, k) =
            >>=-eq-ok (read_of p) _ (sym (decode_property-read J B X t v p out) ∙ h) in
          (o, e, ok-inj k)

      Fresh-put :
          (out : Value) (p : PropertyDef) (o : Option Value) (ps : List PropertyDef)
          → Others p ps
          → Fresh out ps
          → Fresh (put J B X out p.name o) ps
      Fresh-put out p o [] others fresh = tt
      Fresh-put out p o (q ∷ ps) (ne, others) (free, fresh) =
          (index-put_ne out p.name q.name o ne ∙ free, Fresh-put out p o ps others fresh)

      -- What follows leaves the values under other names.
      kept :
          (ps : List PropertyDef) (p : PropertyDef) (out out' : Value)
          → Others p ps
          → decode_properties J B X t v ps out ≡ ok out'
          → J.index out' p.name ≡ J.index out p.name
      unfolding decode_properties
      kept [] p out out' others h = ap (λ (x : Value). J.index x p.name) (sym (ok-inj h))
      kept (q ∷ ps) p out out' (ne, others) h =
          let (next, e, k) = >>=-eq-ok (decode_property J B X t v q out) _ h in
          let (o, r, same) = read_one q out next e in
          kept ps p next out' others k
          ∙ ap (λ (x : Value). J.index x p.name) (sym same)
          ∙ index-put_ne out q.name p.name o (λ n. ne (sym n))

      properties-Contents :
          (ps : List PropertyDef) (out out' : Value)
          → Distinct ps
          → Fresh out ps
          → decode_properties J B X t v ps out ≡ ok out'
          → All (Contents out') ps
      unfolding decode_properties
      properties-Contents [] out out' d f h = tt
      properties-Contents (p ∷ ps) out out' (others, d) (free, fresh) h =
          let (next, e, k) = >>=-eq-ok (decode_property J B X t v p out) _ h in
          let (o, r, same) = read_one p out next e in
          (
            (
              o,
              r,
              kept ps p next out' others k
                  ∙ ap (λ (x : Value). J.index x p.name) (sym same)
                  ∙ index-put out p.name o free,
            ),
            properties-Contents ps next out' d (rw same at (Fresh-put out p o ps others fresh)) k,
          )

      Fresh-object : (ps : List PropertyDef) → Fresh J.object ps
      Fresh-object [] = tt
      Fresh-object (p ∷ ps) = (laws.index-object p.name, Fresh-object ps)

  -- Over a JSON library whose objects hold what was assigned last: a record that is decoded, of an
  -- entity whose properties have different names, holds under the name of every property what the
  -- tables read of it from the record's bytes, and null where they read nothing.
  pub decode_object-Contents :
      (laws : ObjectLaws J) (bytes : Bytes) (entity : EntityDef) (out : Value)
      → Distinct (B.get_root bytes) (B.verifier bytes) entity.properties
      → decode_object J B X bytes entity ≡ ok out
      → All (Contents (B.get_root bytes) (B.verifier bytes) out) entity.properties
  unfolding decode_object
  decode_object-Contents laws bytes entity out distinct h =
      let t = B.get_root bytes in
      let v = B.verifier bytes in
      let fields = decode_properties J B X t v entity.properties J.object in
      let sound =
        behind_require (B.verify_table_start t v) _ fields
          (behind_require (not (B.verify_root_offset v == 0)) _ _ h) in
      properties-Contents t v laws entity.properties J.object out distinct
        (Fresh-object t v laws entity.properties) sound
