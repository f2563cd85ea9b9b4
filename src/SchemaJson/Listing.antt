-- ===== src/SchemaJson/Listing.antt =====
-- What the listing of a model says of each property and entity.
pub mod Whole
use mathlib.Core.Bool.{false≢true}
use ob_dump.Base.{
  eqb, eqb_iff, List, [], ◌∷◌, ◌++◌, map, append_assoc, append-nil, Bool, true, false, Option, none,
  some, Bytes, codes, if◌then◌else◌, ◌≡◌, ◌≢◌, refl, ap, sym, ◌∙◌,
}
use ob_dump.Base.Int.{pos}
use ob_dump.Json.{JsonLib, ArrayLaws, ObjectLaws}
use ob_dump.Schema.{PropertyDef, RelationDef, EntityDef, to_string, external_type_name}
use ob_dump.Base.Exec.{ok, >>=-eq-ok}
use ob_dump.Schema.Parse.{Schema, parse}
use ob_dump.Schema.Order.{all}
use ob_dump.Decode.{slot_for}
use ob_dump.SchemaJson.{
  number_value, with_external, property_json, properties_json, relation_json, relations_json,
  entity_json, entities_json, schema_to_json,
}

pub apart : (s t : Bytes) → eqb s t ≡ false → s ≢ t
apart s t f e = false≢true (sym f ∙ (eqb_iff s t).1 e)

module _ {F : Type 0} (J : JsonLib F) (o : ObjectLaws J) where
  open J use {Value}

  abbrev pub string_or_null : Option Bytes → Value
  string_or_null none = J.null
  string_or_null (some s) = J.string s

  abbrev with_unsigned : Bool → Value → Value
  with_unsigned is_unsigned p =
      if is_unsigned then J.set p (codes "unsigned") (J.boolean true) else p

  below_external :
      (ext : Option Bytes) (p : Value) (key : Bytes)
      → codes "externalType" ≢ key
      → J.index (with_external J ext p) key ≡ J.index p key
  unfolding with_external
  below_external none p key ne = refl
  below_external (some s) p key ne = o.index-set_ne p _ key _ ne

  below_unsigned :
      (b : Bool) (p : Value) (key : Bytes)
      → codes "unsigned" ≢ key
      → J.index (with_unsigned b p) key ≡ J.index p key
  below_unsigned true p key ne = o.index-set_ne p _ key _ ne
  below_unsigned false p key ne = refl

  at_external :
      (ext : Option Bytes) (p : Value)
      → J.index p (codes "externalType") ≡ J.null
      → J.index (with_external J ext p) (codes "externalType") ≡ string_or_null ext
  unfolding with_external
  at_external none p free = free
  at_external (some s) p free = o.index-set_self p _ _

  at_unsigned :
      (b : Bool) (p : Value)
      → J.index p (codes "unsigned") ≡ J.null
      → J.index (with_unsigned b p) (codes "unsigned") ≡ (if b then J.boolean true else J.null)
  at_unsigned true p free = o.index-set_self p _ _
  at_unsigned false p free = free

  -- The four keys that every listing has.
  abbrev base : PropertyDef → Value
  base p =
      let p1 = J.set J.object (codes "id") (number_value J p.id) in
      let p2 = J.set p1 (codes "name") (J.string p.name) in
      let p3 = J.set p2 (codes "type") (J.string (to_string p.type)) in
      J.set p3 (codes "vtableSlot") (number_value J (pos (slot_for p.id)))

  base-id : (p : PropertyDef) → J.index (base p) (codes "id") ≡ number_value J p.id
  base-id p =
      o.index-set_ne _ (codes "vtableSlot") (codes "id") _ (λ h. cc)
      ∙ o.index-set_ne _ (codes "type") (codes "id") _ (λ h. cc)
      ∙ o.index-set_ne _ (codes "name") (codes "id") _ (λ h. cc)
      ∙ o.index-set_self _ (codes "id") _

  base-name : (p : PropertyDef) → J.index (base p) (codes "name") ≡ J.string p.name
  unfolding eqb
  base-name p =
      o.index-set_ne _ (codes "vtableSlot") (codes "name") _ (λ h. cc)
      ∙ o.index-set_ne _ (codes "type") (codes "name") _ (apart (codes "type") (codes "name") refl)
      ∙ o.index-set_self _ (codes "name") _

  base-type : (p : PropertyDef) → J.index (base p) (codes "type") ≡ J.string (to_string p.type)
  base-type p =
      o.index-set_ne _ (codes "vtableSlot") (codes "type") _ (λ h. cc)
      ∙ o.index-set_self _ (codes "type") _

  -- A key that is none of the four.
  base-other :
      (p : PropertyDef) (key : Bytes)
      → codes "vtableSlot" ≢ key
      → codes "type" ≢ key
      → codes "name" ≢ key
      → codes "id" ≢ key
      → J.index (base p) key ≡ J.null
  base-other p key n4 n3 n2 n1 =
      o.index-set_ne _ (codes "vtableSlot") key _ n4
      ∙ o.index-set_ne _ (codes "type") key _ n3
      ∙ o.index-set_ne _ (codes "name") key _ n2
      ∙ o.index-set_ne _ (codes "id") key _ n1
      ∙ o.index-object key

  below_both :
      (p : PropertyDef) (key : Bytes)
      → codes "externalType" ≢ key
      → codes "unsigned" ≢ key
      → J.index (property_json J p) key ≡ J.index (base p) key
  unfolding property_json
  below_both p key ne ne' =
      below_external (external_type_name p.external_type) (with_unsigned p.is_unsigned (base p)) key
        ne
      ∙ below_unsigned p.is_unsigned (base p) key ne'

  -- The listing `v` of a property.
  abbrev pub Lists : Value → PropertyDef → Type 0
  Lists v p =
      (J.index v (codes "id") ≡ number_value J p.id)
      × (J.index v (codes "name") ≡ J.string p.name)
      × (J.index v (codes "type") ≡ J.string (to_string p.type))
      × (J.index v (codes "vtableSlot") ≡ number_value J (pos (slot_for p.id)))
      × (J.index v (codes "unsigned") ≡ (if p.is_unsigned then J.boolean true else J.null))
      × (J.index v (codes "externalType") ≡ string_or_null (external_type_name p.external_type))

  -- Over a JSON library with the laws of objects: the listing of a property has its id, its name,
  -- the name of its type and its vtable slot, and says that it is unsigned, and which external
  -- type it has, only where that is so.
  pub property_json-fields : (p : PropertyDef) → Lists (property_json J p) p
  unfolding property_json
  property_json-fields p =
      let ext = external_type_name p.external_type in
      let b = base p in
      (
        below_both p (codes "id") (λ h. cc) (λ h. cc) ∙ base-id p,
        below_both p (codes "name") (λ h. cc) (λ h. cc) ∙ base-name p,
        below_both p (codes "type") (λ h. cc) (λ h. cc) ∙ base-type p,
        below_both p (codes "vtableSlot") (λ h. cc) (λ h. cc)
            ∙ o.index-set_self _ (codes "vtableSlot") _,
        below_external ext (with_unsigned p.is_unsigned b) (codes "unsigned") (λ h. cc)
            ∙ at_unsigned p.is_unsigned b
                (base-other p (codes "unsigned") (λ h. cc) (λ h. cc) (λ h. cc) (λ h. cc)),
        at_external ext (with_unsigned p.is_unsigned b) (
            below_unsigned p.is_unsigned b (codes "externalType") (λ h. cc)
            ∙ base-other p (codes "externalType") (λ h. cc) (λ h. cc) (λ h. cc) (λ h. cc)),
      )

module _ {F : Type 0} (J : JsonLib F) (a : ArrayLaws J) where
  open J use {Value}

  -- A loop that pushes what `f` makes of each element.
  pushed :
      {A : Type 0} (f : A → Value) (go : List A → Value → Value)
      → ((arr : Value) → go [] arr ≡ arr)
      → ((x : A) (xs : List A) (arr : Value) → go (x ∷ xs) arr ≡ go xs (J.push_back arr (f x)))
      → (xs : List A) (arr : Value) → J.is_array arr ≡ true
      → J.items (go xs arr) ≡ J.items arr ++ map f xs
  pushed f go stop next [] arr h = ap J.items (stop arr) ∙ sym (append-nil (J.items arr))
  pushed f go stop next (x ∷ xs) arr h =
      ap J.items (next x xs arr)
      ∙ pushed f go stop next xs (J.push_back arr (f x)) (a.is_array-push_back arr (f x) h)
      ∙ ap (λ (l : List Value). l ++ map f xs) (a.items-push_back arr (f x) h)
      ∙ append_assoc (J.items arr) (f x ∷ []) (map f xs)

  from_empty :
      (built : Value) (l : List Value) → J.items built ≡ J.items J.array ++ l → J.items built ≡ l
  from_empty built l e = e ∙ ap (λ (k : List Value). k ++ l) a.items-array

  -- The array of the entities has one item for each, in their order; so have those of an entity's
  -- properties and of its relations.
  pub listed-items :
      (es : List EntityDef) (ps : List PropertyDef) (rs : List RelationDef)
      → (J.items (entities_json J es J.array) ≡ map (entity_json J) es)
        × (J.items (properties_json J ps J.array) ≡ map (property_json J) ps)
        × (J.items (relations_json J rs J.array) ≡ map (relation_json J) rs)
  unfolding entities_json properties_json relations_json
  listed-items es ps rs = (
    from_empty _ _ (
        pushed (entity_json J) (entities_json J) (λ arr. refl) (λ x xs arr. refl) es J.array
          a.is_array-array),
    from_empty _ _ (
        pushed (property_json J) (properties_json J) (λ arr. refl) (λ x xs arr. refl) ps J.array
          a.is_array-array),
    from_empty _ _ (
        pushed (relation_json J) (relations_json J) (λ arr. refl) (λ x xs arr. refl) rs J.array
          a.is_array-array),
  )

  -- Over a JSON library with the laws of arrays and objects: a listing that is written is that of
  -- the parsed model, an object whose key "entities" holds the array of the entities' listings in the
  -- order of `all`.
  pub schema_to_json-listed :
      (o : ObjectLaws J) (model_json text : Bytes)
      → schema_to_json J model_json ≡ ok text
      → (schema : Schema) × (listing : Value) × (parse J model_json ≡ ok schema)
        × (J.dump_indent 2 listing ≡ ok text)
        × (J.items (J.index listing (codes "entities")) ≡ map (entity_json J) (all schema))
  unfolding schema_to_json
  schema_to_json-listed o model_json text h =
      let (schema, parsed, written) = >>=-eq-ok (parse J model_json) _ h in
      (
        schema,
        _,
        parsed,
        written,
        ap J.items (o.index-set_self J.object (codes "entities") _)
            ∙ (listed-items (all schema) [] []).0,
      )
