-- ===== src/SchemaJson/Listing/Whole.antt =====
-- schema_json.cpp: a listing as a whole, down to the keys of its properties and relations.
use mathlib.Core.Path.{subst}
use ob_dump.Base.{
  Each, end, item, List, [], ◌∷◌, map, Bytes, codes, eqb, ◌≡◌, ◌≢◌, refl, ap, sym, ◌∙◌,
}
use ob_dump.Json.{JsonLib, ArrayLaws, ObjectLaws}
use ob_dump.Schema.{PropertyDef, RelationDef, EntityDef}
use ob_dump.Base.Exec.{ok}
use ob_dump.Schema.Parse.{Schema, parse}
use ob_dump.Schema.Order.{all}
use ob_dump.SchemaJson.{
  number_value, property_json, properties_json, relation_json, with_relations, entity_json,
  schema_to_json,
}
use ob_dump.SchemaJson.Listing.{Lists, property_json-fields, listed-items, schema_to_json-listed}

map-Each :
    {A B : Type 0} (R : A → B → Type 0) (f : B → A)
    → ((y : B) → R (f y) y)
    → (ys : List B) → Each R (map f ys) ys
map-Each R f holds [] = end
map-Each R f holds (y ∷ ys) = item (holds y) (map-Each R f holds ys)

module _ {F : Type 0} (J : JsonLib F) (a : ArrayLaws J) (o : ObjectLaws J) where
  open J use {Value}

  -- The listing of a relation.
  abbrev pub ListsRelation : Value → RelationDef → Type 0
  ListsRelation v r =
      (J.index v (codes "id") ≡ number_value J r.id)
      × (J.index v (codes "name") ≡ J.string r.name)
      × (J.index v (codes "targetEntityId") ≡ number_value J r.target_entity_id)

  -- What is under the key "relations": nothing where there are none.
  abbrev pub ListsRelations : Value → List RelationDef → Type 0
  ListsRelations v [] = v ≡ J.null
  ListsRelations v (r ∷ rs) = Each ListsRelation (J.items v) (r ∷ rs)

  -- The listing of an entity.
  abbrev pub ListsEntity : Value → EntityDef → Type 0
  ListsEntity v e =
      (J.index v (codes "entityId") ≡ number_value J e.entity_id)
      × (J.index v (codes "name") ≡ J.string e.name)
      × Each (Lists J o) (J.items (J.index v (codes "properties"))) e.properties
      × ListsRelations (J.index v (codes "relations")) e.relations

  relation_json-ListsRelation : (r : RelationDef) → ListsRelation (relation_json J r) r
  unfolding relation_json
  relation_json-ListsRelation r = (
    o.index-set_ne _ (codes "targetEntityId") (codes "id") _ (λ h. cc)
        ∙ o.index-set_ne _ (codes "name") (codes "id") _ (λ h. cc)
        ∙ o.index-set_self _ (codes "id") _,
    o.index-set_ne _ (codes "targetEntityId") (codes "name") _ (λ h. cc)
        ∙ o.index-set_self _ (codes "name") _,
    o.index-set_self _ (codes "targetEntityId") _,
  )

  -- The three keys that every entity has.
  abbrev base : EntityDef → Value
  base e =
      let e1 = J.set J.object (codes "entityId") (number_value J e.entity_id) in
      let e2 = J.set e1 (codes "name") (J.string e.name) in
      J.set e2 (codes "properties") (properties_json J e.properties J.array)

  below_relations :
      (rs : List RelationDef) (v : Value) (key : Bytes)
      → codes "relations" ≢ key
      → J.index (with_relations J rs v) key ≡ J.index v key
  unfolding with_relations
  below_relations [] v key ne = refl
  below_relations (r ∷ rs) v key ne = o.index-set_ne v _ key _ ne

  at_relations :
      (rs : List RelationDef) (v : Value)
      → J.index v (codes "relations") ≡ J.null
      → ListsRelations (J.index (with_relations J rs v) (codes "relations")) rs
  unfolding with_relations
  at_relations [] v free = free
  at_relations (r ∷ rs) v free =
      subst (λ l. Each ListsRelation l (r ∷ rs))
        (sym (
          ap J.items (o.index-set_self v (codes "relations") _)
          ∙ (listed-items J a [] [] (r ∷ rs)).2))
        (map-Each ListsRelation (relation_json J) relation_json-ListsRelation (r ∷ rs))

  properties-Each :
      (ps : List PropertyDef) → Each (Lists J o) (J.items (properties_json J ps J.array)) ps
  properties-Each ps =
      subst (λ l. Each (Lists J o) l ps) (sym (listed-items J a [] ps []).1)
        (map-Each (Lists J o) (property_json J) (property_json-fields J o) ps)

  entity_json-ListsEntity : (e : EntityDef) → ListsEntity (entity_json J e) e
  unfolding entity_json eqb
  entity_json-ListsEntity e = (
    below_relations e.relations (base e) (codes "entityId") (λ h. cc)
        ∙ o.index-set_ne _ (codes "properties") (codes "entityId") _ (λ h. cc)
        ∙ o.index-set_ne _ (codes "name") (codes "entityId") _ (λ h. cc)
        ∙ o.index-set_self _ (codes "entityId") _,
    below_relations e.relations (base e) (codes "name") (λ h. cc)
        ∙ o.index-set_ne _ (codes "properties") (codes "name") _ (λ h. cc)
        ∙ o.index-set_self _ (codes "name") _,
    subst (λ v. Each (Lists J o) (J.items v) e.properties)
        (sym (
          below_relations e.relations (base e) (codes "properties") (λ h. cc)
          ∙ o.index-set_self _ (codes "properties") _))
        (properties-Each e.properties),
    at_relations e.relations (base e) (
        o.index-set_ne _ (codes "properties") (codes "relations") _ (λ h. cc)
        ∙ o.index-set_ne _ (codes "name") (codes "relations") _ (λ h. cc)
        ∙ o.index-set_ne _ (codes "entityId") (codes "relations") _ (λ h. cc)
        ∙ o.index-object (codes "relations")),
  )

  -- Over a JSON library with the laws of arrays and objects: a listing that is written is one of the
  -- parsed model. Its key "entities" holds one listing for each entity in the order of `all`, with the
  -- entity's id and name, and one listing for each of its properties and relations in their order. A
  -- property's has its id, name, type's name and slot, and says that it is unsigned and its external
  -- type only where that is so; a relation's has its id, name and target; and an entity without
  -- relations has no key for them.
  pub schema_to_json-Lists :
      (model_json text : Bytes)
      → schema_to_json J model_json ≡ ok text
      → (schema : Schema) × (listing : Value) × (parse J model_json ≡ ok schema)
        × (J.dump_indent 2 listing ≡ ok text)
        × Each ListsEntity (J.items (J.index listing (codes "entities"))) (all schema)
  schema_to_json-Lists model_json text h =
      let (schema, listing, parsed, written, items) =
        schema_to_json-listed J a o model_json text h in
      (
        schema,
        listing,
        parsed,
        written,
        subst (λ l. Each ListsEntity l (all schema)) (sym items)
            (map-Each ListsEntity (entity_json J) entity_json-ListsEntity (all schema)),
      )
