-- ===== src/SchemaJson.antt =====
-- schema_json.cpp: the listing of a model.
pub mod Listing
use ob_dump.Base.{List, [], ◌∷◌, true, Option, none, some, Bytes, codes, if◌then◌else◌}
use ob_dump.Base.Int.{ℤ, pos}
use ob_dump.Base.Exec.{Result, ◌>>=◌}
use ob_dump.Json.{JsonLib, Number}
use ob_dump.Schema.{PropertyDef, RelationDef, EntityDef, to_string, external_type_name}
use ob_dump.Schema.Parse.{parse}
use ob_dump.Schema.Order.{all}
use ob_dump.Decode.{slot_for}

module _ {F : Type 0} (J : JsonLib F) where
  open J use {Value}

  abbrev pub number_value : ℤ → Value
  number_value n = J.number (Number.int n)

  -- `{ {"…", v}, … }`, one key after the other.
  with_external : Option Bytes → Value → Value
  with_external none p = p
  with_external (some ext) p = J.set p (codes "externalType") (J.string ext)

  unfoldable pub property_json : PropertyDef → Value
  unfolding with_external
  property_json prop =
      let p1 = J.set J.object (codes "id") (number_value prop.id) in
      let p2 = J.set p1 (codes "name") (J.string prop.name) in
      let p3 = J.set p2 (codes "type") (J.string (to_string prop.type)) in
      let p4 = J.set p3 (codes "vtableSlot") (number_value (pos (slot_for prop.id))) in
      let p5 = if prop.is_unsigned then J.set p4 (codes "unsigned") (J.boolean true) else p4 in
      with_external (external_type_name prop.external_type) p5

  pub properties_json : List PropertyDef → Value → Value
  properties_json [] arr = arr
  properties_json (p ∷ ps) arr = properties_json ps (J.push_back arr (property_json p))

  unfoldable pub relation_json : RelationDef → Value
  relation_json rel =
      let r1 = J.set J.object (codes "id") (number_value rel.id) in
      let r2 = J.set r1 (codes "name") (J.string rel.name) in
      J.set r2 (codes "targetEntityId") (number_value rel.target_entity_id)

  pub relations_json : List RelationDef → Value → Value
  relations_json [] arr = arr
  relations_json (r ∷ rs) arr = relations_json rs (J.push_back arr (relation_json r))

  -- The test `relations.empty()` is the pattern.
  unfoldable pub with_relations : List RelationDef → Value → Value
  with_relations [] entity = entity
  with_relations (r ∷ rs) entity =
      J.set entity (codes "relations") (relations_json (r ∷ rs) J.array)

  unfoldable pub entity_json : EntityDef → Value
  entity_json entity =
      let e1 = J.set J.object (codes "entityId") (number_value entity.entity_id) in
      let e2 = J.set e1 (codes "name") (J.string entity.name) in
      let e3 = J.set e2 (codes "properties") (properties_json entity.properties J.array) in
      with_relations entity.relations e3

  pub entities_json : List EntityDef → Value → Value
  entities_json [] arr = arr
  entities_json (e ∷ es) arr = entities_json es (J.push_back arr (entity_json e))

  unfoldable pub schema_to_json : Bytes → Result Bytes
  unfolding property_json properties_json relation_json relations_json with_relations entity_json
      entities_json
  schema_to_json model_json = do
    schema ← parse J model_json
    J.dump_indent 2 (J.set J.object (codes "entities") (entities_json (all schema) J.array))
