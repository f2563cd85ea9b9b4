-- ===== src/Examples/Models.antt =====
-- The theorems on the schema and what is generated from it, at small models.
use mathlib.Core.List.{Perm, Pairwise, mem-cons, not-mem-nil}
use mathlib.Core.List.Perm
use mathlib.Core.HLevel.{¬_prop}
use mathlib.Core.Logic.Or
use ob_dump.Schema.Parse.Reads.{ReadsEntity, parse-ReadsEntity}
use ob_dump.Base.Exec.{err, std_exception}
use ob_dump.Schema.Ids.Accepts.{parse_leading_id-large}
use ob_dump.Base.{
  Each, Bytes, ◌++◌, ℕ, ◌+◌, ◌*◌, ◌≡◌, ◌≢◌, ◌↔◌, refl, ap, ◌∙◌, List, [], ◌∷◌, true, none, some,
  codes, eqb, decimal, arith, get_elem?,
}
use ob_dump.Base.Int.{ℤ, pos}
use ob_dump.Base.Exec.{ok}
use ob_dump.Json.{JsonLib}
use ob_dump.Schema.{
  PropertyType, type_code, to_property_type, ExternalType, external_code, external_type_name,
  PropertyDef, EntityDef,
}
use ob_dump.Schema.Ids.{parse_leading_id}
use ob_dump.Schema.Ids.Accepts.{parse_leading_id-decimal}
use ob_dump.Schema.Codes.{to_property_type_iff, external_type_name_iff}
use ob_dump.Schema.Parse.{Schema, find, find_in, parse}
use ob_dump.Schema.Parse.Map.{collect, model_entities, parse_correct}
use ob_dump.Schema.Order.{all, IsDistinct, IsAscending, all_correct, all-perm}
use ob_dump.Decode.{slot_for}
use ob_dump.Fbs.{by_id, max_id, write_reserved_placeholder, write_field, write_fields}
use ob_dump.SchemaJson.{schema_to_json}
use ob_dump.SchemaJson.Listing.Whole.{ListsEntity, schema_to_json-Lists}
use ob_dump.Fbs.Slots.{field_list, concat, rounds_of, write_fields-slot, write_fields-gap}
use ob_dump.Fbs.Agreement.{idl_of, idl_text, write_field-wire}
use ob_dump.Decode.Object.Wire.{typed_wire}
use ob_dump.Examples.Sample.{
  Doc, text, array, object, end, item, doc_json, doc_ArrayLaws, doc_ObjectLaws,
}

parse_leading_id-decimal_example : parse_leading_id (codes "12:3") ≡ ok (pos 12)
unfolding decimal
parse_leading_id-decimal_example = parse_leading_id-decimal 12 (codes "3") (omega arith)

parse_leading_id-large_example :
    parse_leading_id (codes "2147483648:1") ≡ err (std_exception (codes "stoi"))
unfolding decimal
parse_leading_id-large_example = parse_leading_id-large 2147483648 (codes "1") (omega arith)

to_property_type_iff_example :
    (to_property_type (pos 9) ≡ PropertyType.string) ↔ (pos 9 ≡ type_code PropertyType.string)
to_property_type_iff_example = to_property_type_iff (pos 9) PropertyType.string (λ h. cc)

external_type_name_iff_example :
    (external_type_name (pos 102) ≢ none) ↔ ((e : ExternalType) × (pos 102 ≡ external_code e))
external_type_name_iff_example = external_type_name_iff (pos 102)

-- A model with one entity that has no properties, and the schema that it is parsed to.
abbrev model : Doc
model = object (
    item (codes "entities")
      (array (
        item []
          (object (
            item (codes "id") (text (codes "2:9")) (
              item (codes "name") (text (codes "Task"))
                (item (codes "properties") (array end) end))))
          end))
      end)

abbrev entity : ℤ → EntityDef
entity id = record { entity_id = id; name = codes "Task"; properties = []; relations = [] }

abbrev one_entity : Schema
one_entity = record { entities_by_id = entity (pos 2) ∷ [] }

parse-ReadsEntity_example :
    (m : (doc_json model).Value) × (es : List EntityDef) × ((doc_json model).parse [] ≡ ok m)
    × Each
        (ReadsEntity (doc_json model))
        ((doc_json model).items ((doc_json model).index m (codes "entities")))
        es
    × ((id : ℤ) → find one_entity id ≡ find_in es id)
unfolding parse doc_json eqb parse_leading_id
parse-ReadsEntity_example = parse-ReadsEntity (doc_json model) [] one_entity refl

parse_correct_example :
    (m : (doc_json model).Value) × (es : List EntityDef) × ((doc_json model).parse [] ≡ ok m)
    × (collect (doc_json model) (model_entities (doc_json model) m) ≡ ok es)
    × IsDistinct one_entity.entities_by_id
    × ((id : ℤ) → find one_entity id ≡ find_in es id)
unfolding parse doc_json eqb parse_leading_id
parse_correct_example = parse_correct (doc_json model) [] one_entity refl

abbrev two_entities : Schema
two_entities = record { entities_by_id = entity (pos 2) ∷ entity (pos 1) ∷ [] }

abbrev swapped : Schema
swapped = record { entities_by_id = entity (pos 1) ∷ entity (pos 2) ∷ [] }

distinct_ids : ¬ (pos 2 ≡ pos 1)
distinct_ids h = cc

two_entities-IsDistinct : IsDistinct two_entities.entities_by_id
two_entities-IsDistinct =
    Pairwise.cons
      (λ x m.
        Or.elim ¬_prop (mem-cons.0 m)
          (λ q e. distinct_ids (e ∙ ap (λ (y : EntityDef). y.entity_id) q))
          (λ n. absurd (not-mem-nil n)))
      (Pairwise.cons (λ x m. absurd (not-mem-nil m)) Pairwise.nil)

all_correct_example :
    IsAscending (all two_entities) × Perm (all two_entities) two_entities.entities_by_id
all_correct_example = all_correct two_entities two_entities-IsDistinct

all-perm_example : all two_entities ≡ all swapped
all-perm_example = all-perm two_entities swapped two_entities-IsDistinct (Perm.swap _ _ _)

abbrev count : PropertyDef
count = record {
  id = pos 2;
  name = codes "count";
  type = PropertyType.int;
  is_unsigned = true;
  external_type = pos 0;
}

-- The properties of an entity whose property 1 is retired.
abbrev properties : List PropertyDef
properties = count ∷ []

write_fields-slot_example :
    (get_elem? (field_list properties (rounds_of properties) 1) 1 ≡ some (write_field count))
    × (write_fields properties (rounds_of properties) 1
        ≡ concat (field_list properties (rounds_of properties) 1))
    × (slot_for (pos 2) ≡ 4 + 2 * 1)
unfolding by_id
write_fields-slot_example = write_fields-slot properties 1 count refl (omega arith)

write_fields-gap_example :
    (get_elem? (field_list properties (rounds_of properties) 1) 0
      ≡ some (write_reserved_placeholder 1))
    × (write_fields properties (rounds_of properties) 1
        ≡ concat (field_list properties (rounds_of properties) 1))
unfolding by_id max_id
write_fields-gap_example = write_fields-gap properties 0 refl (omega arith)

write_field-wire_example :
    (rest : Bytes) × (write_field count
      ≡ codes "  "
        ++ codes "count"
        ++ codes ":"
        ++ (idl_text (idl_of (typed_wire count.type count)) ++ codes ";" ++ rest))
write_field-wire_example = write_field-wire count (λ e. cc) refl

abbrev sample_json : JsonLib ℕ
sample_json = doc_json model

schema_to_json-Lists_example :
    (schema : Schema) × (listing : sample_json.Value) × (parse sample_json [] ≡ ok schema)
    × (sample_json.dump_indent 2 listing ≡ ok (codes "{}"))
    × Each
        (ListsEntity sample_json (doc_ArrayLaws model) (doc_ObjectLaws model))
        (sample_json.items (sample_json.index listing (codes "entities")))
        (all schema)
unfolding schema_to_json parse doc_json eqb parse_leading_id
schema_to_json-Lists_example =
    schema_to_json-Lists sample_json (doc_ArrayLaws model) (doc_ObjectLaws model) [] (codes "{}")
      refl
