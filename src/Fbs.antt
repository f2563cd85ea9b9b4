-- ===== src/Fbs.antt =====
-- fbs_gen.cpp: the FlatBuffers IDL of a model.
pub mod Slots
pub mod Agreement
use ob_dump.Base.{
  ℕ, zero, suc, ◌+◌, List, [], ◌∷◌, ◌++◌, Bool, true, false, Option, none, some, Bytes, codes,
  decimal_ℤ, if◌then◌else◌,
}
use ob_dump.Base.Int.{ℤ, pos, pos_part, eqb_ℤ, ltb_ℤ}
use ob_dump.Base.Exec.{Result, ok, ◌>>=◌}
use ob_dump.Json.{JsonLib}
use ob_dump.Schema.{PropertyType, PropertyDef, RelationDef, EntityDef, external_type_name}
use ob_dump.Schema.Parse.{Schema, find, parse}
use ob_dump.Schema.Order.{all}

abbrev pub sized : Bool → Bytes → Bytes → Bytes
sized is_unsigned unsigned signed = if is_unsigned then unsigned else signed

unfoldable pub fbs_type_name : PropertyType → Bool → Bytes
fbs_type_name PropertyType.bool u = codes "bool"
fbs_type_name PropertyType.bool_vector u = codes "bool"
fbs_type_name PropertyType.byte u = sized u (codes "ubyte") (codes "byte")
fbs_type_name PropertyType.byte_vector u = sized u (codes "ubyte") (codes "byte")
fbs_type_name PropertyType.short u = sized u (codes "ushort") (codes "short")
fbs_type_name PropertyType.short_vector u = sized u (codes "ushort") (codes "short")
fbs_type_name PropertyType.char u = codes "ushort"
fbs_type_name PropertyType.char_vector u = codes "ushort"
fbs_type_name PropertyType.int u = sized u (codes "uint") (codes "int")
fbs_type_name PropertyType.int_vector u = sized u (codes "uint") (codes "int")
fbs_type_name PropertyType.long u = sized u (codes "ulong") (codes "long")
fbs_type_name PropertyType.long_vector u = sized u (codes "ulong") (codes "long")
fbs_type_name PropertyType.date u = sized u (codes "ulong") (codes "long")
fbs_type_name PropertyType.date_vector u = sized u (codes "ulong") (codes "long")
fbs_type_name PropertyType.relation u = sized u (codes "ulong") (codes "long")
fbs_type_name PropertyType.date_nano u = sized u (codes "ulong") (codes "long")
fbs_type_name PropertyType.date_nano_vector u = sized u (codes "ulong") (codes "long")
fbs_type_name PropertyType.float u = codes "float"
fbs_type_name PropertyType.float_vector u = codes "float"
fbs_type_name PropertyType.double u = codes "double"
fbs_type_name PropertyType.double_vector u = codes "double"
fbs_type_name PropertyType.string u = codes "string"
fbs_type_name PropertyType.string_vector u = codes "string"
fbs_type_name PropertyType.flex u = codes "ubyte"
fbs_type_name PropertyType.unknown u = codes "ubyte"

unfoldable pub is_vector_type : PropertyType → Bool
is_vector_type PropertyType.bool_vector = true
is_vector_type PropertyType.byte_vector = true
is_vector_type PropertyType.short_vector = true
is_vector_type PropertyType.char_vector = true
is_vector_type PropertyType.int_vector = true
is_vector_type PropertyType.long_vector = true
is_vector_type PropertyType.float_vector = true
is_vector_type PropertyType.double_vector = true
is_vector_type PropertyType.string_vector = true
is_vector_type PropertyType.date_vector = true
is_vector_type PropertyType.date_nano_vector = true
is_vector_type _ = false

abbrev flex_comment : Bytes
flex_comment =
    codes "[ubyte];  // Flex: raw FlexBuffers-encoded bytes; a flatc-generated\n"
    ++ codes "                    // reader gets these raw too (ob_dump's own JSON\n"
    ++ codes "                    // output decodes them, but that's a separate path)\n"

abbrev unknown_comment : Bytes
unknown_comment = codes " (deprecated);  // unrecognized PropertyType code, shape unknown\n"

-- The type of a field that is no Flex, and what stands behind it.
field_type : PropertyDef → Bytes
field_type prop =
    let base = fbs_type_name prop.type prop.is_unsigned in
    if is_vector_type prop.type then codes "[" ++ base ++ codes "]" else base

field_comment : PropertyDef → Bytes
field_comment prop = elim (external_type_name prop.external_type) [
  | none ↦ codes "\n"
  | some ext ↦ codes "  // external type: " ++ ext ++ codes "\n"
]

-- The two tests `prop.type == …` are patterns.
field_body : PropertyType → PropertyDef → Bytes
field_body PropertyType.flex prop = flex_comment
field_body PropertyType.unknown prop = field_type prop ++ unknown_comment
field_body _ prop = field_type prop ++ codes ";" ++ field_comment prop

unfoldable pub write_field : PropertyDef → Bytes
unfolding field_type field_comment field_body
write_field prop = codes "  " ++ prop.name ++ codes ":" ++ field_body prop.type prop

unfoldable pub write_reserved_placeholder : ℕ → Bytes
write_reserved_placeholder id =
    codes "  _reserved_" ++ decimal_ℤ (pos id) ++ codes ":ubyte (deprecated);\n"

-- `byId[prop.id] = &prop`: the last property of an id stays.
unfoldable pub by_id : List PropertyDef → ℤ → Option PropertyDef
by_id [] id = none
by_id (p ∷ ps) id = elim (by_id ps id) [
  | some q ↦ some q
  | none ↦ if eqb_ℤ p.id id then some p else none
]

unfoldable pub max_id : List PropertyDef → ℤ → ℤ
max_id [] m = m
max_id (p ∷ ps) m = max_id ps (if ltb_ℤ m p.id then p.id else m)

unfoldable pub write_id : List PropertyDef → ℕ → Bytes
write_id ps id = elim (by_id ps (pos id)) [
  | none ↦ write_reserved_placeholder id
  | some prop ↦ write_field prop
]

-- `for (int id = 1; id <= maxId; ++id)`, by the rounds left. The model's counter has no bound: where
-- the greatest id is INT_MAX, the source's last `++id` overflows, which is undefined.
unfoldable pub write_fields : List PropertyDef → ℕ → ℕ → Bytes
write_fields ps zero id = []
write_fields ps (suc rounds) id = write_id ps id ++ write_fields ps rounds (id + 1)

-- U+2014 in UTF-8.
abbrev em_dash : Bytes
em_dash = 0xe2 ∷ 0x80 ∷ 0x94 ∷ []

relation_comment : Schema → RelationDef → Bytes
relation_comment schema rel =
    codes "  // ToMany relation: "
    ++ rel.name
    ++ codes " (relation id "
    ++ decimal_ℤ rel.id
    ++ codes ") -> "
    ++ (elim (find schema rel.target_entity_id) [ none ↦ codes "?" | some target ↦ target.name ])
    ++ codes " "
    ++ em_dash
    ++ codes " not a table field, see docs/BACKLOG.md\n"

write_relations : Schema → List RelationDef → Bytes
write_relations schema [] = []
write_relations schema (rel ∷ rels) = relation_comment schema rel ++ write_relations schema rels

write_table : Schema → EntityDef → Bytes
write_table schema entity =
    codes "table "
    ++ entity.name
    ++ codes " {\n"
    ++ write_fields entity.properties (pos_part (max_id entity.properties (pos 0))) 1
    ++ write_relations schema entity.relations
    ++ codes "}\n\n"

write_tables : Schema → List EntityDef → Bytes
write_tables schema [] = []
write_tables schema (e ∷ es) = write_table schema e ++ write_tables schema es

abbrev preamble : Bytes
preamble =
    codes "// Auto-generated by `ob_dump --fbs` from objectbox-model.json. Do not edit by hand.\n"
    ++ codes "// Field order matches ObjectBox property id order (determines each field's vtable\n"
    ++ codes "// slot); gaps from retired properties are filled with deprecated placeholders to\n"
    ++ codes "// keep slot numbering aligned. See docs/BACKLOG.md for the full rationale "
    ++ em_dash
    ++ codes " in\n"
    ++ codes
        "// particular, this .fbs plus flatc only replaces the per-record FlatBuffers decode,\n"
    ++ codes "// not LMDB access or the ObjectBox key-format parsing.\n\n"

unfoldable pub generate_fbs : {F : Type 0} → JsonLib F → Bytes → Result Bytes
unfolding write_field write_reserved_placeholder by_id max_id write_id write_fields relation_comment
    write_relations write_table write_tables
generate_fbs J model_json = do
  schema ← parse J model_json
  ok (preamble ++ write_tables schema (all schema))
