-- ===== src/Examples/Records.antt =====
-- The theorems on the decoder, at small records.
use mathlib.Core.Bool.{false≢true}
use ob_dump.Examples.Sample.{doc_ArrayLaws}
use ob_dump.Decode.Flex.{flex_to_json, IsNested}
use ob_dump.Decode.Flex.Converts.{Converts, flex_to_json-Converts}
use ob_dump.Base.{refl, Bytes, All, false, ℕ, ◌≡◌, [], ◌∷◌, true, codes, eqb, arith}
use ob_dump.Base.Int.{pos, ◌+ℤ◌, ◌-ℤ◌, ◌*ℤ◌}
use ob_dump.Schema.{PropertyType, PropertyDef, EntityDef}
use ob_dump.Decode.{Scalar, slot_for}
use ob_dump.Decode.Hex.{
  to_hex, from_hex, uuid_text, hex_as_uuid, from_hex-to_hex, hex_as_uuid-to_hex,
}
use ob_dump.Decode.Object.{decode_property, decode_object}
use ob_dump.Decode.Fields.{decode_scalar}
use ob_dump.Json.{JsonLib, Number}
use ob_dump.Decode.Object.Wire.{scalar, read, store}
use ob_dump.Decode.Object.Contents.{Contents, decode_object-Contents}
use ob_dump.Decode.Object.Follows.{decode_property-read}
use ob_dump.Examples.Sample.{null, doc_json, doc_ObjectLaws, text_json, byte_tables, nested_numbers}

from_hex-to_hex_example : from_hex (to_hex (7 ∷ 255 ∷ [])) ≡ 7 ∷ 255 ∷ []
from_hex-to_hex_example = from_hex-to_hex (7 ∷ 255 ∷ []) (omega arith, (omega arith, tt))

abbrev sixteen : Bytes
sixteen = 0 ∷ 1 ∷ 2 ∷ 3 ∷ 4 ∷ 5 ∷ 6 ∷ 7 ∷ 8 ∷ 9 ∷ 10 ∷ 11 ∷ 12 ∷ 13 ∷ 14 ∷ 255 ∷ []

grouped : uuid_text sixteen ≡ codes "00010203-0405-0607-0809-0a0b0c0d0eff"
unfolding uuid_text to_hex
grouped = refl

hex_as_uuid-to_hex_example : hex_as_uuid (to_hex sixteen) ≡ uuid_text sixteen
hex_as_uuid-to_hex_example = hex_as_uuid-to_hex sixteen

abbrev age : PropertyDef
age = record {
  id = pos 1;
  name = codes "age";
  type = PropertyType.int;
  is_unsigned = true;
  external_type = pos 0;
}

decode_property-read_example :
    decode_property text_json byte_tables nested_numbers
      (byte_tables.get_root (9 ∷ []))
      (byte_tables.verifier (9 ∷ []))
      age
      text_json.object
    ≡ store text_json byte_tables nested_numbers
        (read text_json byte_tables nested_numbers
          (scalar Scalar.uint32)
          (byte_tables.get_root (9 ∷ []))
          (byte_tables.verifier (9 ∷ []))
          (slot_for (pos 1))
          (codes "age"))
        (codes "age")
        text_json.object
unfolding eqb
decode_property-read_example =
    decode_property-read text_json byte_tables nested_numbers (byte_tables.get_root (9 ∷ []))
      (byte_tables.verifier (9 ∷ [])) age text_json.object

abbrev sample_json : JsonLib ℕ
sample_json = doc_json null

abbrev height : PropertyDef
height = record {
  id = pos 2;
  name = codes "height";
  type = PropertyType.short;
  is_unsigned = false;
  external_type = pos 0;
}

abbrev person : EntityDef
person = record {
  entity_id = pos 1;
  name = codes "Person";
  properties = age ∷ height ∷ [];
  relations = [];
}

-- The record has an age and no height.
abbrev fields : Bytes
fields = 9 ∷ []

names_differ : ¬ (codes "age" ≡ codes "height")
names_differ h = cc

abbrev decoded : sample_json.Value
decoded = sample_json.set sample_json.object (codes "age") (sample_json.number (Number.int (pos 9)))

decode_object-Contents_example :
    All
      (Contents sample_json byte_tables nested_numbers
        (byte_tables.get_root fields)
        (byte_tables.verifier fields)
        decoded)
      (age ∷ height ∷ [])
unfolding decode_object decode_scalar slot_for doc_json byte_tables eqb ◌+ℤ◌ ◌-ℤ◌ ◌*ℤ◌
decode_object-Contents_example =
    decode_object-Contents sample_json byte_tables nested_numbers (doc_ObjectLaws null) fields
      person decoded ((names_differ, tt), (tt, tt)) refl

nested : IsNested sample_json nested_numbers
unfolding nested_numbers
nested = record {
  map = λ r h i lt. absurd (false≢true h);
  typed = λ r h i lt. absurd (false≢true h);
  fixed = λ r h i lt. absurd (false≢true h);
  plain = λ r h i lt. ground arith;
}

flex_to_json-Converts_example :
    Converts sample_json nested_numbers
      (nested_numbers.get_root (3 ∷ []))
      (flex_to_json sample_json nested_numbers (nested_numbers.get_root (3 ∷ [])))
flex_to_json-Converts_example =
    flex_to_json-Converts sample_json nested_numbers (doc_ArrayLaws null) nested
      (nested_numbers.get_root (3 ∷ []))
