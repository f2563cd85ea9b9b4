-- ===== src/Examples/Dumps.antt =====
-- The theorems on the two dumps, at a store of two records.
use ob_dump.Base.{ℕ, ◌+◌, refl, List, [], ◌∷◌, true, Bytes, codes, eqb}
use ob_dump.Base.Int.{pos, ◌+ℤ◌, ◌*ℤ◌, ◌-ℤ◌}
use ob_dump.Decode.{slot_for}
use ob_dump.Decode.Fields.{decode_scalar}
use ob_dump.Json.{JsonLib}
use ob_dump.Schema.{PropertyType, PropertyDef, EntityDef}
use ob_dump.Schema.Parse.{Schema, find}
use ob_dump.Lmdb.Handles.{St, check}
use ob_dump.Lmdb.Walk.{for_each_object}
use ob_dump.Dump.{RecordCallback, record_json, stream_json, stream_record, stream_callback}
use ob_dump.Decode.Object.{decode_object}
use ob_dump.Dump.Stream.{Agrees, dump-stream}
use ob_dump.Examples.Sample.{
  null, doc_json, text_json, byte_tables, nested_numbers, store_of, sample_store,
}

abbrev age : PropertyDef
age = record {
  id = pos 1;
  name = codes "age";
  type = PropertyType.byte;
  is_unsigned = true;
  external_type = pos 0;
}

abbrev person : EntityDef
person = record { entity_id = pos 1; name = codes "Person"; properties = age ∷ []; relations = [] }

abbrev schema : Schema
schema = record { entities_by_id = person ∷ [] }

abbrev counting : RecordCallback ℕ
counting name id fields n = (true, n + 1)

abbrev start : St ℕ
start = record { handles = record { envs = 1; txns = 1; cursors = 0 }; user = 0 }

abbrev finished : St ℕ
finished = record start { user = 2 }

dump-stream_example :
    Agrees text_json byte_tables nested_numbers sample_store
      (codes "data.mdb")
      schema
      counting
      start
      finished
unfolding for_each_object check store_of stream_callback find stream_record record_json stream_json
    decode_object text_json nested_numbers byte_tables eqb decode_scalar slot_for ◌+ℤ◌ ◌*ℤ◌ ◌-ℤ◌
dump-stream_example =
    dump-stream text_json byte_tables nested_numbers sample_store (codes "data.mdb") schema counting
      (λ name id fields n. refl) start finished refl

abbrev sample_json : JsonLib ℕ
sample_json = doc_json null

abbrev pairs : List (Bytes × sample_json.Value)
pairs =
    (codes "A", sample_json.object)
    ∷ (codes "B", sample_json.null)
    ∷ (codes "A", sample_json.null)
    ∷ []
