-- ===== src/Examples/Stops.antt =====
-- A stream that its callback stops at the second record.
use ob_dump.Base.{ℕ, ◌+◌, ◌-◌, ◌≡◌, refl, some, [], ◌∷◌, codes, eqb}
use ob_dump.Base.Int.{pos}
use ob_dump.Schema.{EntityDef}
use ob_dump.Schema.Ids.{parse_leading_id}
use ob_dump.Schema.Parse.{Schema, find, parse}
use ob_dump.Lmdb.Handles.{Handles, check}
use ob_dump.Lmdb.Reader.{open_reader}
use ob_dump.Lmdb.Walk.{objects, is_data_key, record_of}
use ob_dump.Lmdb.Keys.{read_uint32_be}
use ob_dump.Dump.{record_json, stream_json}
use ob_dump.Decode.Object.{decode_object}
use ob_dump.Dump.Delivered.{Delivery}
use ob_dump.Dump.Stopped.{Stopped, goes_on, stops}
use ob_dump.Api.{c_string, ObDumpRecordCallback, as_record_callback, ob_dump_stream}
use ob_dump.Api.Stops.{ob_dump_stream-stops}
use ob_dump.Examples.Sample.{doc_json, byte_tables, nested_numbers, store_of, sample_store}
use ob_dump.Examples.Programs.{sample_json, idle, enough, source}

-- It goes on at the object 1 only, and counts its calls.
abbrev first_only : ObDumpRecordCallback ℕ
first_only name (pos id) fields n = (pos (id - 1), n + 1)
first_only name id fields n = (pos 1, n + 1)

abbrev pub person : EntityDef
person = record { entity_id = pos 1; name = codes "Person"; properties = []; relations = [] }

abbrev pub schema : Schema
schema = record { entities_by_id = person ∷ [] }

abbrev pub inside_reader : Handles
inside_reader = record { envs = 1; txns = 1; cursors = 1 }

abbrev delivery : ℕ → Delivery
delivery id = record { name = codes "Person"; object_id = id; fields = codes "{}" }

stopping :
    Stopped sample_json byte_tables nested_numbers sample_store
      (codes "data.mdb")
      (as_record_callback first_only)
      schema
      (objects (sample_store.first (codes "data.mdb")))
      (delivery 1 ∷ delivery 2 ∷ [])
      0
      2
      inside_reader
      inside_reader
unfolding objects is_data_key record_of read_uint32_be store_of find record_json stream_json
    decode_object doc_json byte_tables as_record_callback c_string eqb
stopping =
    goes_on person _ (codes "{}") refl refl refl refl
      (stops person _ (codes "{}") refl refl refl refl)

ob_dump_stream-stops_example :
    let (rc, q) =
      ob_dump_stream sample_json byte_tables nested_numbers sample_store enough
        (some source)
        (some (codes "{}"))
        (some first_only)
        idle in
    (rc ≡ pos 0) × (q.last_error ≡ []) × (q.user ≡ 2) × (q.blocks ≡ 0)
unfolding c_string parse doc_json eqb parse_leading_id open_reader store_of check
ob_dump_stream-stops_example =
    ob_dump_stream-stops sample_json byte_tables nested_numbers sample_store enough source
      (codes "data.mdb") (codes "{}") first_only idle schema (delivery 1 ∷ delivery 2 ∷ []) 2
      inside_reader refl refl refl refl stopping
