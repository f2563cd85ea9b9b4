-- ===== src/Examples/Stores.antt =====
-- The theorems on whole dumps, at a store of two records.
use ob_dump.Base.{List, ℕ, ◌≡◌, refl, some, true, [], ◌∷◌, Bytes, codes, eqb}
use ob_dump.Base.Exec.{Result}
use ob_dump.Schema.Ids.{parse_leading_id}
use ob_dump.Schema.Parse.{find, parse}
use ob_dump.Lmdb.Handles.{St}
use ob_dump.Lmdb.Balance.{IsBalanced, handles_of}
use ob_dump.Lmdb.Balance.Reader.{Prepares}
use ob_dump.Dump.{RecordCallback, dump_to_json, dump_streaming}
use ob_dump.Decode.Object.{decode_object}
use ob_dump.Dump.Balance.{dumps-IsBalanced}
use ob_dump.Examples.Sample.{
  doc_json, doc_ArrayLaws, doc_ObjectLaws, byte_tables, nested_numbers, store_of, sample_store,
}
use ob_dump.Dump.Collected.{Collected, kept, done}
use ob_dump.Lmdb.Walk.{objects, is_data_key, record_of, finish}
use ob_dump.Lmdb.Keys.{read_uint32_be}
use ob_dump.Lmdb.Handles.{Handles, check}
use ob_dump.Lmdb.Reader.{open_reader}
use ob_dump.Json.{Number}
use ob_dump.Base.Int.{pos}
use ob_dump.Dump.{record_json}
use ob_dump.Decode.Object.{decode_object}
use ob_dump.Api.{c_string}
use ob_dump.Examples.Stops.{person, schema, inside_reader}
use ob_dump.Api.Dumps.{block_of, ob_dump_json-succeeds, Returned, ob_dump_json-Returned}
use ob_dump.Api.{ObDumpSource, run_catching_errors, terminated, ob_dump_json, ob_dump_free}
use ob_dump.Api.Client.Session.{Client, Accounts, dumps, frees, here, next, session-Accounts}
use ob_dump.Examples.Programs.{idle, enough, source, model, sample_json}

abbrev start : St (sample_json.Value)
start = record { handles = record { envs = 0; txns = 0; cursors = 0 }; user = sample_json.null }

abbrev dumped : Result Bytes × St (sample_json.Value)
dumped =
    dump_to_json sample_json byte_tables nested_numbers sample_store (codes "data.mdb") (codes "{}")
      start

abbrev counting : RecordCallback ℕ
counting name id fields n = (true, id)

prepared : (path : Bytes) → Prepares sample_store path
unfolding store_of
prepared path = record { maxdbs = refl; mapsize = refl; stat = refl }

dumps-IsBalanced_example :
    IsBalanced handles_of (
      dump_to_json sample_json byte_tables nested_numbers sample_store
        (codes "data.mdb")
        (codes "{}"))
    × IsBalanced handles_of (
        dump_streaming sample_json byte_tables nested_numbers sample_store counting
          (codes "data.mdb")
          (codes "{}"))
dumps-IsBalanced_example =
    dumps-IsBalanced sample_json byte_tables nested_numbers sample_store counting (codes "data.mdb")
      (codes "{}") (prepared (codes "data.mdb"))

-- A client that dumps the store and then frees the text.
abbrev dump_text : Bytes
dump_text = terminated (codes "{}")

abbrev holding : Client ℕ
holding = record { process = record idle { blocks = 1 }; owned = dump_text ∷ [] }

abbrev settled : Client ℕ
settled = record { process = idle; owned = [] }

session-Accounts_example : Accounts idle settled
unfolding ob_dump_json run_catching_errors ob_dump_free dump_to_json parse doc_json eqb
    parse_leading_id store_of find decode_object byte_tables nested_numbers
session-Accounts_example =
    session-Accounts sample_json byte_tables nested_numbers sample_store enough prepared idle
      settled
      (next
        (next here
          (dumps (some source) (some (codes "{}")) (record { process = idle; owned = [] })))
        (frees [] [] dump_text holding.process))

ob_dump_json-Returned_example :
    (s : ObDumpSource) × (m : Bytes) × (some source ≡ some s)
    × (some (codes "{}") ≡ some m)
    × Returned sample_json byte_tables nested_numbers sample_store
        (doc_ArrayLaws model)
        (doc_ObjectLaws model)
        s
        m
        dump_text
unfolding ob_dump_json run_catching_errors dump_to_json parse doc_json eqb parse_leading_id store_of
    find decode_object byte_tables nested_numbers
ob_dump_json-Returned_example =
    ob_dump_json-Returned sample_json byte_tables nested_numbers sample_store enough
      (doc_ArrayLaws model) (doc_ObjectLaws model) (some source) (some (codes "{}")) dump_text idle
      (record idle { blocks = 1 }) refl

abbrev record_of_id : ℕ → sample_json.Value
record_of_id id =
    sample_json.set sample_json.object (codes "id") (sample_json.number (Number.int (pos id)))

abbrev docs : List (Bytes × sample_json.Value)
docs = (codes "Person", record_of_id 1) ∷ (codes "Person", record_of_id 2) ∷ []

collected :
    Collected sample_json byte_tables nested_numbers sample_store
      (codes "data.mdb")
      schema
      (objects (sample_store.first (codes "data.mdb")))
      docs
      inside_reader
      inside_reader
unfolding objects is_data_key record_of read_uint32_be store_of find record_json decode_object
    doc_json byte_tables
collected = kept person _ refl refl (kept person _ refl refl done)

ob_dump_json-succeeds_example :
    (h : Handles) × (ob_dump_json sample_json byte_tables nested_numbers sample_store enough
        (some source)
        (some (codes "{}"))
        idle
      ≡ block_of dump_text (record idle { handles = h; blocks = 1 }))
unfolding parse doc_json eqb parse_leading_id store_of open_reader check c_string finish
ob_dump_json-succeeds_example =
    ob_dump_json-succeeds sample_json byte_tables nested_numbers sample_store enough source
      (codes "data.mdb") (codes "{}") (codes "{}") schema docs idle inside_reader refl
      (record { opens = refl; cursor = refl; ends = refl }) refl collected refl refl
