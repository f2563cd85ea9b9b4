-- ===== src/Examples/Programs.antt =====
-- The theorems on the C interface and the command line program, at small runs.
use ob_dump.Base.{refl, ℕ, ◌≡◌, List, [], ◌∷◌, eqb, ◌++◌, Bool, true, some, Bytes, codes, arith}
use ob_dump.Base.Int.{ℤ, pos}
use ob_dump.Lmdb.Handles.{Handles, check}
use ob_dump.Api.{
  c_string, terminated, as_record_callback, ObDumpSource, source_path, from_path, Process,
  ObDumpRecordCallback, ob_dump_json, ob_dump_schema, ob_dump_fbs, ob_dump_stream,
}
use ob_dump.Api.Contract.Settled.{
  Settled, json_attempt, text_attempt, no_schema_model, no_fbs_model, results-Settled,
}
use ob_dump.SchemaJson.{schema_to_json}
use ob_dump.Fbs.{generate_fbs}
use ob_dump.Api.Streams.{Returns, ob_dump_stream-Returns}
use ob_dump.Cli.{Host, Io, to_stdout}
use ob_dump.Json.{JsonLib}
use ob_dump.Schema.Ids.{parse_leading_id}
use ob_dump.Schema.Parse.{find, parse}
use ob_dump.Lmdb.Reader.{open_reader, close_reader}
use ob_dump.Lmdb.Walk.{for_each_object}
use ob_dump.Dump.{record_json, stream_json, stream_record, stream_callback, dump_streaming}
use ob_dump.Decode.Object.{decode_object}
use ob_dump.Cli.Stream.{json_stream_cb, start_ctx, closing}
use ob_dump.Cli.Stream.Groups.{Group, feed, calls, document, feed-document}
use ob_dump.Cli.Run.{main, stream_to}
use ob_dump.Cli.Run.Output.{Outcome, stream_to-Written}
use ob_dump.Cli.Run.Releases.{Holds, main-Holds}
use ob_dump.Examples.Sample.{
  Doc, object, array, item, text, end, store_of, doc_json, text_json, byte_tables, nested_numbers,
  sample_store,
}

abbrev pub closed : Handles
closed = record { envs = 0; txns = 0; cursors = 0 }

abbrev pub idle : Process ℕ
idle = record { last_error = []; handles = closed; blocks = 0; user = 0 }

abbrev pub enough : ℕ → Bool
enough size = true

abbrev pub source : ObDumpSource
source = record { kind = source_path; location = from_path (some (codes "data.mdb")) }

results-Settled_example :
    Settled enough idle
      (json_attempt text_json byte_tables nested_numbers sample_store enough
        (some source)
        (some (codes "{}"))
        idle)
      (ob_dump_json text_json byte_tables nested_numbers sample_store enough
        (some source)
        (some (codes "{}"))
        idle)
    × Settled enough idle
        (text_attempt text_json byte_tables nested_numbers sample_store enough no_schema_model
          (schema_to_json text_json)
          (some (codes "{}"))
          idle)
        (ob_dump_schema text_json byte_tables nested_numbers sample_store enough
          (some (codes "{}"))
          idle)
    × Settled enough idle
        (text_attempt text_json byte_tables nested_numbers sample_store enough no_fbs_model
          (generate_fbs text_json)
          (some (codes "{}"))
          idle)
        (ob_dump_fbs text_json byte_tables nested_numbers sample_store enough
          (some (codes "{}"))
          idle)
results-Settled_example =
    results-Settled text_json byte_tables nested_numbers sample_store enough (some source)
      (some (codes "{}")) idle

-- A callback that counts and stops.
abbrev count : ObDumpRecordCallback ℕ
count name id fields n = (pos 1, 1)

abbrev streamed : ℤ × Process ℕ
streamed =
    ob_dump_stream text_json byte_tables nested_numbers sample_store enough (some source)
      (some (codes "{}")) (some count) idle

ob_dump_stream-Returns_example :
    (streamed.1.blocks ≡ 0)
    × Returns text_json byte_tables nested_numbers sample_store enough streamed.0 streamed.1
        (some source)
        (some (codes "{}"))
        (some count)
        idle
ob_dump_stream-Returns_example =
    ob_dump_stream-Returns text_json byte_tables nested_numbers sample_store enough (some source)
      (some (codes "{}")) (some count) idle

abbrev people : Group
people = record { name = codes "Person"; first = codes "{1}"; others = codes "{2}" ∷ [] }

abbrev tasks : Group
tasks = record { name = codes "Task"; first = codes "{3}"; others = [] }

nonempty : (b : ℕ) (s : Bytes) → ¬ (b ∷ s ≡ [])
nonempty b s h = cc

heads_differ : ¬ (codes "Person" ≡ codes "Task")
heads_differ h = cc

feed-document_example :
    (feed (calls (people ∷ tasks ∷ [])) (start_ctx [])).out
      ++ closing (feed (calls (people ∷ tasks ∷ [])) (start_ctx [])).wrote_any_entity
    ≡ document (people ∷ tasks ∷ [])
feed-document_example =
    feed-document [] (people ∷ tasks ∷ [])
      ((nonempty _ _, omega arith, λ h. cc), ((nonempty _ _, omega arith, heads_differ), tt))

-- Every file holds `{}`.
abbrev host : Host
host = record {
  fopen_rb = λ _. true;
  fseek_end = λ _. true;
  ftell = λ _. pos 2;
  fseek_set = λ _. true;
  malloc = enough;
  fread = λ _ _. codes "{}";
  fopen_wb = λ _. true;
}

abbrev begun : Process Io
begun = record {
  last_error = [];
  handles = closed;
  blocks = 0;
  user = record { stdout = []; stderr = []; file = []; open_files = 0 };
}

abbrev argv : List Bytes
argv = codes "ob_dump" ∷ codes "--json" ∷ codes "data.mdb" ∷ codes "model.json" ∷ []

main-Holds_example :
    Holds 0 begun (main text_json byte_tables nested_numbers sample_store host argv begun).1
main-Holds_example = main-Holds text_json byte_tables nested_numbers sample_store host argv begun

-- A model with the entity of the sample store's records, without properties.
abbrev pub model : Doc
model = object (
    item (codes "entities")
      (array (
        item []
          (object (
            item (codes "id") (text (codes "1:9")) (
              item (codes "name") (text (codes "Person"))
                (item (codes "properties") (array end) end))))
          end))
      end)

abbrev pub sample_json : JsonLib ℕ
sample_json = doc_json model

abbrev ran : ℤ × Process Io
ran =
    stream_to sample_json byte_tables nested_numbers sample_store host (codes "data.mdb")
      (codes "{}") to_stdout begun

stream_to-Written_example :
    Outcome sample_json byte_tables nested_numbers sample_store host
      (c_string (terminated (codes "data.mdb")))
      (codes "{}")
      to_stdout
      begun
      ran.1
unfolding stream_to ob_dump_stream dump_streaming parse find for_each_object open_reader
    close_reader stream_record stream_callback record_json stream_json decode_object
    as_record_callback json_stream_cb doc_json byte_tables nested_numbers store_of eqb
    parse_leading_id check c_string
stream_to-Written_example =
    stream_to-Written sample_json byte_tables nested_numbers sample_store host (codes "data.mdb")
      (codes "{}") to_stdout begun refl
