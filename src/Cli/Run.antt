-- ===== src/Cli/Run.antt =====
-- The modes of main.c, and `main`.
pub mod Releases
pub mod Output
use ob_dump.Base.{
  ℕ, ◌+◌, List, [], ◌∷◌, Bool, true, false, ◌&&◌, Option, none, some, Bytes, codes, ◌++◌, length,
  get_or, ltb, leb, eqb, if◌then◌else◌,
}
use ob_dump.Base.Int.{ℤ, pos, eqb_ℤ}
use ob_dump.Json.{JsonLib}
use ob_dump.Lmdb.{LmdbLib}
use ob_dump.Decode.{FlatLib, FlexLib}
use ob_dump.Api.{
  Process, freed, ObDumpSource, source_path, from_path, terminated, ob_dump_schema, ob_dump_fbs,
  ob_dump_stream, ob_dump_last_error,
}
use ob_dump.Cli.{
  Host, Io, on_io, file_closed, output_opened, print_error, Out, to_stdout, to_file, fputs,
  close_out,
}
use ob_dump.Cli.Files.{read_file, no_output, write_result_and_free}
use ob_dump.Cli.Stream.{JsonStreamCtx, start_ctx, json_stream_cb, closing}

-- `argv[k]`, where `argc` has been looked at.
abbrev arg : List Bytes → ℕ → Bytes
arg argv k = get_or argv k []

abbrev usage_text : Bytes → Bytes
usage_text argv0 =
    codes "usage: "
    ++ argv0
    ++ codes " --json   <base>.mdb <objectbox-model.json> [-o <out.json>]\n"
    ++ codes "       "
    ++ argv0
    ++ codes " --schema <objectbox-model.json> [-o <out.json>]\n"
    ++ codes "       "
    ++ argv0
    ++ codes " --fbs    <objectbox-model.json> [-o <out.fbs>]\n"

unfoldable pub print_usage : Bytes → Process Io → Process Io
print_usage argv0 = print_error (usage_text argv0)

-- `-o` as argument `k` with a name behind it.
unfoldable pub out_path_at : ℕ → List Bytes → Option Bytes
out_path_at k argv =
    if leb (k + 2) (length argv) && eqb (arg argv k) (codes "-o")
    then some (arg argv (k + 1))
    else none

abbrev usage : List Bytes → Process Io → ℤ × Process Io
usage argv p = (pos 2, print_usage (arg argv 0) p)

abbrev no_model : Bytes → Bytes
no_model path = codes "error: cannot read model json file: " ++ path ++ codes "\n"

abbrev error_line : Process Io → Process Io
error_line p = print_error (codes "error: " ++ ob_dump_last_error p ++ codes "\n") p

module _ (H : Host) where
  -- What `run_schema_or_fbs` does with a result.
  deliver : Option Bytes → Option Bytes → Process Io → ℤ × Process Io
  deliver none out_path p = (pos 1, error_line p)
  deliver (some result) out_path p = write_result_and_free H result out_path p

  -- The `out` of `run_json`, if it can be had.
  open_out : Option Bytes → Process Io → Option Out × Process Io
  open_out none p = (some to_stdout, p)
  open_out (some path) p =
      if H.fopen_wb path
      then (some to_file, output_opened p)
      else (none, print_error (no_output H path) p)

-- The stream behind an `Out`, and what is left in it.
abbrev pub text_of : Out → Io → Bytes
text_of to_stdout io = io.stdout
text_of to_file io = io.file

abbrev with_text : Out → Bytes → Io → Io
with_text to_stdout text io = record io { stdout = text }
with_text to_file text io = record io { file = text }

abbrev partial_note : Bool → Process Io → Process Io
partial_note wrote_any_entity p =
    if wrote_any_entity
    then print_error (codes "note: partial output may already have been written\n") p
    else p

-- The end of `run_json`, from the return code on.
end_json : ℤ → Out → JsonStreamCtx → Process Io → ℤ × Process Io
end_json rc out ctx p =
    if eqb_ℤ rc (pos 0)
    then (pos 0, close_out out (fputs (closing ctx.wrote_any_entity) out p))
    else (pos 1, close_out out (partial_note ctx.wrote_any_entity (error_line p)))

module _ {F : Type 0} (J : JsonLib F) (B : FlatLib F) (X : FlexLib F) (L : LmdbLib) (H : Host) where
  -- `is_schema ? ob_dump_schema(model_json) : ob_dump_fbs(model_json)`
  make : Bool → Bytes → Process Io → Option Bytes × Process Io
  make is_schema model_json p =
      if is_schema
      then ob_dump_schema J B X L H.malloc (some model_json) p
      else ob_dump_fbs J B X L H.malloc (some model_json) p

  -- From the test of `model_json` on.
  model_read : Bool → Bytes → Option Bytes → Option Bytes → Process Io → ℤ × Process Io
  model_read is_schema model_path out_path none p = (pos 1, print_error (no_model model_path) p)
  model_read is_schema model_path out_path (some text) p =
      let (result, q) = make is_schema text p in deliver H result out_path (freed q)

  run_model : Bool → Bytes → Option Bytes → Process Io → ℤ × Process Io
  run_model is_schema model_path out_path p =
      let (model_json, q) = read_file H model_path p in
      model_read is_schema model_path out_path model_json q

  unfoldable pub run_schema_or_fbs : List Bytes → Bool → Process Io → ℤ × Process Io
  unfolding run_model model_read make deliver
  run_schema_or_fbs argv is_schema p =
      if ltb (length argv) 3
      then usage argv p
      else run_model is_schema (arg argv 2) (out_path_at 3 argv) p

  abbrev path_source : Bytes → ObDumpSource
  path_source mdb_path = record {
    kind = source_path;
    location = from_path (some (terminated mdb_path));
  }

  abbrev with_ctx : JsonStreamCtx → Process Io → Process JsonStreamCtx
  with_ctx ctx p = record {
    last_error = p.last_error;
    handles = p.handles;
    blocks = p.blocks;
    user = ctx;
  }

  abbrev with_io : Io → Process JsonStreamCtx → Process Io
  with_io io p = record {
    last_error = p.last_error;
    handles = p.handles;
    blocks = p.blocks;
    user = io;
  }

  -- `run_json` from the call of `ob_dump_stream` on.
  unfoldable pub stream_to : Bytes → Bytes → Out → Process Io → ℤ × Process Io
  unfolding end_json
  stream_to mdb_path model_json out p =
      let (rc, q) =
        ob_dump_stream J B X L H.malloc (some (path_source mdb_path)) (some model_json)
          (some json_stream_cb) (with_ctx (start_ctx (text_of out p.user)) p) in
      end_json rc out q.user (freed (with_io (with_text out q.user.out p.user) q))

  -- From the opened output on.
  dump_to : Bytes → Bytes → Option Out → Process Io → ℤ × Process Io
  dump_to mdb_path model_json none p = (pos 1, freed p)
  dump_to mdb_path model_json (some out) p = stream_to mdb_path model_json out p

  -- From the test of `model_json` on.
  json_read : Bytes → Bytes → Option Bytes → Option Bytes → Process Io → ℤ × Process Io
  json_read mdb_path model_path out_path none p = (pos 1, print_error (no_model model_path) p)
  json_read mdb_path model_path out_path (some text) p =
      let (out, q) = open_out H out_path p in dump_to mdb_path text out q

  run_model_json : Bytes → Bytes → Option Bytes → Process Io → ℤ × Process Io
  run_model_json mdb_path model_path out_path p =
      let (model_json, q) = read_file H model_path p in
      json_read mdb_path model_path out_path model_json q

  unfoldable pub run_json : List Bytes → Process Io → ℤ × Process Io
  unfolding run_model_json json_read dump_to open_out stream_to end_json
  run_json argv p =
      if ltb (length argv) 4
      then usage argv p
      else run_model_json (arg argv 2) (arg argv 3) (out_path_at 4 argv) p

  abbrev unknown_mode : Bytes → Bytes
  unknown_mode mode = codes "error: unknown mode '" ++ mode ++ codes "'\n"

  unfoldable pub main : List Bytes → Process Io → ℤ × Process Io
  unfolding run_schema_or_fbs run_json
  main argv p =
      if ltb (length argv) 2
      then usage argv p
      else if eqb (arg argv 1) (codes "--json")
      then run_json argv p
      else if eqb (arg argv 1) (codes "--schema")
      then run_schema_or_fbs argv true p
      else if eqb (arg argv 1) (codes "--fbs")
      then run_schema_or_fbs argv false p
      else (pos 2, print_usage (arg argv 0) (print_error (unknown_mode (arg argv 1)) p))
