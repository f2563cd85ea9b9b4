-- ===== src/Cli/Run/Releases.antt =====
-- What the command line program allocates and opens, it frees and closes.
use mathlib.Core.Path.{subst}
use ob_dump.Base.{
  ℕ, ◌+◌, List, Bool, true, false, Option, none, some, Bytes, ◌≡◌, refl, ap, sym, ◌∙◌, arith, ltb,
  length, Bool-cases, inl, inr,
}
use ob_dump.Base.Int.{ℤ}
use ob_dump.Json.{JsonLib}
use ob_dump.Lmdb.{LmdbLib}
use ob_dump.Lmdb.Handles.{Handles}
use ob_dump.Decode.{FlatLib, FlexLib}
use ob_dump.Api.{Process, freed, ob_dump_schema, ob_dump_fbs, ob_dump_stream, ob_dump_free}
use ob_dump.Api.Contract.{returned, refused, results-Settle, Settles}
use ob_dump.Api.Streams.{ob_dump_stream-Returns}
use ob_dump.Cli.{Host, Io, Out, to_stdout, to_file}
use ob_dump.Cli.Files.{read_file, write_result_and_free}
use ob_dump.Cli.Stream.{JsonStreamCtx, start_ctx, json_stream_cb}
use ob_dump.Cli.Run.{
  deliver, open_out, end_json, make, print_usage, path_source, with_ctx, text_of, model_read,
  run_model, stream_to, with_text, arg, out_path_at, json_read, dump_to, run_model_json,
  run_schema_or_fbs, run_json, main,
}

-- `n` more blocks are allocated than before, and the same files are open.
abbrev pub Holds : ℕ → Process Io → Process Io → Type 0
Holds n p q = (q.blocks ≡ p.blocks + n) × (q.user.open_files ≡ p.user.open_files)

abbrev held : Option Bytes → ℕ
held none = 0
held (some text) = 1

module _ (H : Host) where
  read_file-Holds :
      (path : Bytes) (p : Process Io) → let (text, q) = read_file H path p in Holds (held text) p q
  unfolding read_file
  read_file-Holds path p = ground arith

  write_result_and_free-Holds :
      (result : Bytes) (out_path : Option Bytes) (p q : Process Io)
      → Holds 1 p q
      → Holds 0 p (write_result_and_free H result out_path q).1
  unfolding write_result_and_free ob_dump_free
  write_result_and_free-Holds result none p q h = ground arith
  write_result_and_free-Holds result (some path) p q h = ground arith

  deliver-Holds :
      (result out_path : Option Bytes) (p q : Process Io)
      → Holds (held result) p q
      → Holds 0 p (deliver H result out_path q).1
  unfolding deliver
  deliver-Holds none out_path p q h = h
  deliver-Holds (some result) out_path p q h = write_result_and_free-Holds result out_path p q h

Settles-Holds :
    (x : Option Bytes × Process Io) (p : Process Io) → Settles x p → Holds (held x.0) p x.1
Settles-Holds x p (returned text, h, e) =
    subst (λ (y : Option Bytes × Process Io). Holds (held y.0) p y.1) (sym e) (refl, refl)
Settles-Holds x p (refused message, h, e) =
    subst (λ (y : Option Bytes × Process Io). Holds (held y.0) p y.1) (sym e) (omega arith, refl)

module _ {F : Type 0} (J : JsonLib F) (B : FlatLib F) (X : FlexLib F) (L : LmdbLib) (H : Host) where
  make-Holds :
      (is_schema : Bool) (model_json : Bytes) (p : Process Io)
      → let (r, q) = make J B X L H is_schema model_json p in Holds (held r) p q
  unfolding make
  make-Holds true model_json p =
      Settles-Holds (ob_dump_schema J B X L H.malloc (some model_json) p) p
        (results-Settle J B X L H.malloc none (some model_json) p).1
  make-Holds false model_json p =
      Settles-Holds (ob_dump_fbs J B X L H.malloc (some model_json) p) p
        (results-Settle J B X L H.malloc none (some model_json) p).2

  freed-held :
      (r : Option Bytes) (p q s : Process Io)
      → Holds 1 p q
      → Holds (held r) q s
      → Holds (held r) p (freed s)
  freed-held r p q s h k = (omega (arith, h.0, k.0), k.1 ∙ h.1)

  model_read-Holds :
      (is_schema : Bool) (model_path : Bytes) (out_path text : Option Bytes) (p q : Process Io)
      → Holds (held text) p q
      → Holds 0 p (model_read J B X L H is_schema model_path out_path text q).1
  unfolding model_read
  model_read-Holds is_schema model_path out_path none p q h = h
  model_read-Holds is_schema model_path out_path (some text) p q h =
      let (result, r) = make J B X L H is_schema text q in
      deliver-Holds H result out_path p (freed r)
        (freed-held result p q r h (make-Holds is_schema text q))

  run_model-Holds :
      (is_schema : Bool) (model_path : Bytes) (out_path : Option Bytes) (p : Process Io)
      → Holds 0 p (run_model J B X L H is_schema model_path out_path p).1
  unfolding run_model
  run_model-Holds is_schema model_path out_path p =
      let (text, q) = read_file H model_path p in
      model_read-Holds is_schema model_path out_path text p q (read_file-Holds H model_path p)

  run_schema_or_fbs-Holds :
      (argv : List Bytes) (is_schema : Bool) (p : Process Io)
      → Holds 0 p (run_schema_or_fbs J B X L H argv is_schema p).1
  unfolding run_schema_or_fbs print_usage
  run_schema_or_fbs-Holds argv is_schema p = elim (Bool-cases (ltb (length argv) 3)) [
    | inl few ↦ rw few (omega arith, refl)
    | inr enough ↦ rw enough (run_model-Holds is_schema (arg argv 2) (out_path_at 3 argv) p)
  ]

  -- `n` blocks, and the output file if there is one.
  abbrev HoldsOut : ℕ → Out → Process Io → Process Io → Type 0
  HoldsOut n to_stdout p q = Holds n p q
  HoldsOut n to_file p q = (q.blocks ≡ p.blocks + n) × (q.user.open_files ≡ p.user.open_files + 1)

  abbrev HoldsOpened : Option Out → Process Io → Process Io → Type 0
  HoldsOpened none p q = Holds 1 p q
  HoldsOpened (some out) p q = HoldsOut 1 out p q

  end_json-Holds :
      (rc : ℤ) (out : Out) (ctx : JsonStreamCtx) (p q : Process Io)
      → HoldsOut 0 out p q
      → Holds 0 p (end_json rc out ctx q).1
  unfolding end_json
  end_json-Holds rc to_stdout ctx p q h = ground arith
  end_json-Holds rc to_file ctx p q h = ground arith

  HoldsOut-stream :
      (out : Out) (text last : Bytes) (handles : Handles) (n : ℕ) (p q : Process Io)
      → n ≡ q.blocks
      → HoldsOut 1 out p q
      → HoldsOut 0 out p (
          freed (record {
            last_error = last;
            handles = handles;
            blocks = n;
            user = with_text out text q.user;
          }))
  HoldsOut-stream to_stdout text last handles n p q e h = (omega (arith, e, h.0), h.1)
  HoldsOut-stream to_file text last handles n p q e h = (omega (arith, e, h.0), h.1)

  stream_to-Holds :
      (mdb_path model_json : Bytes) (out : Out) (p q : Process Io)
      → HoldsOut 1 out p q
      → Holds 0 p (stream_to J B X L H mdb_path model_json out q).1
  unfolding stream_to
  stream_to-Holds mdb_path model_json out p q h =
      let called =
        ob_dump_stream J B X L H.malloc (some (path_source J B X L H mdb_path)) (some model_json)
          (some json_stream_cb) (with_ctx J B X L H (start_ctx (text_of out q.user)) q) in
      end_json-Holds called.0 out called.1.user p _ (
        HoldsOut-stream out called.1.user.out called.1.last_error called.1.handles called.1.blocks p
          q (ob_dump_stream-Returns J B X L H.malloc _ _ _ _).0 h)

  open_out-HoldsOut :
      (out_path : Option Bytes) (p q : Process Io)
      → Holds 1 p q
      → HoldsOpened (open_out H out_path q).0 p (open_out H out_path q).1
  unfolding open_out
  open_out-HoldsOut none p q h = h
  open_out-HoldsOut (some path) p q h = elim (Bool-cases (H.fopen_wb path)) [
    | inl opened ↦ rw opened (h.0, ap (λ (n : ℕ). n + 1) h.1)
    | inr closed ↦ rw closed h
  ]

  dump_to-Holds :
      (mdb_path model_json : Bytes) (out : Option Out) (p q : Process Io)
      → HoldsOpened out p q
      → Holds 0 p (dump_to J B X L H mdb_path model_json out q).1
  unfolding dump_to
  dump_to-Holds mdb_path model_json none p q h = (omega (arith, h.0), h.1)
  dump_to-Holds mdb_path model_json (some out) p q h = stream_to-Holds mdb_path model_json out p q h

  json_read-Holds :
      (mdb_path model_path : Bytes) (out_path text : Option Bytes) (p q : Process Io)
      → Holds (held text) p q
      → Holds 0 p (json_read J B X L H mdb_path model_path out_path text q).1
  unfolding json_read
  json_read-Holds mdb_path model_path out_path none p q h = h
  json_read-Holds mdb_path model_path out_path (some text) p q h =
      let (out, r) = open_out H out_path q in
      dump_to-Holds mdb_path text out p r (open_out-HoldsOut out_path p q h)

  run_model_json-Holds :
      (mdb_path model_path : Bytes) (out_path : Option Bytes) (p : Process Io)
      → Holds 0 p (run_model_json J B X L H mdb_path model_path out_path p).1
  unfolding run_model_json
  run_model_json-Holds mdb_path model_path out_path p =
      let (text, q) = read_file H model_path p in
      json_read-Holds mdb_path model_path out_path text p q (read_file-Holds H model_path p)

  run_json-Holds : (argv : List Bytes) (p : Process Io) → Holds 0 p (run_json J B X L H argv p).1
  unfolding run_json print_usage
  run_json-Holds argv p = elim (Bool-cases (ltb (length argv) 4)) [
    | inl few ↦ rw few (omega arith, refl)
    | inr enough ↦ rw enough (run_model_json-Holds (arg argv 2) (arg argv 3) (out_path_at 4 argv) p)
  ]

  -- Whatever its arguments, files and store are, the program ends with as many allocated blocks and
  -- open files as it began with.
  pub main-Holds : (argv : List Bytes) (p : Process Io) → Holds 0 p (main J B X L H argv p).1
  unfolding main print_usage
  main-Holds argv p = ground (
    arith,
    run_json-Holds argv p,
    run_schema_or_fbs-Holds argv true p,
    run_schema_or_fbs-Holds argv false p,
  )
