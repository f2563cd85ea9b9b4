-- ===== src/Api.antt =====
-- ob_dump.h and ob_dump.cpp: the C interface.
pub mod Contract
pub mod Streams
pub mod Client
pub mod Stops
pub mod Dumps
use ob_dump.Base.{
  ℕ, ◌+◌, ◌-◌, List, [], ◌∷◌, ◌++◌, Bool, true, false, Option, none, some, ◌⊎◌, inl, inr, Bytes,
  codes, length, ◌==◌, if◌then◌else◌,
}
use ob_dump.Base.Int.{ℤ, pos, negsuc, eqb_ℤ}
use ob_dump.Base.Exec.{Exception, std_exception, parse_error, unknown, Result, ok, err}
use ob_dump.Base.State.{Exec, lift}
use ob_dump.Json.{JsonLib}
use ob_dump.Lmdb.{LmdbLib}
use ob_dump.Lmdb.Handles.{Handles, St}
use ob_dump.Decode.{FlatLib, FlexLib}
use ob_dump.Dump.{RecordCallback, dump_to_json, dump_streaming}
use ob_dump.Fbs.{generate_fbs}
use ob_dump.SchemaJson.{schema_to_json}

-- The C string at the start of some memory: what stands before the first NUL.
unfoldable pub c_string : Bytes → Bytes
c_string [] = []
c_string (b ∷ bs) = let rest = c_string bs in if b == 0 then [] else b ∷ rest

pub data ObDumpSourceKind : Type 0 where
  source_path source_buffer : ObDumpSourceKind

pub record ObDumpBuffer : Type 0 where
  pub data_pointer : Option Bytes
  pub size : ℕ

-- The union `as`, the field `location` below: the member that was written last.
pub data SourceAs : Type 0 where
  from_path : Option Bytes → SourceAs
  from_buffer : ObDumpBuffer → SourceAs

pub record ObDumpSource : Type 0 where
  pub kind : ObDumpSourceKind
  pub location : SourceAs

-- `as.path`: both members begin with a pointer.
abbrev pub as_path : SourceAs → Option Bytes
as_path (from_path p) = p
as_path (from_buffer b) = b.data_pointer

-- What the callback returns, 0 to go on, and what it does to the user's data.
abbrev pub ObDumpRecordCallback : Type 0 → Type 0
ObDumpRecordCallback U = Bytes → ℤ → Bytes → U → ℤ × U

-- `g_lastError`, the open LMDB objects, the blocks that are allocated, and the user's data.
pub record Process (U : Type 0) : Type 0 where
  pub last_error : Bytes
  pub handles : Handles
  pub blocks : ℕ
  pub user : U

abbrev pub allocated : {U : Type 0} → Process U → Process U
allocated p = record p { blocks = p.blocks + 1 }

abbrev pub freed : {U : Type 0} → Process U → Process U
freed p = record p { blocks = p.blocks - 1 }

abbrev pub failed : {U A : Type 0} → A → Bytes → Process U → A × Process U
failed r message p = (r, record p { last_error = message })

-- `e.what()`, or the message for anything else.
abbrev pub caught : Bytes → Exception → Bytes
caught other (std_exception message) = c_string message
caught other (parse_error message) = c_string message
caught other unknown = other

-- A string that ends with the NUL that is put behind it.
abbrev pub terminated : Bytes → Bytes
terminated text = text ++ 0 ∷ []

module _ {U : Type 0} (malloc : ℕ → Bool) where
  abbrev copy_out : Bytes → Process U → Option Bytes × Process U
  copy_out text p =
      if malloc (length text + 1)
      then (some (terminated text), allocated p)
      else failed none (codes "ob_dump: out of memory") p

  abbrev pub outcome : Result Bytes → Process U → Option Bytes × Process U
  outcome (ok text) p = copy_out text p
  outcome (err e) p = failed none (caught (codes "ob_dump: unknown error") e) p

  -- The body's own data starts at `start` and is gone when it returns.
  unfoldable pub run_catching_errors :
      {W : Type 0} → W → Exec (St W) Bytes → Process U → Option Bytes × Process U
  run_catching_errors start body p =
      let (r, s) = body (record { handles = p.handles; user = start }) in
      outcome r (record p { handles = s.handles })

-- The lambda that `dumpStreaming` is given.
unfoldable pub as_record_callback : {U : Type 0} → ObDumpRecordCallback U → RecordCallback U
as_record_callback callback entity_name object_id fields_json u =
    let (rc, u') = callback (c_string entity_name) (pos object_id) (c_string fields_json) u in
    (eqb_ℤ rc (pos 0), u')

abbrev pub null_argument : Bytes
null_argument = codes "ob_dump: source and model_json must not be null"

abbrev pub no_buffer : Bytes
no_buffer = codes "ob_dump: OB_DUMP_SOURCE_BUFFER is not implemented yet (see docs/BACKLOG.md)"

abbrev pub null_path : Bytes
null_path = codes "ob_dump: source path must not be null"

abbrev pub stream_null_argument : Bytes
stream_null_argument = codes "ob_dump_stream: source, model_json, and callback must not be null"

abbrev pub stream_no_buffer : Bytes
stream_no_buffer =
    codes "ob_dump_stream: OB_DUMP_SOURCE_BUFFER is not implemented yet (see docs/BACKLOG.md)"

abbrev pub stream_null_path : Bytes
stream_null_path = codes "ob_dump_stream: source path must not be null"

-- The checks of a source, with the messages of the function that makes them: the path, or the
-- message of the check that fails.
abbrev pub checked_path : Bytes → Bytes → ObDumpSource → Bytes ⊎ Bytes
checked_path wrong_kind no_path source = elim source.kind [
  | source_buffer ↦ inl wrong_kind
  | source_path ↦ elim (as_path source.location) [ none ↦ inl no_path | some p ↦ inr (c_string p) ]
]

module _ {F : Type 0} (J : JsonLib F) (B : FlatLib F) (X : FlexLib F) (L : LmdbLib)
    (malloc : ℕ → Bool) {U : Type 0} where
  -- `ob_dump` itself.
  unfoldable pub ob_dump_json :
      Option ObDumpSource → Option Bytes → Process U → Option Bytes × Process U
  ob_dump_json none model_json p = failed none null_argument p
  ob_dump_json (some source) none p = failed none null_argument p
  ob_dump_json (some source) (some model_json) p = elim (checked_path no_buffer null_path source) [
    | inl message ↦ failed none message p
    | inr path ↦
        run_catching_errors malloc J.object (dump_to_json J B X L path (c_string model_json)) p
  ]

  unfoldable pub ob_dump_schema : Option Bytes → Process U → Option Bytes × Process U
  ob_dump_schema none p = failed none (codes "ob_dump_schema: model_json must not be null") p
  ob_dump_schema (some model_json) p =
      run_catching_errors malloc tt (lift (schema_to_json J (c_string model_json))) p

  unfoldable pub ob_dump_fbs : Option Bytes → Process U → Option Bytes × Process U
  ob_dump_fbs none p = failed none (codes "ob_dump_fbs: model_json must not be null") p
  ob_dump_fbs (some model_json) p =
      run_catching_errors malloc tt (lift (generate_fbs J (c_string model_json))) p

  abbrev pub stream_outcome : Result (Unit {0}) → Process U → ℤ × Process U
  stream_outcome (ok _) p = (pos 0, p)
  stream_outcome (err e) p = failed (negsuc 0) (caught (codes "ob_dump_stream: unknown error") e) p

  unfoldable pub stream_path : Bytes → Bytes → ObDumpRecordCallback U → Process U → ℤ × Process U
  stream_path path model_json callback p =
      let (r, s) =
        dump_streaming J B X L (as_record_callback callback) path (c_string model_json)
          (record { handles = p.handles; user = p.user }) in
      stream_outcome r (record p { handles = s.handles; user = s.user })

  unfoldable pub ob_dump_stream :
      Option ObDumpSource
      → Option Bytes
      → Option (ObDumpRecordCallback U)
      → Process U
      → ℤ × Process U
  unfolding stream_path
  ob_dump_stream (some source) (some model_json) (some callback) p =
      elim (checked_path stream_no_buffer stream_null_path source) [
        | inl message ↦ failed (negsuc 0) message p
        | inr path ↦ stream_path path model_json callback p
      ]
  ob_dump_stream source model_json callback p = failed (negsuc 0) stream_null_argument p

-- `free` of a null pointer does nothing.
unfoldable pub ob_dump_free : {U : Type 0} → Option Bytes → Process U → Process U
ob_dump_free none p = p
ob_dump_free (some block) p = freed p

unfoldable pub ob_dump_last_error : {U : Type 0} → Process U → Bytes
ob_dump_last_error p = c_string p.last_error

-- The fallback of the macro that the build defines.
unfoldable pub ob_dump_version : Bytes
ob_dump_version = codes "0.1.0-alpha.1"
