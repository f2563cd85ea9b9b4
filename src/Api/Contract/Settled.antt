-- ===== src/Api/Contract/Settled.antt =====
-- ob_dump.cpp: what the three functions that return a string do on every branch.
use ob_dump.Base.{
  ℕ, ◌+◌, Bool, true, false, Option, none, some, ◌⊎◌, inl, inr, Bytes, codes, length, if◌then◌else◌,
  ◌≡◌, refl,
}
use ob_dump.Base.Exec.{Exception, Result, ok, err}
use ob_dump.Base.State.{Exec, lift}
use ob_dump.Json.{JsonLib}
use ob_dump.Lmdb.{LmdbLib}
use ob_dump.Lmdb.Handles.{Handles, St}
use ob_dump.Decode.{FlatLib, FlexLib}
use ob_dump.Dump.{dump_to_json}
use ob_dump.SchemaJson.{schema_to_json}
use ob_dump.Fbs.{generate_fbs}
use ob_dump.Api.{
  c_string, ObDumpSourceKind, source_buffer, source_path, as_path, ObDumpSource, Process, allocated,
  terminated, caught, run_catching_errors, outcome, ob_dump_json, ob_dump_schema, ob_dump_fbs,
  null_argument, no_buffer, null_path,
}

-- What a call is to settle: the message of a check that refuses its arguments, or what its body
-- ends with, and the LMDB objects that the body leaves open.
abbrev pub Attempt : Type 0
Attempt = Bytes ⊎ (Result Bytes × Handles)

-- How a call settles an attempt: what it returns, and the process that it leaves.
pub data Settled {U : Type 0} (malloc : ℕ → Bool) (p : Process U)
    : Attempt → Option Bytes × Process U → Type 0 where
  rejected :
      (message : Bytes) → Settled malloc p (inl message) (none, record p { last_error = message })
  thrown :
      (e : Exception) (h : Handles)
      → Settled malloc p
          (inr (err e, h))
          (none, record p { handles = h; last_error = caught (codes "ob_dump: unknown error") e })
  no_memory :
      (text : Bytes) (h : Handles)
      → malloc (length text + 1) ≡ false
      → Settled malloc p
          (inr (ok text, h))
          (none, record p { handles = h; last_error = codes "ob_dump: out of memory" })
  copied :
      (text : Bytes) (h : Handles)
      → malloc (length text + 1) ≡ true
      → Settled malloc p
          (inr (ok text, h))
          (some (terminated text), record p { handles = h; blocks = p.blocks + 1 })

abbrev pub no_schema_model : Bytes
no_schema_model = codes "ob_dump_schema: model_json must not be null"

abbrev pub no_fbs_model : Bytes
no_fbs_model = codes "ob_dump_fbs: model_json must not be null"

abbrev pub attempt : {W : Type 0} → Exec (St W) Bytes → St W → Attempt
attempt body s = inr ((body s).0, (body s).1.handles)

abbrev pub from_handles : {U W : Type 0} → W → Process U → St W
from_handles w p = record { handles = p.handles; user = w }

run_catching_errors-Settled :
    {U W : Type 0} (malloc : ℕ → Bool) (start : W) (body : Exec (St W) Bytes) (p : Process U)
    → Settled malloc p
        (attempt body (from_handles start p))
        (run_catching_errors malloc start body p)
unfolding run_catching_errors
run_catching_errors-Settled malloc start body p =
    by_result (body (from_handles start p)).0 (body (from_handles start p)).1.handles
  where
    by_memory :
        (text : Bytes) (h : Handles) (fits : Bool)
        → malloc (length text + 1) ≡ fits
        → Settled malloc p (inr (ok text, h)) (
            if fits
            then (some (terminated text), allocated (record p { handles = h }))
            else (none, record p { handles = h; last_error = codes "ob_dump: out of memory" }))
    by_memory text h true e = copied text h e
    by_memory text h false e = no_memory text h e

    by_result :
        (r : Result Bytes) (h : Handles)
        → Settled malloc p (inr (r, h)) (outcome malloc r (record p { handles = h }))
    by_result (ok text) h = by_memory text h (malloc (length text + 1)) refl
    by_result (err e) h = thrown e h

module _ {F : Type 0} (J : JsonLib F) (B : FlatLib F) (X : FlexLib F) (L : LmdbLib)
    (malloc : ℕ → Bool) {U : Type 0} where
  -- The attempt of `ob_dump` on a source of a kind with a pointer: only a path can be dumped.
  abbrev pub source_attempt : ObDumpSourceKind → Option Bytes → Bytes → Process U → Attempt
  source_attempt source_buffer pointer m p = inl no_buffer
  source_attempt source_path none m p = inl null_path
  source_attempt source_path (some path) m p =
      attempt (dump_to_json J B X L (c_string path) (c_string m)) (from_handles J.object p)

  abbrev pub json_attempt : Option ObDumpSource → Option Bytes → Process U → Attempt
  json_attempt none m p = inl null_argument
  json_attempt (some s) none p = inl null_argument
  json_attempt (some s) (some m) p = source_attempt s.kind (as_path s.location) m p

  -- That of `ob_dump_schema` and `ob_dump_fbs`, by what the model's text becomes.
  abbrev pub text_attempt : Bytes → (Bytes → Result Bytes) → Option Bytes → Process U → Attempt
  text_attempt message f none p = inl message
  text_attempt message f (some m) p = inr (f (c_string m), p.handles)

  source-Settled :
      (kind : ObDumpSourceKind) (pointer : Option Bytes) (m : Bytes) (p : Process U)
      → Settled malloc p
          (source_attempt kind pointer m p)
          (elim (elim kind as (λ k. Bytes ⊎ Bytes) [
            | source_buffer ↦ inl no_buffer
            | source_path ↦ elim pointer as (λ k. Bytes ⊎ Bytes) [
              | none ↦ inl null_path
              | some b ↦ inr (c_string b)
            ]
          ])
            as (λ k. Option Bytes × Process U) [
              | inl message ↦ (none, record p { last_error = message })
              | inr path ↦
                  run_catching_errors malloc J.object (dump_to_json J B X L path (c_string m)) p
            ])
  source-Settled source_buffer pointer m p = rejected no_buffer
  source-Settled source_path none m p = rejected null_path
  source-Settled source_path (some path) m p =
      run_catching_errors-Settled malloc J.object
        (dump_to_json J B X L (c_string path) (c_string m)) p

  ob_dump_json-Settled :
      (source : Option ObDumpSource) (m : Option Bytes) (p : Process U)
      → Settled malloc p (json_attempt source m p) (ob_dump_json J B X L malloc source m p)
  unfolding ob_dump_json
  ob_dump_json-Settled none m p = rejected null_argument
  ob_dump_json-Settled (some s) none p = rejected null_argument
  ob_dump_json-Settled (some s) (some m) p = source-Settled s.kind (as_path s.location) m p

  ob_dump_schema-Settled :
      (m : Option Bytes) (p : Process U)
      → Settled malloc p
          (text_attempt no_schema_model (schema_to_json J) m p)
          (ob_dump_schema J B X L malloc m p)
  unfolding ob_dump_schema
  ob_dump_schema-Settled none p = rejected no_schema_model
  ob_dump_schema-Settled (some m) p =
      run_catching_errors-Settled malloc tt (lift (schema_to_json J (c_string m))) p

  ob_dump_fbs-Settled :
      (m : Option Bytes) (p : Process U)
      → Settled malloc p
          (text_attempt no_fbs_model (generate_fbs J) m p)
          (ob_dump_fbs J B X L malloc m p)
  unfolding ob_dump_fbs
  ob_dump_fbs-Settled none p = rejected no_fbs_model
  ob_dump_fbs-Settled (some m) p =
      run_catching_errors-Settled malloc tt (lift (generate_fbs J (c_string m))) p

  -- Each of the three functions that return a string settles its attempt. Arguments that a check
  -- refuses give null and that check's message as the last error; an exception of the body gives null
  -- and its message; a malloc that fails gives null and "out of memory"; and otherwise the body's text
  -- with a NUL is in the one new block, and the last error is as it was. Besides that only the open
  -- LMDB objects can change, to those that the body leaves.
  pub results-Settled :
      (source : Option ObDumpSource) (m : Option Bytes) (p : Process U)
      → Settled malloc p (json_attempt source m p) (ob_dump_json J B X L malloc source m p)
        × Settled malloc p
            (text_attempt no_schema_model (schema_to_json J) m p)
            (ob_dump_schema J B X L malloc m p)
        × Settled malloc p
            (text_attempt no_fbs_model (generate_fbs J) m p)
            (ob_dump_fbs J B X L malloc m p)
  results-Settled source m p =
      (ob_dump_json-Settled source m p, ob_dump_schema-Settled m p, ob_dump_fbs-Settled m p)
