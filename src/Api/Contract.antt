-- ===== src/Api/Contract.antt =====
-- What the C functions promise of their results and of the last error.
pub mod Settled
use ob_dump.Base.{
  ℕ, ◌+◌, [], ◌∷◌, Bool, true, false, Option, none, some, ◌⊎◌, inl, inr, Bytes, codes, length, ◌==◌,
  if◌then◌else◌, ◌≡◌, refl, ap, arith, Bool-cases,
}
use ob_dump.Base.Exec.{Exception, Result, ok, err}
use ob_dump.Base.State.{Exec, lift}
use ob_dump.Json.{JsonLib}
use ob_dump.Lmdb.{LmdbLib}
use ob_dump.Lmdb.Handles.{Handles, St}
use ob_dump.Decode.{FlatLib, FlexLib}
use ob_dump.Dump.{dump_to_json}
use ob_dump.SchemaJson.{schema_to_json}
use ob_dump.Fbs.{generate_fbs}
use ob_dump.Api.{
  c_string, ObDumpSourceKind, source_buffer, source_path, as_path, ObDumpSource, checked_path,
  Process, allocated, terminated, caught, run_catching_errors, outcome, ob_dump_json,
  ob_dump_schema, ob_dump_fbs, null_argument, no_buffer, null_path,
}

-- The string that a caller finds behind a returned pointer.
c_string-terminated : (text : Bytes) → c_string (terminated text) ≡ c_string text
unfolding c_string
c_string-terminated [] = refl
c_string-terminated (b ∷ bs) = elim (Bool-cases (b == 0)) [
  | inl z ↦ rw z refl
  | inr n ↦ rw n (ap (λ (s : Bytes). b ∷ s) (c_string-terminated bs))
]

-- What a call of one of the three functions that return a string ends with.
pub data Outcome : Type 0 where
  returned : Bytes → Outcome
  refused : Bytes → Outcome

abbrev pub settle : {U : Type 0} → Outcome → Process U → Option Bytes × Process U
settle (returned text) p = (some (terminated text), allocated p)
settle (refused message) p = (none, record p { last_error = message })

abbrev body_outcome : (ℕ → Bool) → Result Bytes → Outcome
body_outcome malloc (ok text) =
    if malloc (length text + 1) then returned text else refused (codes "ob_dump: out of memory")
body_outcome malloc (err e) = refused (caught (codes "ob_dump: unknown error") e)

module _ {U W : Type 0} (malloc : ℕ → Bool) (start : W) (body : Exec (St W) Bytes) where
  abbrev run_body : Process U → Result Bytes × St W
  run_body p = body (record { handles = p.handles; user = start })

  run_catching_errors-settle :
      (p : Process U)
      → run_catching_errors malloc start body p
        ≡ settle
            (body_outcome malloc (run_body p).0)
            (record p { handles = (run_body p).1.handles })
  unfolding run_catching_errors
  run_catching_errors-settle p = by_result (run_body p).0 (run_body p).1.handles
    where
      by_result :
          (r : Result Bytes) (h : Handles)
          → outcome malloc r (record p { handles = h })
            ≡ settle (body_outcome malloc r) (record p { handles = h })
      by_result (ok text) h = ground arith
      by_result (err e) h = refl

-- A call of a function that returns a string, as its caller sees it: the same user's data, some
-- LMDB objects open, and an outcome.
abbrev pub Settles : {U : Type 0} → Option Bytes × Process U → Process U → Type 0
Settles called p = (o : Outcome) × (h : Handles) × (called ≡ settle o (record p { handles = h }))

settled :
    {U W : Type 0} (malloc : ℕ → Bool) (start : W) (body : Exec (St W) Bytes) (p : Process U)
    → Settles (run_catching_errors malloc start body p) p
settled malloc start body p = (
  body_outcome malloc (run_body malloc start body p).0,
  (run_body malloc start body p).1.handles,
  run_catching_errors-settle malloc start body p,
)

refused_at_once :
    {U : Type 0} (message : Bytes) (p : Process U)
    → Settles (none, record p { last_error = message }) p
refused_at_once message p = (refused message, p.handles, refl)

module _ {F : Type 0} (J : JsonLib F) (B : FlatLib F) (X : FlexLib F) (L : LmdbLib)
    (malloc : ℕ → Bool) {U : Type 0} where
  ob_dump_json-Settles :
      (source : Option ObDumpSource) (model_json : Option Bytes) (p : Process U)
      → Settles (ob_dump_json J B X L malloc source model_json p) p
  unfolding ob_dump_json
  ob_dump_json-Settles none model_json p = refused_at_once null_argument p
  ob_dump_json-Settles (some source) none p = refused_at_once null_argument p
  ob_dump_json-Settles (some source) (some m) p = by_check (checked_path no_buffer null_path source)
    where
      by_check :
          (c : Bytes ⊎ Bytes)
          → Settles
              (elim c [
                | inl message ↦ (none, record p { last_error = message })
                | inr path ↦
                    run_catching_errors malloc J.object (dump_to_json J B X L path (c_string m)) p
              ])
              p
      by_check (inl message) = refused_at_once message p
      by_check (inr path) = settled malloc J.object (dump_to_json J B X L path (c_string m)) p

  ob_dump_schema-Settles :
      (model_json : Option Bytes) (p : Process U)
      → Settles (ob_dump_schema J B X L malloc model_json p) p
  unfolding ob_dump_schema
  ob_dump_schema-Settles none p = refused_at_once _ p
  ob_dump_schema-Settles (some m) p = settled malloc tt (lift (schema_to_json J (c_string m))) p

  ob_dump_fbs-Settles :
      (model_json : Option Bytes) (p : Process U)
      → Settles (ob_dump_fbs J B X L malloc model_json p) p
  unfolding ob_dump_fbs
  ob_dump_fbs-Settles none p = refused_at_once _ p
  ob_dump_fbs-Settles (some m) p = settled malloc tt (lift (generate_fbs J (c_string m))) p

  -- The three functions that return a string, as callers see them.
  pub results-Settle :
      (source : Option ObDumpSource) (model_json : Option Bytes) (p : Process U)
      → Settles (ob_dump_json J B X L malloc source model_json p) p
        × Settles (ob_dump_schema J B X L malloc model_json p) p
        × Settles (ob_dump_fbs J B X L malloc model_json p) p
  results-Settle source model_json p = (
    ob_dump_json-Settles source model_json p,
    ob_dump_schema-Settles model_json p,
    ob_dump_fbs-Settles model_json p,
  )
