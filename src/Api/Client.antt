-- ===== src/Api/Client.antt =====
-- ob_dump.h: a client's calls, one after the other, with the strings that it holds.
pub mod Session
use ob_dump.Base.{
  ℕ, zero, suc, ◌+◌, ◌-◌, List, [], ◌∷◌, ◌++◌, Bool, true, false, Option, none, some, ◌⊎◌, inl, inr,
  Bytes, codes, length, ◌==◌, if◌then◌else◌, ◌≡◌, refl, ap, sym, ◌∙◌, arith, All,
}
use ob_dump.Base.Int.{ℤ, pos, negsuc}
use ob_dump.Base.Exec.{Result, ok, err}
use ob_dump.Base.State.{Exec, lift}
use ob_dump.Json.{JsonLib}
use ob_dump.Lmdb.{LmdbLib}
use ob_dump.Lmdb.Handles.{Handles, St}
use ob_dump.Lmdb.Balance.{Effect, IsBalanced, handles_of, lift-IsBalanced}
use ob_dump.Lmdb.Balance.Reader.{Prepares}
use ob_dump.Decode.{FlatLib, FlexLib}
use ob_dump.Dump.{dump_to_json, dump_streaming}
use ob_dump.Dump.Balance.{dump_to_json-IsBalanced, dump_streaming-IsBalanced}
use ob_dump.SchemaJson.{schema_to_json}
use ob_dump.Fbs.{generate_fbs}
use ob_dump.Api.{
  c_string, ObDumpSource, checked_path, Process, terminated, outcome, copy_out, run_catching_errors,
  ObDumpRecordCallback, as_record_callback, stream_outcome, stream_path, ob_dump_json,
  ob_dump_schema, ob_dump_fbs, ob_dump_stream, ob_dump_free, null_argument, no_buffer, null_path,
  stream_no_buffer, stream_null_path,
}

-- The environments and the transactions are those that were open before.
abbrev pub SameStore : Handles → Handles → Type 0
SameStore h h' = (h'.envs ≡ h.envs) × (h'.txns ≡ h.txns)

Effect-SameStore : {A : Type 0} (r : Result A) (h h' : Handles) → Effect r h h' → SameStore h h'
Effect-SameStore (ok a) h h' e = (ap (λ (k : Handles). k.envs) e, ap (λ (k : Handles). k.txns) e)
Effect-SameStore (err x) h h' e = e

abbrev pub held : Option Bytes → ℕ
held none = 0
held (some block) = 1

-- A block that holds a text and a NUL.
abbrev pub IsString : Bytes → Type 0
IsString block = (text : Bytes) × (block ≡ terminated text)

abbrev pub AreString : Option Bytes → Type 0
AreString none = Unit
AreString (some block) = IsString block

-- A call that returns a block or null.
abbrev pub Answers : {U : Type 0} → Process U → Option Bytes × Process U → Type 0
Answers p called =
    (called.1.blocks ≡ p.blocks + held called.0)
    × SameStore p.handles called.1.handles
    × AreString called.0

module _ {U : Type 0} (malloc : ℕ → Bool) where
  copied :
      (fits : Bool) (text : Bytes) (p q : Process U)
      → q.blocks ≡ p.blocks
      → SameStore p.handles q.handles
      → Answers p (
          if fits
          then (some (terminated text), record q { blocks = q.blocks + 1 })
          else (none, record q { last_error = codes "ob_dump: out of memory" }))
  copied true text p q b h = (ap (λ n. n + 1) b, h, (text, refl))
  copied false text p q b h = (omega (arith, b), h, tt)

  outcome-Answers :
      (r : Result Bytes) (p q : Process U)
      → q.blocks ≡ p.blocks
      → SameStore p.handles q.handles
      → Answers p (outcome malloc r q)
  outcome-Answers (ok text) p q b h = copied (malloc (length text + 1)) text p q b h
  outcome-Answers (err e) p q b h = (omega (arith, b), h, tt)

  run_catching_errors-Answers :
      {W : Type 0} (start : W) (body : Exec (St W) Bytes) (p : Process U)
      → IsBalanced handles_of body
      → Answers p (run_catching_errors malloc start body p)
  unfolding run_catching_errors
  run_catching_errors-Answers {W = W} start body p h =
      let before : St W = record { handles = p.handles; user = start } in
      outcome-Answers (body before).0 p (record p { handles = (body before).1.handles }) refl
        (Effect-SameStore (body before).0 p.handles (body before).1.handles (h before))

  refused : (message : Bytes) (p : Process U) → Answers p (none, record p { last_error = message })
  refused message p = (omega arith, (refl, refl), tt)

module _ {F : Type 0} (J : JsonLib F) (B : FlatLib F) (X : FlexLib F) (L : LmdbLib)
    (malloc : ℕ → Bool) {U : Type 0} (prepares : (path : Bytes) → Prepares L path) where
  json_checked :
      (c : Bytes ⊎ Bytes) (m : Bytes) (p : Process U)
      → Answers p (elim c as (λ k. Option Bytes × Process U) [
        | inl message ↦ (none, record p { last_error = message })
        | inr path ↦ run_catching_errors malloc J.object (dump_to_json J B X L path (c_string m)) p
      ])
  json_checked (inl message) m p = refused malloc message p
  json_checked (inr path) m p =
      run_catching_errors-Answers malloc J.object (dump_to_json J B X L path (c_string m)) p
        (dump_to_json-IsBalanced J B X L path (c_string m) (prepares path))

  pub ob_dump_json-Answers :
      (source : Option ObDumpSource) (model_json : Option Bytes) (p : Process U)
      → Answers p (ob_dump_json J B X L malloc source model_json p)
  unfolding ob_dump_json
  ob_dump_json-Answers none model_json p = refused malloc null_argument p
  ob_dump_json-Answers (some source) none p = refused malloc null_argument p
  ob_dump_json-Answers (some source) (some m) p =
      json_checked (checked_path no_buffer null_path source) m p

  pub ob_dump_schema-Answers :
      (model_json : Option Bytes) (p : Process U)
      → Answers p (ob_dump_schema J B X L malloc model_json p)
  unfolding ob_dump_schema
  ob_dump_schema-Answers none p =
      refused malloc (codes "ob_dump_schema: model_json must not be null") p
  ob_dump_schema-Answers (some m) p =
      run_catching_errors-Answers malloc tt (lift (schema_to_json J (c_string m))) p
        (lift-IsBalanced handles_of (schema_to_json J (c_string m)))

  pub ob_dump_fbs-Answers :
      (model_json : Option Bytes) (p : Process U)
      → Answers p (ob_dump_fbs J B X L malloc model_json p)
  unfolding ob_dump_fbs
  ob_dump_fbs-Answers none p = refused malloc (codes "ob_dump_fbs: model_json must not be null") p
  ob_dump_fbs-Answers (some m) p =
      run_catching_errors-Answers malloc tt (lift (generate_fbs J (c_string m))) p
        (lift-IsBalanced handles_of (generate_fbs J (c_string m)))

  -- A call that returns no block.
  abbrev pub Keeps : Process U → Process U → Type 0
  Keeps p q = (q.blocks ≡ p.blocks) × SameStore p.handles q.handles

  stream_outcome-Keeps :
      (r : Result (Unit {0})) (p q : Process U)
      → Keeps p q
      → Keeps p (stream_outcome J B X L malloc r q).1
  stream_outcome-Keeps (ok done) p q h = h
  stream_outcome-Keeps (err e) p q h = h

  stream_path-Keeps :
      (path m : Bytes) (cb : ObDumpRecordCallback U) (p : Process U)
      → Keeps p (stream_path J B X L malloc path m cb p).1
  unfolding stream_path
  stream_path-Keeps path m cb p =
      let before : St U = record { handles = p.handles; user = p.user } in
      let run = dump_streaming J B X L (as_record_callback cb) path (c_string m) before in
      stream_outcome-Keeps run.0 p (record p { handles = run.1.handles; user = run.1.user })
        (
          refl,
          Effect-SameStore run.0 p.handles run.1.handles (
              dump_streaming-IsBalanced J B X L (as_record_callback cb) path (c_string m)
                (prepares path) before),
        )

  stream_checked :
      (c : Bytes ⊎ Bytes) (m : Bytes) (cb : ObDumpRecordCallback U) (p : Process U)
      → Keeps p
          (elim c as (λ k. ℤ × Process U) [
            | inl message ↦ (negsuc 0, record p { last_error = message })
            | inr path ↦ stream_path J B X L malloc path m cb p
          ]).1
  stream_checked (inl message) m cb p = (refl, (refl, refl))
  stream_checked (inr path) m cb p = stream_path-Keeps path m cb p

  pub ob_dump_stream-Keeps :
      (source : Option ObDumpSource) (model_json : Option Bytes)
      (callback : Option (ObDumpRecordCallback U)) (p : Process U)
      → Keeps p (ob_dump_stream J B X L malloc source model_json callback p).1
  unfolding ob_dump_stream
  ob_dump_stream-Keeps none model_json callback p = (refl, (refl, refl))
  ob_dump_stream-Keeps (some s) none callback p = (refl, (refl, refl))
  ob_dump_stream-Keeps (some s) (some m) none p = (refl, (refl, refl))
  ob_dump_stream-Keeps (some s) (some m) (some cb) p =
      stream_checked (checked_path stream_no_buffer stream_null_path s) m cb p
