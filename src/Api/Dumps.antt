-- ===== src/Api/Dumps.antt =====
-- ob_dump.h: the text that ob_dump returns.
use ob_dump.Base.{
  ◌∙◌, List, ℕ, ◌+◌, Bool, true, false, Option, none, some, ◌⊎◌, inl, inr, Bytes, length, ◌≡◌, refl,
  ap, if◌then◌else◌,
}
use ob_dump.Base.Exec.{Result, ok, err}
use ob_dump.Base.State.{Exec}
use ob_dump.Json.{JsonLib, ArrayLaws, ObjectLaws}
use ob_dump.Schema.Parse.{Schema, parse}
use ob_dump.Lmdb.{LmdbLib}
use ob_dump.Lmdb.Handles.{Handles, cursor_opened, txn_opened, env_opened, St}
use ob_dump.Decode.{FlatLib, FlexLib}
use ob_dump.Dump.{dump_to_json}
use ob_dump.Lmdb.Walk.{objects}
use ob_dump.Dump.Groups.{append_all}
use ob_dump.Dump.Collected.{Collected}
use ob_dump.Dump.Collected.Succeeds.{Readable, dump_to_json-succeeds}
use ob_dump.Dump.Collected.Whole.{Written, dump_to_json-Written}
use ob_dump.Api.{
  c_string, ObDumpSource, checked_path, Process, allocated, terminated, outcome,
  run_catching_errors, ob_dump_json, no_buffer, null_path,
}

abbrev pub nothing : {U : Type 0} → Process U → Option Bytes × Process U
nothing p = (none, p)

abbrev pub block_of : {U : Type 0} → Bytes → Process U → Option Bytes × Process U
block_of block p = (some block, p)

none-ne-some : {U : Type 0} {block : Bytes} {p q : Process U} → ¬ (nothing p ≡ block_of block q)
none-ne-some e = cc

module _ {U : Type 0} (malloc : ℕ → Bool) where
  copied :
      (fits : Bool) (text block : Bytes) (p p' q : Process U)
      → (if fits then block_of (terminated text) p else nothing p') ≡ block_of block q
      → block ≡ terminated text
  copied true text block p p' q e = cc
  copied false text block p p' q e = absurd (none-ne-some e)

  outcome-ok :
      (r : Result Bytes) (block : Bytes) (p q : Process U)
      → outcome malloc r p ≡ block_of block q
      → (text : Bytes) × (r ≡ ok text) × (block ≡ terminated text)
  outcome-ok (ok text) block p q e =
      (text, refl, copied (malloc (length text + 1)) text block _ _ q e)
  outcome-ok (err x) block p q e = absurd (none-ne-some e)

  run_catching_errors-ok :
      {W : Type 0} (start : W) (body : Exec (St W) Bytes) (block : Bytes) (p q : Process U)
      → run_catching_errors malloc start body p ≡ block_of block q
      → (text : Bytes) × (s : St W) × (t : St W) × (body s ≡ (ok text, t))
        × (block ≡ terminated text)
  unfolding run_catching_errors
  run_catching_errors-ok {W = W} start body block p q e =
      let s : St W = record { handles = p.handles; user = start } in
      let (text, ran, same) = outcome-ok (body s).0 block _ q e in
      (text, s, (body s).1, ap (λ r. (r, (body s).1)) ran, same)

module _ {F : Type 0} (J : JsonLib F) (B : FlatLib F) (X : FlexLib F) (L : LmdbLib)
    (a : ArrayLaws J) (o : ObjectLaws J) where
  -- What is behind a block that `ob_dump` has returned.
  abbrev pub Returned : ObDumpSource → Bytes → Bytes → Type 0
  Returned source model_json block =
      (path : Bytes) × (text : Bytes) × (schema : Schema) × (checked_path no_buffer null_path source
        ≡ inr path)
      × (block ≡ terminated text)
      × (parse J (c_string model_json) ≡ ok schema)
      × Written J B X L a o path schema text

module _ {F : Type 0} (J : JsonLib F) (B : FlatLib F) (X : FlexLib F) (L : LmdbLib)
    (malloc : ℕ → Bool) {U : Type 0} (a : ArrayLaws J) (o : ObjectLaws J) where
  json_checked :
      (c : Bytes ⊎ Bytes) (source : ObDumpSource) (m block : Bytes) (p q : Process U)
      → checked_path no_buffer null_path source ≡ c
      → (elim c as (λ k. Option Bytes × Process U) [
        | inl message ↦ (none, record p { last_error = message })
        | inr path ↦ run_catching_errors malloc J.object (dump_to_json J B X L path (c_string m)) p
      ])
        ≡ block_of block q
      → Returned J B X L a o source m block
  json_checked (inl message) source m block p q e k = absurd (none-ne-some k)
  json_checked (inr path) source m block p q e k =
      let (text, s, t, ran, same) =
        run_catching_errors-ok malloc J.object (dump_to_json J B X L path (c_string m)) block p q
          k in
      let (schema, parsed, written) =
        dump_to_json-Written J B X L a o path (c_string m) text s t ran in
      (path, text, schema, e, same, parsed, written)

  -- Over a JSON library with the laws of arrays and objects, a block that `ob_dump` returns was made
  -- from a source of kind path with a path, and from a model that could be parsed; it holds, with a
  -- NUL behind it, the text of an object that has under each entity's name the array of that
  -- entity's records in the store's order, and null under a name that no record has.
  pub ob_dump_json-Returned :
      (source : Option ObDumpSource) (model_json : Option Bytes) (block : Bytes) (p q : Process U)
      → ob_dump_json J B X L malloc source model_json p ≡ block_of block q
      → (s : ObDumpSource) × (m : Bytes) × (source ≡ some s)
        × (model_json ≡ some m)
        × Returned J B X L a o s m block
  unfolding ob_dump_json
  ob_dump_json-Returned none model_json block p q e = absurd (none-ne-some e)
  ob_dump_json-Returned (some s) none block p q e = absurd (none-ne-some e)
  ob_dump_json-Returned (some s) (some m) block p q e =
      (s, m, refl, refl, json_checked (checked_path no_buffer null_path s) s m block p q refl e)

module _ {F : Type 0} (J : JsonLib F) (B : FlatLib F) (X : FlexLib F) (L : LmdbLib)
    (malloc : ℕ → Bool) {U : Type 0} where
  json_of_path :
      (path m : Bytes) (source : ObDumpSource) (p : Process U)
      → checked_path no_buffer null_path source ≡ inr path
      → ob_dump_json J B X L malloc (some source) (some m) p
        ≡ run_catching_errors malloc J.object (dump_to_json J B X L path (c_string m)) p
  unfolding ob_dump_json
  json_of_path path m source p e = rw (ob_dump_json, e) refl

  copied_out :
      (text : Bytes) (h : Handles) (p : Process U)
      → malloc (length text + 1) ≡ true
      → outcome malloc (ok text) (record p { handles = h })
        ≡ block_of (terminated text) (allocated (record p { handles = h }))
  copied_out text h p fits = rw fits refl

  run_catching_errors-returns :
      {V : Type 0} (start : V) (body : Exec (St V) Bytes) (text : Bytes) (p : Process U) (t : St V)
      → malloc (length text + 1) ≡ true
      → body (record { handles = p.handles; user = start }) ≡ (ok text, t)
      → run_catching_errors malloc start body p
        ≡ block_of (terminated text) (allocated (record p { handles = t.handles }))
  unfolding run_catching_errors
  run_catching_errors-returns {V = V} start body text p t fits ran =
      ap (λ (x : Result Bytes × St V). outcome malloc x.0 (record p { handles = x.1.handles })) ran
      ∙ copied_out text t.handles p fits

  -- If a source of kind path has a path, the reader and its cursor can be opened, the walk ends
  -- without an error, the model can be parsed, the store's records can all be read, their object can
  -- be written, and malloc succeeds, then `ob_dump` returns a new block with the object's text
  -- and a NUL, and leaves the last error and the user's data as they were.
  pub ob_dump_json-succeeds :
      (source : ObDumpSource) (path m text : Bytes) (schema : Schema)
      (docs : List (Bytes × J.Value)) (p : Process U) (h' : Handles)
      → checked_path no_buffer null_path source ≡ inr path
      → Readable J B X L path (record { handles = p.handles; user = J.object })
      → parse J (c_string m) ≡ ok schema
      → Collected J B X L path schema
          (objects (L.first path))
          docs
          (cursor_opened (txn_opened (env_opened p.handles)))
          h'
      → J.dump_indent 2 (append_all J J.object docs) ≡ ok text
      → malloc (length text + 1) ≡ true
      → (h : Handles) × (ob_dump_json J B X L malloc (some source) (some m) p
          ≡ block_of (terminated text) (allocated (record p { handles = h })))
  ob_dump_json-succeeds source path m text schema docs p h' checked ready parsed c written fits =
      let (t, ran) =
        dump_to_json-succeeds J B X L path (c_string m) text schema docs
          (record { handles = p.handles; user = J.object }) h' ready parsed c written in
      (
        t.handles,
        json_of_path path m source p checked
            ∙ run_catching_errors-returns J.object (dump_to_json J B X L path (c_string m)) text p t
                fits ran,
      )
