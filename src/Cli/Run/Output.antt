-- ===== src/Cli/Run/Output.antt =====
-- What `run_json` leaves in its output: the records of the store, by their entities.
use mathlib.Core.Path.{subst}
use ob_dump.Base.{
  List, [], ◌∷◌, ◌++◌, true, Bool-cases, some, Bytes, ◌≡◌, ◌⊎◌, inl, inr, refl, sym, ap, ◌∙◌, ℕ,
}
use ob_dump.Base.Int.{ℤ, pos, negsuc, eqb_ℤ}
use ob_dump.Base.Exec.{ok}
use ob_dump.Json.{JsonLib}
use ob_dump.Schema.Parse.{Schema, parse}
use ob_dump.Lmdb.{LmdbLib}
use ob_dump.Lmdb.Handles.{Handles}
use ob_dump.Lmdb.Walk.{objects}
use ob_dump.Decode.{FlatLib, FlexLib}
use ob_dump.Dump.Delivered.{Delivery, Delivered, consume}
use ob_dump.Dump.Delivered.Whole.{dump_streaming-Streams}
use ob_dump.Api.{
  Process, freed, c_string, terminated, as_record_callback, stream_path, ob_dump_stream,
}
use ob_dump.Api.Streams.{stream_path-cases, Streamed}
use ob_dump.Cli.{Host, Io, Out, to_stdout, to_file}
use ob_dump.Cli.Stream.{JsonStreamCtx, start_ctx, json_stream_cb, closing}
use ob_dump.Cli.Stream.Groups.{Group, feed, calls, document, AreGrouped, feed-document}
use ob_dump.Cli.Run.{end_json, text_of, with_text, path_source, with_ctx, with_io, stream_to}

-- The calls of the callback: names and fields up to their first NUL.
pub calls_with : List Delivery → List (Bytes × Bytes)
calls_with [] = []
calls_with (d ∷ ds) = (c_string d.name, c_string d.fields) ∷ calls_with ds

one-ne-zero : ¬ (pos 1 ≡ pos 0)
one-ne-zero h = cc

end_json-text :
    (rc : ℤ) (out : Out) (ctx : JsonStreamCtx) (p : Process Io)
    → (end_json rc out ctx p).0 ≡ pos 0
    → text_of out (end_json rc out ctx p).1.user
      ≡ text_of out p.user ++ closing ctx.wrote_any_entity
unfolding end_json
end_json-text rc to_stdout ctx p h = elim (Bool-cases (eqb_ℤ rc (pos 0))) [
  | inl zero_rc ↦ rw zero_rc refl
  | inr other ↦ absurd (one-ne-zero (rw other at h))
]
end_json-text rc to_file ctx p h = elim (Bool-cases (eqb_ℤ rc (pos 0))) [
  | inl zero_rc ↦ rw zero_rc refl
  | inr other ↦ absurd (one-ne-zero (rw other at h))
]

end_json-minus :
    (out : Out) (ctx : JsonStreamCtx) (p : Process Io) → (end_json (negsuc 0) out ctx p).0 ≡ pos 1
unfolding end_json
end_json-minus out ctx p = refl

text_of-with_text :
    (out : Out) (text : Bytes) (io : Io) → text_of out (with_text out text io) ≡ text
text_of-with_text to_stdout text io = refl
text_of-with_text to_file text io = refl

module _ {F : Type 0} (J : JsonLib F) (B : FlatLib F) (X : FlexLib F) (L : LmdbLib) (H : Host) where
  goes_on :
      (name : Bytes) (id : ℕ) (fields : Bytes) (ctx : JsonStreamCtx)
      → (as_record_callback json_stream_cb name id fields ctx).0 ≡ true
  unfolding as_record_callback json_stream_cb
  goes_on name id fields ctx = refl

  consume-feed :
      (path : Bytes) (schema : Schema) (ds : List Delivery) (ctx : JsonStreamCtx)
      → consume J B X L path schema (as_record_callback json_stream_cb) ds ctx
        ≡ feed (calls_with ds) ctx
  unfolding consume feed calls_with as_record_callback json_stream_cb
  consume-feed path schema [] ctx = refl
  consume-feed path schema (d ∷ ds) ctx = consume-feed path schema ds _

  call_of-stream_path :
      (mdb_path model_json : Bytes) (p : Process JsonStreamCtx)
      → ob_dump_stream J B X L H.malloc
          (some (path_source J B X L H mdb_path))
          (some model_json)
          (some json_stream_cb)
          p
        ≡ stream_path J B X L H.malloc (c_string (terminated mdb_path)) model_json json_stream_cb p
  unfolding ob_dump_stream
  call_of-stream_path mdb_path model_json p = refl

  -- The output of a stream that `run_json` has ended well.
  abbrev pub Written : Schema → List Delivery → Out → Process Io → Process Io → Type 0
  Written schema ds out p q =
      (text_of out q.user ≡ (
        let ctx = feed (calls_with ds) (start_ctx (text_of out p.user)) in
        ctx.out ++ closing ctx.wrote_any_entity))
      × ((gs : List Group)
          → AreGrouped [] gs
          → calls_with ds ≡ calls gs
          → text_of out q.user ≡ text_of out p.user ++ document gs)

  Written-ctx :
      (schema : Schema) (ds : List Delivery) (out : Out) (p q : Process Io) (ctx : JsonStreamCtx)
      → ctx ≡ feed (calls_with ds) (start_ctx (text_of out p.user))
      → text_of out q.user ≡ ctx.out ++ closing ctx.wrote_any_entity
      → Written schema ds out p q
  Written-ctx schema ds out p q ctx e h =
      let t = h ∙ ap (λ (c : JsonStreamCtx). c.out ++ closing c.wrote_any_entity) e in
      (
        t,
        λ gs grouped same.
            t
            ∙ ap
                (λ (l : List (Bytes × Bytes)).
                  let c = feed l (start_ctx (text_of out p.user)) in
                  c.out ++ closing c.wrote_any_entity)
                same
            ∙ feed-document (text_of out p.user) gs grouped,
      )

  abbrev stream_start : Out → Process Io → Process JsonStreamCtx
  stream_start out p = with_ctx J B X L H (start_ctx (text_of out p.user)) p

  -- The process behind the stream, with the model's text freed.
  abbrev left : Out → Process Io → Process JsonStreamCtx → Process Io
  left out p q = freed (with_io J B X L H (with_text out q.user.out p.user) q)

  -- What is known of a stream at `path` of which the program has written `q`.
  abbrev pub Outcome : Bytes → Bytes → Out → Process Io → Process Io → Type 0
  Outcome path model_json out p q =
      (schema : Schema) × (ds : List Delivery) × (h : Handles) × (h' : Handles) × (parse J
          (c_string model_json)
        ≡ ok schema)
      × Delivered J B X L path schema (objects (L.first path)) ds h h'
      × Written schema ds out p q

  ended :
      (path model_json : Bytes) (out : Out) (p : Process Io) (called : ℤ × Process JsonStreamCtx)
      → ((called.0 ≡ pos 0)
          × (called.1.last_error ≡ p.last_error)
          × Streamed J B X L H.malloc path model_json json_stream_cb (stream_start out p) called.1)
        ⊎ (called.0 ≡ negsuc 0)
      → (end_json called.0 out called.1.user (left out p called.1)).0 ≡ pos 0
      → Outcome path model_json out p (end_json called.0 out called.1.user (left out p called.1)).1
  ended path model_json out p (rc, q) (inr minus) h = absurd (
      one-ne-zero (
        sym (end_json-minus out q.user (left out p q))
        ∙ ap (λ (c : ℤ). (end_json c out q.user (left out p q)).0) (sym minus)
        ∙ h))
  ended path model_json out p (rc, q) (inl (z, l, st)) h =
      let (schema, parsed, (ds, hs, hs', d, made)) =
        dump_streaming-Streams J B X L path (as_record_callback json_stream_cb) goes_on
          (c_string model_json) _ _ st in
      (
        schema,
        ds,
        hs,
        hs',
        parsed,
        d,
        Written-ctx schema ds out p (end_json rc out q.user (left out p q)).1 q.user
            (made ∙ consume-feed path schema ds (start_ctx (text_of out p.user)))
            (end_json-text rc out q.user (left out p q) h
              ∙ ap (λ (t : Bytes). t ++ closing q.user.wrote_any_entity)
                  (text_of-with_text out q.user.out p.user)),
      )

  -- A run of `run_json` that gets as far as the stream and ends with 0 has parsed the model and
  -- written the records of the store one after the other: each record of a known entity once and in
  -- the order of the cursor, with what ends the document. If the records come in groups, the output
  -- is the document of the groups.
  pub stream_to-Written :
      (mdb_path model_json : Bytes) (out : Out) (p : Process Io)
      → (stream_to J B X L H mdb_path model_json out p).0 ≡ pos 0
      → Outcome
          (c_string (terminated mdb_path))
          model_json
          out
          p
          (stream_to J B X L H mdb_path model_json out p).1
  unfolding stream_to
  stream_to-Written mdb_path model_json out p zero_rc =
      let start = stream_start out p in
      let called =
        ob_dump_stream J B X L H.malloc (some (path_source J B X L H mdb_path)) (some model_json)
          (some json_stream_cb) start in
      let path = c_string (terminated mdb_path) in
      ended path model_json out p called
        (subst
          (λ (c : ℤ × Process JsonStreamCtx).
            ((c.0 ≡ pos 0)
              × (c.1.last_error ≡ p.last_error)
              × Streamed J B X L H.malloc path model_json json_stream_cb start c.1)
            ⊎ (c.0 ≡ negsuc 0))
          (sym (call_of-stream_path mdb_path model_json start))
          (stream_path-cases J B X L H.malloc path model_json json_stream_cb start).1)
        zero_rc
