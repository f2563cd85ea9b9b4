-- ===== src/Dump/Balance.antt =====
-- dumper.cpp: what the two dumps leave open.
use ob_dump.Base.{ℕ, List, [], ◌∷◌, Bool, true, Option, none, some, Bytes, refl}
use ob_dump.Base.Int.{pos}
use ob_dump.Base.State.{Exec, pure, lift, ◌>>=◌}
use ob_dump.Json.{JsonLib}
use ob_dump.Schema.{RelationDef, EntityDef}
use ob_dump.Schema.Parse.{Schema, find, parse}
use ob_dump.Lmdb.{LmdbLib, ObjectRecord}
use ob_dump.Lmdb.Handles.{St, inside}
use ob_dump.Lmdb.Walk.{for_each_object}
use ob_dump.Lmdb.Links.{to_many_targets}
use ob_dump.Lmdb.Balance.{
  IsBalanced, handles_of, bind-IsBalanced, lift-IsBalanced, pure-IsBalanced, inside-IsBalanced,
  for_each_object-IsBalanced, to_many_targets-IsBalanced,
}
use ob_dump.Lmdb.Balance.Reader.{Prepares, with_reader-IsBalanced}
use ob_dump.Decode.{FlatLib, FlexLib}
use ob_dump.Decode.Object.{decode_object}
use mathlib.Core.Path.{subst, sym}
use ob_dump.Dump.Same.{stream_json-same}
use ob_dump.Dump.{
  stream_json, RecordCallback, user_becomes, add_relations, record_json, dump_record, dump_callback,
  dump_to_json, stream_record, stream_callback, dump_streaming,
}

module _ {U : Type 0} where
  -- A record of an unknown entity is skipped.
  known-IsBalanced :
      (f : EntityDef → Exec (St U) Bool)
      → ((e : EntityDef) → IsBalanced handles_of (f e))
      → (found : Option EntityDef)
      → IsBalanced {S = St U} {A = Bool} handles_of
          (elim found as (λ k. Exec (St U) Bool) [ none ↦ pure true | some e ↦ f e ])
  known-IsBalanced f h none = pure-IsBalanced handles_of true
  known-IsBalanced f h (some e) = h e

module _ {F : Type 0} (J : JsonLib F) (B : FlatLib F) (X : FlexLib F) (L : LmdbLib) where
  open J use {Value}

  add_relations-IsBalanced :
      (path : Bytes) (rels : List RelationDef) (source : ℕ) (obj : Value)
      → IsBalanced (λ h. h) (add_relations J B X L path rels source obj)
  unfolding add_relations
  add_relations-IsBalanced path [] source obj = pure-IsBalanced (λ h. h) obj
  add_relations-IsBalanced path (rel ∷ rels) source obj =
      bind-IsBalanced (λ h. h) (to_many_targets L path rel.id source) _
        (to_many_targets-IsBalanced L path rel.id source)
        λ targets. add_relations-IsBalanced path rels source _

  record_json-IsBalanced :
      (path : Bytes) (entity : EntityDef) (r : ObjectRecord)
      → IsBalanced (λ h. h) (record_json J B X L path entity r)
  unfolding record_json
  record_json-IsBalanced path entity r =
      bind-IsBalanced (λ h. h) (lift (decode_object J B X r.bytes entity)) _
        (lift-IsBalanced (λ h. h) (decode_object J B X r.bytes entity))
        λ obj. add_relations-IsBalanced path entity.relations r.object_id _

  stream_json-IsBalanced :
      (path : Bytes) (entity : EntityDef) (r : ObjectRecord)
      → IsBalanced (λ h. h) (stream_json J B X L path entity r)
  stream_json-IsBalanced path entity r =
      subst (IsBalanced (λ h. h)) (sym (stream_json-same J B X L path entity r))
        (record_json-IsBalanced path entity r)

  dump_record-IsBalanced :
      (path : Bytes) (entity : EntityDef) (r : ObjectRecord)
      → IsBalanced handles_of (dump_record J B X L path entity r)
  unfolding dump_record
  dump_record-IsBalanced path entity r =
      bind-IsBalanced handles_of (inside (record_json J B X L path entity r)) _
        (inside-IsBalanced (record_json J B X L path entity r)
          (record_json-IsBalanced path entity r))
        λ obj s. refl

  dump_callback-IsBalanced :
      (path : Bytes) (schema : Schema) (r : ObjectRecord)
      → IsBalanced handles_of (dump_callback J B X L path schema r)
  unfolding dump_callback
  dump_callback-IsBalanced path schema r =
      known-IsBalanced (λ entity. dump_record J B X L path entity r)
        (λ entity. dump_record-IsBalanced path entity r) (find schema (pos r.entity_id))

  -- What dumpToJson does inside of the reader's block.
  abbrev write_result : Exec (St Value) Bytes
  write_result s = (J.dump_indent 2 s.user, s)

  abbrev walk_store : Bytes → Schema → Exec (St Value) Bytes
  walk_store path schema =
      for_each_object L path (dump_callback J B X L path schema) >>= λ walked. write_result

  abbrev dump_body : Bytes → Schema → Exec (St Value) Bytes
  dump_body path schema = user_becomes (λ result. J.object) >>= λ started. walk_store path schema

  dump_body-IsBalanced :
      (path : Bytes) (schema : Schema) → IsBalanced handles_of (dump_body path schema)
  dump_body-IsBalanced path schema =
      bind-IsBalanced handles_of (user_becomes (λ result. J.object))
        (λ started. walk_store path schema) (λ s. refl)
        λ started.
          bind-IsBalanced handles_of (for_each_object L path (dump_callback J B X L path schema))
            (λ walked. write_result)
            (for_each_object-IsBalanced L path (dump_callback J B X L path schema)
              (dump_callback-IsBalanced path schema))
            λ walked s. lift-IsBalanced handles_of (J.dump_indent 2 s.user) s

  pub dump_to_json-IsBalanced :
      (path model_json : Bytes)
      → Prepares L path
      → IsBalanced handles_of (dump_to_json J B X L path model_json)
  unfolding dump_to_json
  dump_to_json-IsBalanced path model_json h =
      bind-IsBalanced handles_of (lift (parse J model_json)) _
        (lift-IsBalanced handles_of (parse J model_json))
        λ schema.
          with_reader-IsBalanced L path (dump_body path schema) h (dump_body-IsBalanced path schema)

  module _ {U : Type 0} (callback : RecordCallback U) where
    stream_record-IsBalanced :
        (path : Bytes) (entity : EntityDef) (r : ObjectRecord)
        → IsBalanced handles_of (stream_record J B X L callback path entity r)
    unfolding stream_record
    stream_record-IsBalanced path entity r =
        bind-IsBalanced handles_of (inside (stream_json J B X L path entity r)) _
          (inside-IsBalanced (stream_json J B X L path entity r)
            (stream_json-IsBalanced path entity r))
          λ obj.
            bind-IsBalanced handles_of (lift (J.dump obj)) _
              (lift-IsBalanced handles_of (J.dump obj)) λ fields s. refl

    stream_callback-IsBalanced :
        (path : Bytes) (schema : Schema) (r : ObjectRecord)
        → IsBalanced handles_of (stream_callback J B X L callback path schema r)
    unfolding stream_callback
    stream_callback-IsBalanced path schema r =
        known-IsBalanced (λ entity. stream_record J B X L callback path entity r)
          (λ entity. stream_record-IsBalanced path entity r) (find schema (pos r.entity_id))

    pub dump_streaming-IsBalanced :
        (path model_json : Bytes)
        → Prepares L path
        → IsBalanced handles_of (dump_streaming J B X L callback path model_json)
    unfolding dump_streaming
    dump_streaming-IsBalanced path model_json h =
        bind-IsBalanced handles_of (lift (parse J model_json)) _
          (lift-IsBalanced handles_of (parse J model_json))
          λ schema.
            with_reader-IsBalanced L path
              (for_each_object L path (stream_callback J B X L callback path schema)) h
              (for_each_object-IsBalanced L path (stream_callback J B X L callback path schema)
                (stream_callback-IsBalanced path schema))

  -- If LMDB's two set calls succeed and the path can be examined, then, whatever the model, the store,
  -- the decoders and the callback do, both dumps leave no environment and no transaction open
  -- that was not open before, and one that returns leaves no cursor open either.
  pub dumps-IsBalanced :
      {U : Type 0} (callback : RecordCallback U) (path model_json : Bytes)
      → Prepares L path
      → IsBalanced handles_of (dump_to_json J B X L path model_json)
        × IsBalanced handles_of (dump_streaming J B X L callback path model_json)
  dumps-IsBalanced callback path model_json h = (
    dump_to_json-IsBalanced path model_json h,
    dump_streaming-IsBalanced callback path model_json h,
  )
