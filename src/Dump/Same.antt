-- ===== src/Dump/Same.antt =====
-- dumper.cpp: the two callbacks build the JSON object of a record by the same statements.
use ob_dump.Base.{ℕ, List, [], ◌∷◌, Bytes, codes, ◌≡◌, refl}
use ob_dump.Base.State.{lift, ◌>>=◌}
use ob_dump.Json.{JsonLib}
use ob_dump.Schema.{RelationDef, EntityDef}
use ob_dump.Lmdb.{LmdbLib, ObjectRecord}
use ob_dump.Lmdb.Links.{to_many_targets}
use ob_dump.Decode.{FlatLib, FlexLib}
use ob_dump.Decode.Object.{decode_object}
use ob_dump.Dump.{id_number, id_array, add_relations, stream_relations, record_json, stream_json}

module _ {F : Type 0} (J : JsonLib F) (B : FlatLib F) (X : FlexLib F) (L : LmdbLib) where
  open J use {Value}

  stream_relations-same :
      (path : Bytes) (rels : List RelationDef) (source : ℕ) (obj : Value)
      → stream_relations J B X L path rels source obj ≡ add_relations J B X L path rels source obj
  unfolding stream_relations add_relations id_array
  stream_relations-same path [] source obj = refl
  stream_relations-same path (rel ∷ rels) source obj = λ i.
      to_many_targets L path rel.id source >>= λ targets.
      stream_relations-same path rels source (J.set obj rel.name (id_array J targets J.array)) i

  pub stream_json-same :
      (path : Bytes) (entity : EntityDef) (r : ObjectRecord)
      → stream_json J B X L path entity r ≡ record_json J B X L path entity r
  unfolding stream_json record_json
  stream_json-same path entity r = λ i. lift (decode_object J B X r.bytes entity) >>= λ obj.
      stream_relations-same path entity.relations r.object_id
        (J.set obj (codes "id") (id_number J r.object_id)) i
