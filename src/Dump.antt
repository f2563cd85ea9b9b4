-- ===== src/Dump.antt =====
-- dumper.cpp: the two dumps of a store.
pub mod Same
pub mod Groups
pub mod Stream
pub mod Delivered
pub mod Balance
pub mod Collected
pub mod Stopped
use ob_dump.Base.{
  ℕ, List, [], ◌∷◌, ◌++◌, Bool, true, false, Option, none, some, Bytes, codes, if◌then◌else◌,
}
use ob_dump.Base.Int.{ℤ, pos}
use ob_dump.Base.Exec.{Result, ok, err}
use ob_dump.Base.State.{Exec, pure, lift, ◌>>=◌, ◌>>◌}
use ob_dump.Json.{JsonLib, Number}
use ob_dump.Schema.{RelationDef, EntityDef}
use ob_dump.Schema.Parse.{Schema, find, parse}
use ob_dump.Lmdb.{LmdbLib, ObjectRecord}
use ob_dump.Lmdb.Handles.{Handles, St, inside}
use ob_dump.Lmdb.Reader.{with_reader}
use ob_dump.Lmdb.Walk.{for_each_object}
use ob_dump.Lmdb.Links.{to_many_targets}
use ob_dump.Decode.{FlatLib, FlexLib}
use ob_dump.Decode.Object.{decode_object}

abbrev pub user_becomes : {U : Type 0} → (U → U) → Exec (St U) (Unit {0})
user_becomes f s = (ok tt, record s { user = f s.user })

-- A record callback: the name, the id, the fields, and what it does to the user's data; it says
-- whether to go on.
abbrev pub RecordCallback : Type 0 → Type 0
RecordCallback U = Bytes → ℕ → Bytes → U → Bool × U

abbrev pub call : {U : Type 0} → RecordCallback U → Bytes → ℕ → Bytes → Exec (St U) Bool
call callback name id fields s =
    let (more, u) = callback name id fields s.user in (ok more, record s { user = u })

module _ {F : Type 0} (J : JsonLib F) where
  open J use {Value}

  abbrev id_number : ℕ → Value
  id_number n = J.number (Number.int (pos n))

  -- The conversion of a std::vector<uint32_t>.
  id_array : List ℕ → Value → Value
  id_array [] arr = arr
  id_array (n ∷ ns) arr = id_array ns (J.push_back arr (id_number n))

  -- `auto& arr = result[name]; if (!arr.is_array()) arr = array(); arr.push_back(obj)`
  unfoldable pub append_record : Value → Bytes → Value → Value
  append_record result name obj =
      let arr = J.index result name in
      J.set result name (J.push_back (if J.is_array arr then arr else J.array) obj)

module _ {F : Type 0} (J : JsonLib F) (B : FlatLib F) (X : FlexLib F) (L : LmdbLib) where
  open J use {Value}

  add_relations : Bytes → List RelationDef → ℕ → Value → Exec Handles Value
  add_relations path [] source obj = pure obj
  add_relations path (rel ∷ rels) source obj = do
    targets ← to_many_targets L path rel.id source
    add_relations path rels source (J.set obj rel.name (id_array J targets J.array))

  -- The JSON object of one record in dumpToJson.
  unfoldable pub record_json : Bytes → EntityDef → ObjectRecord → Exec Handles Value
  unfolding id_array add_relations
  record_json path entity rec = do
    obj ← lift (decode_object J B X rec.bytes entity)
    add_relations path entity.relations rec.object_id
        (J.set obj (codes "id") (id_number J rec.object_id))

  -- The same statements stand once more in dumpStreaming.
  stream_relations : Bytes → List RelationDef → ℕ → Value → Exec Handles Value
  stream_relations path [] source obj = pure obj
  stream_relations path (rel ∷ rels) source obj = do
    targets ← to_many_targets L path rel.id source
    stream_relations path rels source (J.set obj rel.name (id_array J targets J.array))

  unfoldable pub stream_json : Bytes → EntityDef → ObjectRecord → Exec Handles Value
  unfolding id_array stream_relations
  stream_json path entity rec = do
    obj ← lift (decode_object J B X rec.bytes entity)
    stream_relations path entity.relations rec.object_id
        (J.set obj (codes "id") (id_number J rec.object_id))

  abbrev user_of : {U : Type 0} → Exec (St U) U
  user_of s = (ok s.user, s)

  unfoldable pub dump_record : Bytes → EntityDef → ObjectRecord → Exec (St Value) Bool
  dump_record path entity rec = do
    obj ← inside (record_json path entity rec)
    user_becomes (λ result. append_record J result entity.name obj)
    pure true

  -- A record of an entity that the model does not have is skipped.
  unfoldable pub dump_callback : Bytes → Schema → ObjectRecord → Exec (St Value) Bool
  dump_callback path schema rec = elim (find schema (pos rec.entity_id)) [
    | none ↦ pure true
    | some entity ↦ dump_record path entity rec
  ]

  unfoldable pub dump_to_json : Bytes → Bytes → Exec (St Value) Bytes
  unfolding record_json append_record dump_record dump_callback with_reader for_each_object
  dump_to_json path model_json = do
    schema ← lift (parse J model_json)
    with_reader L path (do
      user_becomes (λ _. J.object)
      for_each_object L path (dump_callback path schema)
      result ← user_of
      lift (J.dump_indent 2 result))

  module _ {U : Type 0} (callback : RecordCallback U) where
    unfoldable pub stream_record : Bytes → EntityDef → ObjectRecord → Exec (St U) Bool
    stream_record path entity rec = do
      obj ← inside (stream_json path entity rec)
      fields ← lift (J.dump obj)
      call callback entity.name rec.object_id fields

    unfoldable pub stream_callback : Bytes → Schema → ObjectRecord → Exec (St U) Bool
    stream_callback path schema rec = elim (find schema (pos rec.entity_id)) [
      | none ↦ pure true
      | some entity ↦ stream_record path entity rec
    ]

    unfoldable pub dump_streaming : Bytes → Bytes → Exec (St U) (Unit {0})
    unfolding stream_json stream_record stream_callback with_reader for_each_object
    dump_streaming path model_json = do
      schema ← lift (parse J model_json)
      with_reader L path (for_each_object L path (stream_callback path schema))
