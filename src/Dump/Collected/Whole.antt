-- ===== src/Dump/Collected/Whole.antt =====
-- dumper.cpp: what dumpToJson returns for a whole store.
use ob_dump.Base.{List, Bytes, codes, ◌≡◌, refl, sym, ap, ◌∙◌}
use ob_dump.Base.Exec.{Result, ok}
use ob_dump.Base.State.{Exec, lift, ◌>>=◌, ◌>>◌, >>=-eq-ok}
use ob_dump.Json.{JsonLib, ArrayLaws, ObjectLaws}
use ob_dump.Schema.Parse.{Schema, parse}
use ob_dump.Lmdb.{LmdbLib}
use ob_dump.Lmdb.Handles.{Handles, St, cursor_opened, check}
use ob_dump.Lmdb.Reader.{open_reader, close_reader, with_reader}
use ob_dump.Lmdb.Walk.{visit, objects, last_code, for_each_object, for_each_object-visit}
use ob_dump.Decode.{FlatLib, FlexLib}
use ob_dump.Dump.{dump_callback, dump_to_json, user_becomes}
use ob_dump.Dump.Groups.{Holds, named, append_all, append_all-groups}
use ob_dump.Dump.Collected.{Collected, visit-Run}

module _ {F : Type 0} (J : JsonLib F) (B : FlatLib F) (X : FlexLib F) (L : LmdbLib)
    (path : Bytes) where
  open J use {Value}

  for_each_object-Run :
      (schema : Schema) (s t : St Value)
      → for_each_object L path (dump_callback J B X L path schema) s ≡ (ok tt, t)
      → (docs : List (Bytes × Value)) × (h : Handles) × (h' : Handles) × Collected J B X L path
          schema
          (objects (L.first path))
          docs
          h
          h'
        × (t.user ≡ append_all J s.user docs)
  for_each_object-Run schema s t h =
      let rs = objects (L.first path) in
      let cb = dump_callback J B X L path schema in
      let end = last_code (L.first path) in
      let opened = lift {S = St Value} (check L L.cursor_open (codes "mdb_cursor_open")) in
      let (a, s1, e1, k1) = >>=-eq-ok opened _ s (rw for_each_object-visit at h) in
      let s2 = record s1 { handles = cursor_opened s1.handles } in
      let (c, s3, e3, k3) = >>=-eq-ok (visit rs end cb) _ s2 k1 in
      let (docs, run, made) = visit-Run J B X L path schema rs end c s2 s3 e3 in
      (
        docs,
        s2.handles,
        s3.handles,
        run,
        ap (λ (x : Result (Unit {0}) × St Value). x.1.user) (sym k3)
            ∙ made
            ∙ ap (λ (x : Result (Unit {0}) × St Value). append_all J x.1.user docs) (sym e1),
      )

  abbrev pub write_result : Exec (St Value) Bytes
  write_result s = (J.dump_indent 2 s.user, s)

  abbrev pub body : Schema → Exec (St Value) Bytes
  body schema = do
    user_becomes (λ result. J.object)
    for_each_object L path (dump_callback J B X L path schema)
    write_result

  -- The text is that of the records' objects, each put under its entity's name in the walk's order.
  abbrev pub Dumped : Schema → Bytes → Type 0
  Dumped schema text =
      (docs : List (Bytes × Value)) × (h : Handles) × (h' : Handles) × Collected J B X L path schema
        (objects (L.first path)) docs h h'
      × (J.dump_indent 2 (append_all J J.object docs) ≡ ok text)

  body-Dumped :
      (schema : Schema) (text : Bytes) (s t : St Value)
      → body schema s ≡ (ok text, t)
      → Dumped schema text
  body-Dumped schema text s t h =
      let s1 = record s { user = J.object } in
      let (a, s2, e, k) =
        >>=-eq-ok (for_each_object L path (dump_callback J B X L path schema)) _ s1 h in
      let (docs, h1, h2, c, made) = for_each_object-Run schema s1 s2 e in
      (
        docs,
        h1,
        h2,
        c,
        ap (J.dump_indent 2) (sym made) ∙ ap (λ (x : Result Bytes × St Value). x.0) k,
      )

  pub dump_to_json-step :
      (model_json : Bytes)
      → dump_to_json J B X L path model_json ≡ (do
        schema ← lift (parse J model_json)
        open_reader L path
        λ s. let (r, s') = body schema s in (r, (close_reader L s').1))
  unfolding dump_to_json with_reader
  dump_to_json-step model_json = refl

  dump_to_json-Dumped :
      (model_json text : Bytes) (s t : St Value)
      → dump_to_json J B X L path model_json s ≡ (ok text, t)
      → (schema : Schema) × (parse J model_json ≡ ok schema) × Dumped schema text
  dump_to_json-Dumped model_json text s t h =
      let (schema, s0, e, k) =
        >>=-eq-ok (lift {S = St Value} (parse J model_json)) _ s (rw dump_to_json-step at h) in
      let (a, s1, e1, k1) = >>=-eq-ok (open_reader L path) _ s0 k in
      (
        schema,
        ap (λ (x : Result Schema × St Value). x.0) e,
        body-Dumped schema text s1 (body schema s1).1
            (ap (λ (x : Result Bytes × St Value). (x.0, (body schema s1).1)) k1),
      )

module _ {F : Type 0} (J : JsonLib F) (B : FlatLib F) (X : FlexLib F) (L : LmdbLib)
    (a : ArrayLaws J) (o : ObjectLaws J) where
  open J use {Value}

  -- The text of an object in which every name has the array of the records collected under it.
  abbrev pub Written : Bytes → Schema → Bytes → Type 0
  Written path schema text =
      (docs : List (Bytes × Value)) × (h : Handles) × (h' : Handles) × (result : Value) × Collected
        J B X L path schema (objects (L.first path)) docs h h'
      × ((key : Bytes) → Holds J a o (J.index result key) (named J a o key docs))
      × (J.dump_indent 2 result ≡ ok text)

  -- Over a JSON library with the laws of arrays and objects, a dumpToJson that returns has parsed
  -- the model, has read every record of the store in the walk's order, without those of unknown
  -- entities, and returns the text of an object that has under each entity's name the array of that
  -- entity's records in their order, and null under a name that no record has.
  pub dump_to_json-Written :
      (path model_json text : Bytes) (s t : St Value)
      → dump_to_json J B X L path model_json s ≡ (ok text, t)
      → (schema : Schema) × (parse J model_json ≡ ok schema) × Written path schema text
  dump_to_json-Written path model_json text s t h =
      let (schema, parsed, (docs, h1, h2, c, e)) =
        dump_to_json-Dumped J B X L path model_json text s t h in
      (
        schema,
        parsed,
        (docs, h1, h2, append_all J J.object docs, c, (λ key. append_all-groups J a o docs key), e),
      )
