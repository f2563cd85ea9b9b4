-- ===== src/Dump/Stopped.antt =====
-- dumper.cpp: a stream whose client stops it.
use ob_dump.Base.{List, [], ◌∷◌, Bool, true, false, none, some, Bytes, codes, ◌≡◌, refl, ap, ◌∙◌}
use ob_dump.Base.Int.{ℤ, pos}
use ob_dump.Base.Exec.{Result, ok}
use ob_dump.Base.State.{lift, ◌>>=◌, ◌>>◌, >>=-ok}
use ob_dump.Json.{JsonLib}
use ob_dump.Schema.{EntityDef}
use ob_dump.Schema.Parse.{Schema, find, parse}
use ob_dump.Lmdb.{LmdbLib, ObjectRecord}
use ob_dump.Lmdb.Handles.{
  Handles, St, inside, is_ok, check, check-ok, cursor_opened, cursor_closed, txn_opened, env_opened,
}
use ob_dump.Lmdb.Reader.{open_reader, close_reader, with_reader, open_reader-ok}
use ob_dump.Lmdb.Walk.{
  visit, objects, visit-more, visit-stop, last_code, finish, for_each_object, for_each_object-visit,
}
use ob_dump.Decode.{FlatLib, FlexLib}
use ob_dump.Dump.{RecordCallback, stream_json, stream_record, stream_callback, dump_streaming}
use ob_dump.Dump.Delivered.{Delivery}

module _ {F : Type 0} (J : JsonLib F) (B : FlatLib F) (X : FlexLib F) (L : LmdbLib) (path : Bytes)
    {U : Type 0} (callback : RecordCallback U) where
  open J use {Value}

  -- The records up to the one at which the client stops, with what it is given and its data before
  -- and behind. What stands after that record is of no account.
  pub data Stopped (schema : Schema)
      : List ObjectRecord → List Delivery → U → U → Handles → Handles → Type 0 where
    skips :
        {r : ObjectRecord} {rs : List ObjectRecord} {ds : List Delivery} {u u' : U} {h h' : Handles}
        → find schema (pos r.entity_id) ≡ none
        → Stopped schema rs ds u u' h h'
        → Stopped schema (r ∷ rs) ds u u' h h'
    goes_on :
        {r : ObjectRecord} {rs : List ObjectRecord} {ds : List Delivery} {u v u' : U}
        {h m h' : Handles} (entity : EntityDef) (obj : Value) (fields : Bytes)
        → find schema (pos r.entity_id) ≡ some entity
        → stream_json J B X L path entity r h ≡ (ok obj, m)
        → J.dump obj ≡ ok fields
        → callback entity.name r.object_id fields u ≡ (true, v)
        → Stopped schema rs ds v u' m h'
        → Stopped schema
            (r ∷ rs)
            (record { name = entity.name; object_id = r.object_id; fields = fields } ∷ ds)
            u
            u'
            h
            h'
    stops :
        {r : ObjectRecord} {rs : List ObjectRecord} {u u' : U} {h m : Handles} (entity : EntityDef)
        (obj : Value) (fields : Bytes)
        → find schema (pos r.entity_id) ≡ some entity
        → stream_json J B X L path entity r h ≡ (ok obj, m)
        → J.dump obj ≡ ok fields
        → callback entity.name r.object_id fields u ≡ (false, u')
        → Stopped schema
            (r ∷ rs)
            (record { name = entity.name; object_id = r.object_id; fields = fields } ∷ [])
            u
            u'
            h
            m

  abbrev at : Handles → U → St U
  at h u = record { handles = h; user = u }

  stream_record-gives :
      (entity : EntityDef) (r : ObjectRecord) (h m : Handles) (u u' : U) (obj : Value)
      (fields : Bytes) (more : Bool)
      → stream_json J B X L path entity r h ≡ (ok obj, m)
      → J.dump obj ≡ ok fields
      → callback entity.name r.object_id fields u ≡ (more, u')
      → stream_record J B X L callback path entity r (at h u) ≡ (ok more, at m u')
  unfolding stream_record
  stream_record-gives entity r h m u u' obj fields more read dumped called =
      >>=-ok (inside (stream_json J B X L path entity r)) _ (at h u)
        (ap (λ (x : Result Value × Handles). (x.0, at x.1 u)) read)
      ∙ >>=-ok (lift (J.dump obj)) _ (at m u) (ap (λ (x : Result Bytes). (x, at m u)) dumped)
      ∙ ap (λ (x : Bool × U). (ok x.0, at m x.1)) called

  stream_callback-known :
      (schema : Schema) (entity : EntityDef) (r : ObjectRecord) (s : St U)
      → find schema (pos r.entity_id) ≡ some entity
      → stream_callback J B X L callback path schema r s
        ≡ stream_record J B X L callback path entity r s
  unfolding stream_callback
  stream_callback-known schema entity r s e = rw (stream_callback, e) refl

  stream_callback-unknown :
      (schema : Schema) (r : ObjectRecord) (s : St U)
      → find schema (pos r.entity_id) ≡ none
      → stream_callback J B X L callback path schema r s ≡ (ok true, s)
  unfolding stream_callback
  stream_callback-unknown schema r s e = rw (stream_callback, e) refl

  visit-Stopped :
      (schema : Schema) (rc : ℤ) {rs : List ObjectRecord} {ds : List Delivery} {u u' : U}
      {h h' : Handles}
      → Stopped schema rs ds u u' h h'
      → visit rs rc (stream_callback J B X L callback path schema) (at h u) ≡ (ok (pos 0), at h' u')
  visit-Stopped schema rc (skips {r = r} {rs = rs} {u = u} {h = h} missing rest) =
      visit-more r rs rc (stream_callback J B X L callback path schema) (at h u) (at h u)
        (stream_callback-unknown schema r (at h u) missing)
      ∙ visit-Stopped schema rc rest
  visit-Stopped schema rc
        (goes_on {r = r} {rs = rs} {u = u} {v = v} {h = h} {m = m} entity obj fields known read
          dumped called rest) =
      visit-more r rs rc (stream_callback J B X L callback path schema) (at h u) (at m v) (
        stream_callback-known schema entity r (at h u) known
        ∙ stream_record-gives entity r h m u v obj fields true read dumped called)
      ∙ visit-Stopped schema rc rest
  visit-Stopped schema rc
        (stops {r = r} {rs = rs} {u = u} {u' = u'} {h = h} {m = m} entity obj fields known read
          dumped called) =
      visit-stop r rs rc (stream_callback J B X L callback path schema) (at h u) (at m u') (
        stream_callback-known schema entity r (at h u) known
        ∙ stream_record-gives entity r h m u u' obj fields false read dumped called)

  finished : finish L (pos 0) ≡ ok tt
  unfolding finish check
  finished = refl

  for_each_object-Stopped :
      (schema : Schema) (h : Handles) {ds : List Delivery} {u u' : U} {h' : Handles}
      → is_ok L.cursor_open ≡ true
      → Stopped schema (objects (L.first path)) ds u u' (cursor_opened h) h'
      → for_each_object L path (stream_callback J B X L callback path schema) (at h u)
        ≡ (ok tt, at (cursor_closed h') u')
  for_each_object-Stopped schema h {u = u} {u' = u'} {h' = h'} opens st =
      let cb = stream_callback J B X L callback path schema in
      rw for_each_object-visit (
        >>=-ok (lift (check L L.cursor_open (codes "mdb_cursor_open"))) _ (at h u) (
          ap (λ (x : Result (Unit {0})). (x, at h u))
            (check-ok L L.cursor_open (codes "mdb_cursor_open") opens))
        ∙ >>=-ok (visit (objects (L.first path)) (last_code (L.first path)) cb) _
            (at (cursor_opened h) u) (visit-Stopped schema (last_code (L.first path)) st)
        ∙ ap (λ (x : Result (Unit {0})). (x, at (cursor_closed h') u')) finished)

  dump_streaming-step :
      (model_json : Bytes) (s : St U)
      → dump_streaming J B X L callback path model_json s
        ≡ (do
          schema ← lift (parse J model_json)
          open_reader L path
          λ t.
              let (r, t') =
                for_each_object L path (stream_callback J B X L callback path schema) t in
              (r, (close_reader L t').1))
            s
  unfolding dump_streaming with_reader
  dump_streaming-step model_json s = refl

  -- Over a store that can be opened and a model that can be parsed: if the client stops at a record,
  -- the stream returns without an exception, whatever stands after that record in the store, and the
  -- client's data is what it has made of the records up to that one, in their order.
  pub dump_streaming-Stopped :
      (model_json : Bytes) (schema : Schema) (ds : List Delivery) (s : St U) (u' : U) (h' : Handles)
      → parse J model_json ≡ ok schema
      → (open_reader L path s).0 ≡ ok tt
      → is_ok L.cursor_open ≡ true
      → Stopped schema
          (objects (L.first path))
          ds
          s.user
          u'
          (cursor_opened (txn_opened (env_opened s.handles)))
          h'
      → (t : St U) × (dump_streaming J B X L callback path model_json s ≡ (ok tt, t))
        × (t.user ≡ u')
  unfolding close_reader
  dump_streaming-Stopped model_json schema ds s u' h' parsed opens cursor st =
      let inner = txn_opened (env_opened s.handles) in
      let last = at (cursor_closed h') u' in
      (
        (close_reader L last).1,
        dump_streaming-step model_json s
            ∙ >>=-ok (lift (parse J model_json)) _ s (ap (λ (x : Result Schema). (x, s)) parsed)
            ∙ >>=-ok (open_reader L path) _ s (
                ap (λ (r : Result (Unit {0})). (r, (open_reader L path s).1)) opens
                ∙ ap (λ (x : St U). (ok tt, x)) (open_reader-ok L path s opens))
            ∙ ap (λ (x : Result (Unit {0}) × St U). (x.0, (close_reader L x.1).1))
                (for_each_object-Stopped schema inner cursor st),
        refl,
      )
