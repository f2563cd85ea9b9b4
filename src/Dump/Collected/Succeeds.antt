-- ===== src/Dump/Collected/Succeeds.antt =====
-- dumper.cpp: a store whose records can all be read is dumped.
use ob_dump.Base.{List, true, none, some, Bytes, codes, ◌≡◌, refl, ap, ◌∙◌}
use ob_dump.Base.Int.{ℤ, pos}
use ob_dump.Base.Exec.{Result, ok}
use ob_dump.Base.State.{lift, >>=-ok}
use ob_dump.Json.{JsonLib}
use ob_dump.Schema.{EntityDef}
use ob_dump.Schema.Parse.{Schema, find, parse}
use ob_dump.Lmdb.{LmdbLib, ObjectRecord}
use ob_dump.Lmdb.Handles.{
  Handles, St, inside, is_ok, check, check-ok, cursor_opened, cursor_closed, txn_opened, env_opened,
}
use ob_dump.Lmdb.Reader.{open_reader, close_reader, open_reader-ok}
use ob_dump.Lmdb.Walk.{
  visit, objects, visit-more, last_code, finish, for_each_object, for_each_object-visit,
}
use ob_dump.Decode.{FlatLib, FlexLib}
use ob_dump.Dump.{record_json, append_record, dump_record, dump_callback, dump_to_json}
use ob_dump.Dump.Groups.{append_all}
use ob_dump.Dump.Collected.{Collected, done, skipped, kept}
use ob_dump.Dump.Collected.Whole.{body, dump_to_json-step}

module _ {F : Type 0} (J : JsonLib F) (B : FlatLib F) (X : FlexLib F) (L : LmdbLib)
    (path : Bytes) where
  open J use {Value}

  abbrev pub at : Handles → Value → St Value
  at h u = record { handles = h; user = u }

  dump_record-keeps :
      (entity : EntityDef) (r : ObjectRecord) (h m : Handles) (u obj : Value)
      → record_json J B X L path entity r h ≡ (ok obj, m)
      → dump_record J B X L path entity r (at h u)
        ≡ (ok true, at m (append_record J u entity.name obj))
  unfolding dump_record
  dump_record-keeps entity r h m u obj read =
      >>=-ok (inside (record_json J B X L path entity r)) _ (at h u)
        (ap (λ (x : Result Value × Handles). (x.0, at x.1 u)) read)

  dump_callback-known :
      (schema : Schema) (entity : EntityDef) (r : ObjectRecord) (s : St Value)
      → find schema (pos r.entity_id) ≡ some entity
      → dump_callback J B X L path schema r s ≡ dump_record J B X L path entity r s
  unfolding dump_callback
  dump_callback-known schema entity r s e = rw (dump_callback, e) refl

  dump_callback-unknown :
      (schema : Schema) (r : ObjectRecord) (s : St Value)
      → find schema (pos r.entity_id) ≡ none
      → dump_callback J B X L path schema r s ≡ (ok true, s)
  unfolding dump_callback
  dump_callback-unknown schema r s e = rw (dump_callback, e) refl

  visit-Collected :
      (schema : Schema) (rc : ℤ) (u : Value) {rs : List ObjectRecord} {docs : List (Bytes × Value)}
      {h h' : Handles}
      → Collected J B X L path schema rs docs h h'
      → visit rs rc (dump_callback J B X L path schema) (at h u)
        ≡ (ok rc, at h' (append_all J u docs))
  unfolding visit append_all
  visit-Collected schema rc u done = refl
  visit-Collected schema rc u (skipped {r = r} {rs = rs} {h = h} missing rest) =
      visit-more r rs rc (dump_callback J B X L path schema) (at h u) (at h u)
        (dump_callback-unknown schema r (at h u) missing)
      ∙ visit-Collected schema rc u rest
  visit-Collected schema rc u (kept {r = r} {rs = rs} {h = h} {m = m} entity obj known read rest) =
      visit-more r rs rc (dump_callback J B X L path schema) (at h u)
        (at m (append_record J u entity.name obj))
        (dump_callback-known schema entity r (at h u) known
          ∙ dump_record-keeps entity r h m u obj read)
      ∙ visit-Collected schema rc (append_record J u entity.name obj) rest

  pub for_each_object-Collected :
      (schema : Schema) (h : Handles) (u : Value) {docs : List (Bytes × Value)} {h' : Handles}
      → is_ok L.cursor_open ≡ true
      → finish L (last_code (L.first path)) ≡ ok tt
      → Collected J B X L path schema (objects (L.first path)) docs (cursor_opened h) h'
      → for_each_object L path (dump_callback J B X L path schema) (at h u)
        ≡ (ok tt, at (cursor_closed h') (append_all J u docs))
  for_each_object-Collected schema h u {docs = docs} {h' = h'} opens ends c =
      let cb = dump_callback J B X L path schema in
      let end = last_code (L.first path) in
      rw for_each_object-visit (
        >>=-ok (lift (check L L.cursor_open (codes "mdb_cursor_open"))) _ (at h u) (
          ap (λ (x : Result (Unit {0})). (x, at h u))
            (check-ok L L.cursor_open (codes "mdb_cursor_open") opens))
        ∙ >>=-ok (visit (objects (L.first path)) end cb) _ (at (cursor_opened h) u)
            (visit-Collected schema end u c)
        ∙ ap (λ (x : Result (Unit {0})). (x, at (cursor_closed h') (append_all J u docs))) ends)

  body-succeeds :
      (schema : Schema) (h : Handles) (u : Value) {docs : List (Bytes × Value)} {h' : Handles}
      {text : Bytes}
      → is_ok L.cursor_open ≡ true
      → finish L (last_code (L.first path)) ≡ ok tt
      → Collected J B X L path schema (objects (L.first path)) docs (cursor_opened h) h'
      → J.dump_indent 2 (append_all J J.object docs) ≡ ok text
      → body J B X L path schema (at h u)
        ≡ (ok text, at (cursor_closed h') (append_all J J.object docs))
  body-succeeds schema h u {docs = docs} {h' = h'} opens ends c written =
      >>=-ok (for_each_object L path (dump_callback J B X L path schema)) _ (at h J.object)
        (for_each_object-Collected schema h J.object opens ends c)
      ∙ ap (λ (x : Result Bytes). (x, at (cursor_closed h') (append_all J J.object docs))) written

  -- The reader, the cursor, and the end of the walk are without an error.
  pub record Readable (s : St Value) : Type 0 where
    pub opens : (open_reader L path s).0 ≡ ok tt
    pub cursor : is_ok L.cursor_open ≡ true
    pub ends : finish L (last_code (L.first path)) ≡ ok tt

  pub dump_to_json-succeeds :
      (model_json text : Bytes) (schema : Schema) (docs : List (Bytes × Value)) (s : St Value)
      (h' : Handles)
      → Readable s
      → parse J model_json ≡ ok schema
      → Collected J B X L path schema
          (objects (L.first path))
          docs
          (cursor_opened (txn_opened (env_opened s.handles)))
          h'
      → J.dump_indent 2 (append_all J J.object docs) ≡ ok text
      → (t : St Value) × (dump_to_json J B X L path model_json s ≡ (ok text, t))
  dump_to_json-succeeds model_json text schema docs s h' ready parsed c written =
      let inner = txn_opened (env_opened s.handles) in
      let result = append_all J J.object docs in
      let walked = at (cursor_closed h') result in
      (
        (close_reader L walked).1,
        ap (λ m. m s) (dump_to_json-step J B X L path model_json)
            ∙ >>=-ok (lift (parse J model_json)) _ s (ap (λ (x : Result Schema). (x, s)) parsed)
            ∙ >>=-ok (open_reader L path) _ s (
                ap (λ (r : Result (Unit {0})). (r, (open_reader L path s).1)) ready.opens
                ∙ ap (λ (x : St Value). (ok tt, x)) (open_reader-ok L path s ready.opens))
            ∙ ap (λ (x : Result Bytes × St Value). (x.0, (close_reader L x.1).1))
                (body-succeeds schema inner s.user ready.cursor ready.ends c written),
      )
