-- ===== src/Dump/Delivered/Whole.antt =====
-- A whole stream of a store, from the parse of the model to the end of the walk.
use ob_dump.Base.{List, true, Bytes, codes, ◌≡◌, refl, sym, ap, ◌∙◌, ℕ}
use ob_dump.Base.Exec.{Result, ok}
use ob_dump.Base.State.{Exec, lift, ◌>>=◌, ◌>>◌, >>=-eq-ok}
use ob_dump.Json.{JsonLib}
use ob_dump.Schema.Parse.{Schema, parse}
use ob_dump.Lmdb.{LmdbLib}
use ob_dump.Lmdb.Handles.{Handles, St, cursor_opened, check}
use ob_dump.Lmdb.Reader.{open_reader, close_reader, with_reader, open_reader-ok}
use ob_dump.Lmdb.Walk.{visit, objects, last_code, for_each_object, for_each_object-visit}
use ob_dump.Decode.{FlatLib, FlexLib}
use ob_dump.Dump.{RecordCallback, stream_callback, dump_streaming}
use ob_dump.Dump.Delivered.{Delivery, Delivered, consume, visit-Run}

snd-eq : {A B : Type 0} {x y : A × B} → x ≡ y → x.1 ≡ y.1
snd-eq e = ap (λ z. z.1) e

module _ {F : Type 0} (J : JsonLib F) (B : FlatLib F) (X : FlexLib F) (L : LmdbLib) (path : Bytes)
    {U : Type 0} (callback : RecordCallback U) where
  -- The records of the store have been delivered under a schema.
  abbrev pub Streams : Schema → U → U → Type 0
  Streams schema u u' =
      (ds : List Delivery) × (h : Handles) × (h' : Handles) × Delivered J B X L path schema
        (objects (L.first path)) ds h h'
      × (u' ≡ consume J B X L path schema callback ds u)

  for_each_object-Streams :
      ((name : Bytes) (id : ℕ) (fields : Bytes) (u : U) → (callback name id fields u).0 ≡ true)
      → (schema : Schema) (s t : St U)
      → for_each_object L path (stream_callback J B X L callback path schema) s ≡ (ok tt, t)
      → Streams schema s.user t.user
  for_each_object-Streams goes_on schema s t h =
      let rs = objects (L.first path) in
      let cb = stream_callback J B X L callback path schema in
      let end = last_code (L.first path) in
      let opened = lift {S = St U} (check L L.cursor_open (codes "mdb_cursor_open")) in
      let (a, s1, e1, k1) = >>=-eq-ok opened _ s (rw for_each_object-visit at h) in
      let s2 = record s1 { handles = cursor_opened s1.handles } in
      let (c, s3, e3, k3) = >>=-eq-ok (visit rs end cb) _ s2 k1 in
      let (ds, run, made) = visit-Run J B X L path schema callback goes_on rs end c s2 s3 e3 in
      (
        ds,
        s2.handles,
        s3.handles,
        run,
        ap (λ (x : St U). x.user) (sym (snd-eq k3))
            ∙ made
            ∙ ap (λ (x : St U). consume J B X L path schema callback ds x.user) (sym (snd-eq e1)),
      )

  dump_streaming-step :
      (model_json : Bytes)
      → dump_streaming J B X L callback path model_json ≡ (do
        schema ← lift (parse J model_json)
        with_reader L path (for_each_object L path (stream_callback J B X L callback path schema)))
  unfolding dump_streaming
  dump_streaming-step model_json = refl

  with_reader-step :
      {A : Type 0} (body : Exec (St U) A)
      → with_reader L path body
        ≡ (do open_reader L path; λ s. let (r, s') = body s in (r, (close_reader L s').1))
  unfolding with_reader
  with_reader-step body = refl

  closed-user : (s : St U) → (close_reader L s).1.user ≡ s.user
  unfolding close_reader
  closed-user s = refl

  with_reader-user :
      (body : Exec (St U) (Unit {0})) (s t : St U)
      → with_reader L path body s ≡ (ok tt, t)
      → (s1 : St U) × (s2 : St U) × (body s1 ≡ (ok tt, s2))
        × (s1.user ≡ s.user)
        × (t.user ≡ s2.user)
  with_reader-user body s t h =
      let (a, s1, e, k) = >>=-eq-ok (open_reader L path) _ s (rw with_reader-step at h) in
      (
        s1,
        (body s1).1,
        ap (λ (x : Result (Unit {0}) × St U). (x.0, (body s1).1)) k,
        ap (λ (x : St U). x.user)
            (sym (snd-eq e)
              ∙ open_reader-ok L path s (ap (λ (x : Result (Unit {0}) × St U). x.0) e)),
        ap (λ (x : St U). x.user) (sym (snd-eq k)) ∙ closed-user (body s1).1,
      )

  -- A stream of a store that ends without an exception, with a client that never stops: the model
  -- has been parsed, the client has been given the store's records one after the other, without
  -- those of unknown entities, and holds what it has made of them.
  pub dump_streaming-Streams :
      ((name : Bytes) (id : ℕ) (fields : Bytes) (u : U) → (callback name id fields u).0 ≡ true)
      → (model_json : Bytes) (s t : St U)
      → dump_streaming J B X L callback path model_json s ≡ (ok tt, t)
      → (schema : Schema) × (parse J model_json ≡ ok schema) × Streams schema s.user t.user
  dump_streaming-Streams goes_on model_json s t h =
      let (schema, s0, e, k) =
        >>=-eq-ok (lift {S = St U} (parse J model_json)) _ s (rw dump_streaming-step at h) in
      let walk = for_each_object L path (stream_callback J B X L callback path schema) in
      let (s1, s2, run, before, behind) = with_reader-user walk s0 t k in
      let (ds, hs, hs', d, made) = for_each_object-Streams goes_on schema s1 s2 run in
      (
        schema,
        ap (λ (x : Result Schema × St U). x.0) e,
        (
          ds,
          hs,
          hs',
          d,
          behind
              ∙ made
              ∙ ap (consume J B X L path schema callback ds)
                  (before ∙ ap (λ (x : St U). x.user) (sym (snd-eq e))),
        ),
      )
