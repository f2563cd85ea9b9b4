-- ===== src/Dump/Stream.antt =====
-- The two dumps agree: a streaming client is given what dumpToJson puts into its object.
use ob_dump.Base.{ℕ, List, [], ◌∷◌, true, Bytes, codes, ◌≡◌, ◌∙◌, sym, ap, arith}
use ob_dump.Base.Int.{ℤ}
use ob_dump.Base.Exec.{Result, ok}
use ob_dump.Base.State.{lift, >>=-eq-ok}
use ob_dump.Json.{JsonLib}
use ob_dump.Schema.Parse.{Schema}
use ob_dump.Lmdb.{LmdbLib, ObjectRecord}
use ob_dump.Lmdb.Handles.{Handles, St, is_ok, check, cursor_opened, cursor_closed}
use ob_dump.Lmdb.Walk.{visit, objects, last_code, finish, for_each_object, for_each_object-visit}
use ob_dump.Decode.{FlatLib, FlexLib}
use ob_dump.Dump.{RecordCallback, dump_callback, stream_callback}
use ob_dump.Dump.Groups.{append_all}
use ob_dump.Dump.Same.{stream_json-same}
use ob_dump.Dump.Delivered.{
  Delivery, Delivered, done, skipped, given, consume, visit-Run, visit-end,
}
use ob_dump.Dump.Collected.{Collected, done, skipped, kept}
use ob_dump.Dump.Collected.Succeeds.{at, for_each_object-Collected}

module _ {F : Type 0} (J : JsonLib F) where
  open J use {Value}

  -- The objects of some records under their entities' names, and deliveries that hold their texts.
  pub data Texts : List (Bytes × Value) → List Delivery → Type 0 where
    end : Texts [] []
    item :
        {docs : List (Bytes × Value)} {ds : List Delivery} (name : Bytes) (id : ℕ) (obj : Value)
        (fields : Bytes)
        → J.dump obj ≡ ok fields
        → Texts docs ds
        → Texts ((name, obj) ∷ docs) (record { name = name; object_id = id; fields = fields } ∷ ds)

check-is_ok :
    (L : LmdbLib) (rc : ℤ) (what : Bytes) {u : Unit {0}} → check L rc what ≡ ok u → is_ok rc ≡ true
unfolding check
check-is_ok L rc what h = ground (arith, h)

module _ {F : Type 0} (J : JsonLib F) (B : FlatLib F) (X : FlexLib F) (L : LmdbLib) (path : Bytes)
    (schema : Schema) where
  open J use {Value}

  -- What is collected of the records that were delivered.
  Delivered-Collected :
      {rs : List ObjectRecord} {ds : List Delivery} {h h' : Handles}
      → Delivered J B X L path schema rs ds h h'
      → (docs : List (Bytes × Value)) × Collected J B X L path schema rs docs h h' × Texts J docs ds
  Delivered-Collected done = ([], done, end)
  Delivered-Collected (skipped missing rest) =
      let (docs, c, w) = Delivered-Collected rest in (docs, skipped missing c, w)
  Delivered-Collected (given {r = r} {h = h} entity obj fields known read written rest) =
      let (docs, c, w) = Delivered-Collected rest in
      (
        (entity.name, obj) ∷ docs,
        kept entity obj known (ap (λ m. m h) (sym (stream_json-same J B X L path entity r)) ∙ read)
            c,
        item entity.name r.object_id obj fields written w,
      )

  module _ {U : Type 0} (callback : RecordCallback U) where
    -- What a stream leaves behind, against the walk of the other dump from the same LMDB objects.
    abbrev pub Agrees : St U → St U → Type 0
    Agrees s t =
        (docs : List (Bytes × Value)) × (ds : List Delivery) × Texts J docs ds
        × (t.user ≡ consume J B X L path schema callback ds s.user)
        × ((result : Value)
            → for_each_object L path (dump_callback J B X L path schema)
                (record { handles = s.handles; user = result })
              ≡ (ok tt, record { handles = t.handles; user = append_all J result docs }))

    -- If a stream to a client that never stops ends without an error, there are objects such that the
    -- client has been given the text of each, in their order and under its entity's name, and holds
    -- what it has made of that; and the walk of `dumpToJson` from the same LMDB objects ends without
    -- an error, with these objects put into its result in that order, and with the same LMDB objects
    -- open.
    pub dump-stream :
        (goes_on : (name : Bytes) (id : ℕ) (fields : Bytes) (u : U)
          → (callback name id fields u).0 ≡ true)
        (s t : St U)
        → for_each_object L path (stream_callback J B X L callback path schema) s ≡ (ok tt, t)
        → Agrees s t
    dump-stream goes_on s t h =
        let rs = objects (L.first path) in
        let cb = stream_callback J B X L callback path schema in
        let end = last_code (L.first path) in
        let opening = check L L.cursor_open (codes "mdb_cursor_open") in
        let (a, s1, e1, k1) =
          >>=-eq-ok (lift {S = St U} opening) _ s (rw for_each_object-visit at h) in
        let s2 = record s1 { handles = cursor_opened s1.handles } in
        let (c, s3, e3, k3) = >>=-eq-ok (visit rs end cb) _ s2 k1 in
        let same : s ≡ s1 = ap (λ (x : Result (Unit {0}) × St U). x.1) e1 in
        let opens = check-is_ok L L.cursor_open _ (ap (λ (x : Result (Unit {0}) × St U). x.0) e1) in
        let ends : finish L end ≡ ok tt =
          ap (finish L) (visit-end J B X L path schema callback goes_on rs end c s2 s3 e3)
          ∙ ap (λ (x : Result (Unit {0}) × St U). x.0) k3 in
        let left : record s3 { handles = cursor_closed s3.handles } ≡ t =
          ap (λ (x : Result (Unit {0}) × St U). x.1) k3 in
        let (ds, run, made) = visit-Run J B X L path schema callback goes_on rs end c s2 s3 e3 in
        let (docs, collected, texts) = Delivered-Collected run in
        (
          docs,
          ds,
          texts,
          ap (λ (x : St U). x.user) (sym left)
              ∙ made
              ∙ ap (λ (x : St U). consume J B X L path schema callback ds x.user) (sym same),
          λ result.
              ap
                (λ (x : St U).
                  for_each_object L path (dump_callback J B X L path schema)
                    (at J B X L path x.handles result))
                same
              ∙ for_each_object-Collected J B X L path schema s1.handles result opens ends collected
              ∙ ap (λ (x : St U). (ok tt, at J B X L path x.handles (append_all J result docs)))
                  left,
        )
