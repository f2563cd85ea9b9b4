-- ===== src/Api/Stops.antt =====
-- ob_dump.h: a record callback that stops the stream.
use ob_dump.Base.{ℕ, List, Bool, true, some, inr, Bytes, ◌≡◌, refl, ap, ◌∙◌}
use ob_dump.Base.Int.{ℤ, pos}
use ob_dump.Base.Exec.{Result, ok}
use ob_dump.Json.{JsonLib}
use ob_dump.Schema.Parse.{Schema, parse}
use ob_dump.Lmdb.{LmdbLib}
use ob_dump.Lmdb.Handles.{Handles, St, is_ok, cursor_opened, txn_opened, env_opened}
use ob_dump.Lmdb.Reader.{open_reader}
use ob_dump.Lmdb.Walk.{objects}
use ob_dump.Decode.{FlatLib, FlexLib}
use ob_dump.Dump.{dump_streaming}
use ob_dump.Dump.Delivered.{Delivery}
use ob_dump.Dump.Stopped.{Stopped, dump_streaming-Stopped}
use ob_dump.Api.{
  c_string, ObDumpSource, checked_path, Process, ObDumpRecordCallback, as_record_callback,
  stream_outcome, stream_path, ob_dump_stream, stream_no_buffer, stream_null_path,
}

module _ {F : Type 0} (J : JsonLib F) (B : FlatLib F) (X : FlexLib F) (L : LmdbLib)
    (malloc : ℕ → Bool) {U : Type 0} where
  stream_path-stops :
      (path m : Bytes) (cb : ObDumpRecordCallback U) (p : Process U) (t : St U)
      → dump_streaming J B X L
          (as_record_callback cb)
          path
          (c_string m)
          (record { handles = p.handles; user = p.user })
        ≡ (ok tt, t)
      → stream_path J B X L malloc path m cb p
        ≡ (pos 0, record p { handles = t.handles; user = t.user })
  unfolding stream_path
  stream_path-stops path m cb p t e =
      ap
        (λ (x : Result (Unit {0}) × St U).
          stream_outcome J B X L malloc x.0 (record p { handles = x.1.handles; user = x.1.user }))
        e

  stream_checked :
      (path m : Bytes) (cb : ObDumpRecordCallback U) (s : ObDumpSource) (p : Process U)
      → checked_path stream_no_buffer stream_null_path s ≡ inr path
      → ob_dump_stream J B X L malloc (some s) (some m) (some cb) p
        ≡ stream_path J B X L malloc path m cb p
  unfolding ob_dump_stream
  stream_checked path m cb s p e = rw (ob_dump_stream, e) refl

  -- Over a store that can be opened and a model that can be parsed: a stream whose callback returns
  -- another value than 0 at a record returns 0, whatever stands after that record in the store; the
  -- last error stays as it was, and the user's data is what the callback has made of the records up
  -- to that one.
  pub ob_dump_stream-stops :
      (source : ObDumpSource) (path m : Bytes) (cb : ObDumpRecordCallback U) (p : Process U)
      (schema : Schema) (ds : List Delivery) (u' : U) (h' : Handles)
      → checked_path stream_no_buffer stream_null_path source ≡ inr path
      → parse J (c_string m) ≡ ok schema
      → (open_reader L {U = U} path (record { handles = p.handles; user = p.user })).0 ≡ ok tt
      → is_ok L.cursor_open ≡ true
      → Stopped J B X L path
          (as_record_callback cb)
          schema
          (objects (L.first path))
          ds
          p.user
          u'
          (cursor_opened (txn_opened (env_opened p.handles)))
          h'
      → let (rc, q) = ob_dump_stream J B X L malloc (some source) (some m) (some cb) p in
        (rc ≡ pos 0) × (q.last_error ≡ p.last_error) × (q.user ≡ u') × (q.blocks ≡ p.blocks)
  ob_dump_stream-stops source path m cb p schema ds u' h' checked parsed opens cursor st =
      let before : St U = record { handles = p.handles; user = p.user } in
      let (t, ran, made) =
        dump_streaming-Stopped J B X L path (as_record_callback cb) (c_string m) schema ds before u'
          h' parsed opens cursor st in
      let e = stream_checked path m cb source p checked ∙ stream_path-stops path m cb p t ran in
      (
        ap (λ (x : ℤ × Process U). x.0) e,
        ap (λ (x : ℤ × Process U). x.1.last_error) e,
        ap (λ (x : ℤ × Process U). x.1.user) e ∙ made,
        ap (λ (x : ℤ × Process U). x.1.blocks) e,
      )
