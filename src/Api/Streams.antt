-- ===== src/Api/Streams.antt =====
-- What `ob_dump_stream` promises of its result and of the last error.
use ob_dump.Base.{ℕ, Bool, Option, none, some, ◌⊎◌, inl, inr, Bytes, ◌≡◌, refl}
use ob_dump.Base.Int.{ℤ, pos, negsuc}
use ob_dump.Base.Exec.{Result, ok, err}
use ob_dump.Json.{JsonLib}
use ob_dump.Lmdb.{LmdbLib}
use ob_dump.Lmdb.Handles.{St}
use ob_dump.Decode.{FlatLib, FlexLib}
use ob_dump.Dump.{dump_streaming}
use ob_dump.Api.{
  c_string, ObDumpSource, checked_path, Process, ObDumpRecordCallback, as_record_callback,
  stream_outcome, ob_dump_stream, stream_path, stream_no_buffer, stream_null_path,
}

module _ {F : Type 0} (J : JsonLib F) (B : FlatLib F) (X : FlexLib F) (L : LmdbLib)
    (malloc : ℕ → Bool) {U : Type 0} where
  abbrev state_of : Process U → St U
  state_of p = record { handles = p.handles; user = p.user }

  -- The stream of a path by a callback has ended without an exception.
  abbrev pub Streamed : Bytes → Bytes → ObDumpRecordCallback U → Process U → Process U → Type 0
  Streamed path m callback p q =
      dump_streaming J B X L (as_record_callback callback) path (c_string m) (state_of p)
      ≡ (ok tt, state_of q)

  -- A call of the stream that returns `rc` and ends in `q`.
  abbrev pub Returns :
      ℤ
      → Process U
      → Option ObDumpSource
      → Option Bytes
      → Option (ObDumpRecordCallback U)
      → Process U
      → Type 0
  Returns rc q source model_json callback p =
      ((rc ≡ pos 0)
        × (q.last_error ≡ p.last_error)
        × ((s : ObDumpSource) × (m : Bytes) × (cb : ObDumpRecordCallback U) × (path : Bytes)
            × (source ≡ some s)
            × (model_json ≡ some m)
            × (callback ≡ some cb)
            × (checked_path stream_no_buffer stream_null_path s ≡ inr path)
            × Streamed path m cb p q))
      ⊎ (rc ≡ negsuc 0)

  stream_outcome-cases :
      (path m : Bytes) (cb : ObDumpRecordCallback U) (p : Process U) (r : Result (Unit {0}))
      (s : St U)
      → dump_streaming J B X L (as_record_callback cb) path (c_string m) (state_of p) ≡ (r, s)
      → let (rc, q) =
          stream_outcome J B X L malloc r (record p { handles = s.handles; user = s.user }) in
        (q.blocks ≡ p.blocks)
        × (((rc ≡ pos 0) × (q.last_error ≡ p.last_error) × Streamed path m cb p q)
            ⊎ (rc ≡ negsuc 0))
  stream_outcome-cases path m cb p (ok x) s e = (refl, inl (refl, refl, e))
  stream_outcome-cases path m cb p (err x) s e = (refl, inr refl)

  pub stream_path-cases :
      (path m : Bytes) (cb : ObDumpRecordCallback U) (p : Process U)
      → let (rc, q) = stream_path J B X L malloc path m cb p in
        (q.blocks ≡ p.blocks)
        × (((rc ≡ pos 0) × (q.last_error ≡ p.last_error) × Streamed path m cb p q)
            ⊎ (rc ≡ negsuc 0))
  unfolding stream_path
  stream_path-cases path m cb p =
      let run = dump_streaming J B X L (as_record_callback cb) path (c_string m) (state_of p) in
      stream_outcome-cases path m cb p run.0 run.1 refl

  -- A stream that returns 0 has been given a source of kind path with a path, a model and a
  -- callback, has ended without an exception, and leaves the last error as it was; any other
  -- returns -1. No block is left allocated either way.
  pub ob_dump_stream-Returns :
      (source : Option ObDumpSource) (model_json : Option Bytes)
      (callback : Option (ObDumpRecordCallback U)) (p : Process U)
      → let (rc, q) = ob_dump_stream J B X L malloc source model_json callback p in
        (q.blocks ≡ p.blocks) × Returns rc q source model_json callback p
  unfolding ob_dump_stream
  ob_dump_stream-Returns none model_json callback p = (refl, inr refl)
  ob_dump_stream-Returns (some s) none callback p = (refl, inr refl)
  ob_dump_stream-Returns (some s) (some m) none p = (refl, inr refl)
  ob_dump_stream-Returns (some s) (some m) (some cb) p =
      by_check (checked_path stream_no_buffer stream_null_path s) refl
    where
      by_check :
          (c : Bytes ⊎ Bytes)
          → checked_path stream_no_buffer stream_null_path s ≡ c
          → let called : ℤ × Process U = elim c [
            | inl message ↦ (negsuc 0, record p { last_error = message })
            | inr path ↦ stream_path J B X L malloc path m cb p
          ] in
            (called.1.blocks ≡ p.blocks) × Returns called.0 called.1 (some s) (some m) (some cb) p
      by_check (inl message) e = (refl, inr refl)
      by_check (inr path) e =
          let (b, c) = stream_path-cases path m cb p in
          (
            b,
            elim c [
              | inl (z, l, d) ↦ inl (z, l, (s, m, cb, path, refl, refl, refl, e, d))
              | inr n ↦ inr n
            ],
          )
