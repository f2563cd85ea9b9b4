-- ===== src/Lmdb/Walk.antt =====
-- `LmdbReader::forEachObject` of lmdb_reader.cpp: one walk over the root database.
pub mod Stored
use ob_dump.Base.{
  true, false, ◌/◌, ◌≡◌, refl, Bool-cases, inl, inr, Bool, ◌&&◌, List, [], ◌∷◌, Bytes, codes,
  length, get_or, drop, ◌==◌, if◌then◌else◌,
}
use ob_dump.Base.Int.{ℤ, pos, eqb_ℤ}
use ob_dump.Base.Exec.{Result, ok}
use ob_dump.Base.State.{Exec, pure, lift, ◌>>=◌, ◌>>◌, >>=-ok}
use ob_dump.Lmdb.{LmdbLib, Cursor, ended, entry, ObjectRecord, mdb_notfound}
use ob_dump.Lmdb.Keys.{key_type_data, read_uint32_be}
use ob_dump.Lmdb.Handles.{St, on_handles, cursor_opened, cursor_closed, check}

-- `key.mv_size == 8 && keyBytes[0] == kKeyTypeData`
unfoldable pub is_data_key : Bytes → Bool
is_data_key key = length key == 8 && get_or key 0 0 == key_type_data

unfoldable pub record_of : Bytes → Bytes → ObjectRecord
record_of key value = record {
  entity_id = get_or key 3 0 / 4;
  object_id = read_uint32_be (drop 4 key);
  bytes = value;
}

-- The end of the walk: `MDB_NOTFOUND` is no error, nor is a stop that the callback asked for.
unfoldable pub finish : LmdbLib → ℤ → Result (Unit {0})
finish L rc = if eqb_ℤ rc mdb_notfound then ok tt else check L rc (codes "mdb_cursor_get")

module _ {U : Type 0} where
  -- The loop, with the callback; it returns the last `rc`.
  walk : Cursor → (ObjectRecord → Exec (St U) Bool) → Exec (St U) ℤ
  walk (ended rc) cb = pure rc
  walk (entry key value c) cb =
      let rest = walk c cb in
      if is_data_key key
      then (do more ← cb (record_of key value); if more then rest else pure (pos 0))
      else rest

  unfoldable pub for_each_object :
      LmdbLib → Bytes → (ObjectRecord → Exec (St U) Bool) → Exec (St U) (Unit {0})
  unfolding is_data_key record_of walk finish
  for_each_object L path cb = do
    lift (check L L.cursor_open (codes "mdb_cursor_open"))
    on_handles cursor_opened
    rc ← walk (L.first path) cb
    on_handles cursor_closed
    lift (finish L rc)

-- The records among the entries, and the code at the end.
unfoldable pub objects : Cursor → List ObjectRecord
objects (ended rc) = []
objects (entry key value c) =
    let rest = objects c in if is_data_key key then record_of key value ∷ rest else rest

abbrev pub last_code : Cursor → ℤ
last_code (ended rc) = rc
last_code (entry key value c) = last_code c

module _ {U : Type 0} where
  -- The callback on one record after the other, until it asks to stop or throws.
  unfoldable pub visit : List ObjectRecord → ℤ → (ObjectRecord → Exec (St U) Bool) → Exec (St U) ℤ
  visit [] rc cb = pure rc
  visit (r ∷ rs) rc cb =
      let rest = visit rs rc cb in do more ← cb r; if more then rest else pure (pos 0)

  pub visit-more :
      (r : ObjectRecord) (rs : List ObjectRecord) (rc : ℤ) (cb : ObjectRecord → Exec (St U) Bool)
      (s t : St U)
      → cb r s ≡ (ok true, t)
      → visit (r ∷ rs) rc cb s ≡ visit rs rc cb t
  unfolding visit
  visit-more r rs rc cb s t e = >>=-ok (cb r) _ s e

  pub visit-stop :
      (r : ObjectRecord) (rs : List ObjectRecord) (rc : ℤ) (cb : ObjectRecord → Exec (St U) Bool)
      (s t : St U)
      → cb r s ≡ (ok false, t)
      → visit (r ∷ rs) rc cb s ≡ (ok (pos 0), t)
  unfolding visit
  visit-stop r rs rc cb s t e = >>=-ok (cb r) _ s e

  walk-visit :
      (c : Cursor) (cb : ObjectRecord → Exec (St U) Bool)
      → walk c cb ≡ visit (objects c) (last_code c) cb
  unfolding walk visit objects
  walk-visit (ended rc) cb = refl
  walk-visit (entry key value c) cb = elim (Bool-cases (is_data_key key)) [
    | inl data_key ↦ rw (data_key, walk-visit c cb)
    | inr other ↦ rw other (walk-visit c cb)
  ]

  for_each_object-walk :
      (L : LmdbLib) (path : Bytes) (cb : ObjectRecord → Exec (St U) Bool)
      → for_each_object L path cb ≡ (do
        lift (check L L.cursor_open (codes "mdb_cursor_open"))
        on_handles cursor_opened
        rc ← walk (L.first path) cb
        on_handles cursor_closed
        lift (finish L rc))
  unfolding for_each_object
  for_each_object-walk L path cb = refl

  -- `for_each_object` opens one cursor, hands the data records to the callback in the order of the
  -- walk until it stops or throws, closes the cursor if it did not throw, and reports a code at the
  -- end that is neither the end of the data nor a stop.
  pub for_each_object-visit :
      (L : LmdbLib) (path : Bytes) (cb : ObjectRecord → Exec (St U) Bool)
      → for_each_object L path cb ≡ (do
        lift (check L L.cursor_open (codes "mdb_cursor_open"))
        on_handles cursor_opened
        rc ← visit (objects (L.first path)) (last_code (L.first path)) cb
        on_handles cursor_closed
        lift (finish L rc))
  for_each_object-visit L path cb = rw (for_each_object-walk, walk-visit)
