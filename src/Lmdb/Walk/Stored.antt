-- ===== src/Lmdb/Walk/Stored.antt =====
-- `forEachObject` of lmdb_reader.cpp, on a store that is given by what is in it.
use ob_dump.Base.{
  ℕ, ◌+◌, ◌*◌, ◌<◌, ◌^◌, ◌≡◌, ◌≢◌, ◌⊎◌, List, [], ◌∷◌, ◌++◌, Bool, true, false, Bytes, codes,
  length, get_or, if◌then◌else◌,
}
use ob_dump.Base.Int.{ℤ, eqb_ℤ}
use ob_dump.Base.Exec.{Result, ok, runtime_error}
use ob_dump.Base.State.{Exec}
use ob_dump.Lmdb.{LmdbLib, Cursor, ended, entry, ObjectRecord, mdb_notfound}
use ob_dump.Lmdb.Keys.{write_uint32_be}
use ob_dump.Lmdb.Handles.{St}

-- What a store holds: an object of an entity under its key, whose second and third bytes and two low
-- bits of the fourth are not looked at, or anything under another key.
pub data Item : Type 0 where
  object : (entity_id object_id second third bits : ℕ) → Bytes → Item
  another : Bytes → Bytes → Item

abbrev pub key_of : Item → Bytes
key_of (object e o second third bits value) =
    0x18 ∷ second ∷ third ∷ (e * 4 + bits) ∷ write_uint32_be o
key_of (another key value) = key

abbrev pub value_of : Item → Bytes
value_of (object e o second third bits value) = value
value_of (another key value) = value

abbrev pub IsItem : Item → Type 0
IsItem (object e o second third bits value) = (e < 64) × (bits < 4) × (o < 2 ^ 32)
IsItem (another key value) = (length key ≢ 8) ⊎ (get_or key 0 0 ≢ 0x18)

-- A cursor over some items, with the code that it ends with.
abbrev pub cursor_of : List Item → ℤ → Cursor
cursor_of [] rc = ended rc
cursor_of (i ∷ is) rc = entry (key_of i) (value_of i) (cursor_of is rc)

-- The objects in their order.
abbrev pub records : List Item → List ObjectRecord
records [] = []
records (object e o second third bits value ∷ is) =
    record { entity_id = e; object_id = o; bytes = value } ∷ records is
records (another key value ∷ is) = records is

module _ {U : Type 0} (cb : ObjectRecord → Exec (St U) Bool) where
  -- Calls of a callback on one record after the other, and whether it has asked to stop.
  pub data Calls : List ObjectRecord → St U → St U → Bool → Type 0 where
    all_seen : {s : St U} → Calls [] s s false
    more :
        {r : ObjectRecord} {rs : List ObjectRecord} {s t u : St U} {stopped : Bool}
        → cb r s ≡ (ok true, t)
        → Calls rs t u stopped
        → Calls (r ∷ rs) s u stopped
    stop :
        {r : ObjectRecord} {rs : List ObjectRecord} {s t : St U}
        → cb r s ≡ (ok false, t)
        → Calls (r ∷ rs) s t true

-- What a walk reports.
abbrev pub report : LmdbLib → Bool → ℤ → Result (Unit {0})
report L true rc = ok tt
report L false rc =
    if eqb_ℤ rc mdb_notfound
    then ok tt
    else runtime_error (codes "mdb_cursor_get" ++ codes ": " ++ L.strerror rc)
