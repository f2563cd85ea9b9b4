-- ===== src/Lmdb/Links.antt =====
-- `LmdbReader::toManyTargets` of lmdb_reader.cpp: the links of one object by one relation.
pub mod Ordered
pub mod Complete
pub mod Prefix
use ob_dump.Base.{
  ℕ, ◌+◌, ◌*◌, ◌%◌, ◌≡◌, refl, Bool, true, false, not, ◌&&◌, ◌||◌, List, [], ◌∷◌, ◌++◌, Bytes,
  codes, arith, length, take, drop, ◌==◌, eqb, if◌then◌else◌,
}
use ob_dump.Base.Int.{ℤ, pos, wrap, eqb_ℤ, ◌*ℤ◌, ◌+ℤ◌}
use ob_dump.Base.Exec.{Result, ok, err}
use ob_dump.Base.State.{Exec, pure, lift, ◌>>=◌, ◌>>◌}
use ob_dump.Lmdb.{LmdbLib, Cursor, ended, entry, mdb_notfound}
use ob_dump.Lmdb.Keys.{
  key_type_relation, relation_direction_forward, read_uint32_be, write_uint32_be,
}
use ob_dump.Lmdb.Handles.{Handles, step, cursor_opened, cursor_closed, is_ok, check}

-- The eight bytes that the keys of one relation's links from one object begin with.
unfoldable pub link_prefix : ℤ → ℕ → Bytes
link_prefix relation source =
    key_type_relation
    ∷ 0
    ∷ 0
    ∷ wrap 256 (relation *ℤ pos 4 +ℤ pos relation_direction_forward)
    ∷ write_uint32_be source

-- `key.mv_size == sizeof(searchKey) && memcmp(keyBytes, prefix, sizeof(prefix)) == 0`
unfoldable pub is_link : Bytes → Bytes → Bool
is_link prefix key = length key == 12 && eqb (take 8 key) prefix

-- The loop; it returns the last `rc` and the targets.
unfoldable pub collect : Bytes → Cursor → List ℕ → ℤ × List ℕ
collect prefix (ended rc) targets = (rc, targets)
collect prefix (entry key value c) targets =
    let rest = collect prefix c (targets ++ read_uint32_be (drop 8 key) ∷ []) in
    if is_link prefix key then rest else (pos 0, targets)

pub finish : LmdbLib → ℤ → Result (Unit {0})
finish L rc =
    if is_ok rc || eqb_ℤ rc mdb_notfound then ok tt else check L rc (codes "mdb_cursor_get")

module _ (L : LmdbLib) where
  -- Behind the loop.
  unfoldable pub after_search : ℤ × List ℕ → Exec Handles (List ℕ)
  after_search (rc, targets) = do step cursor_closed; lift (finish L rc); pure targets

  unfoldable pub to_many_targets : Bytes → ℤ → ℕ → Exec Handles (List ℕ)
  unfolding collect finish after_search
  to_many_targets path relation source = do
    lift (check L L.cursor_open (codes "mdb_cursor_open"))
    step cursor_opened
    let prefix = link_prefix relation source
    after_search (collect prefix (L.set_range path (prefix ++ write_uint32_be 0)) [])

  search_step :
      (path : Bytes) (relation : ℤ) (source : ℕ) (s : Handles)
      → is_ok L.cursor_open ≡ true
      → to_many_targets path relation source s
        ≡ after_search
            (collect
              (link_prefix relation source)
              (L.set_range path (link_prefix relation source ++ write_uint32_be 0))
              [])
            (cursor_opened s)
  unfolding to_many_targets check
  search_step path relation source s opened = rw opened

-- The targets of all links of the store, in the order of their keys.
unfoldable pub links : Bytes → Cursor → List ℕ
links prefix (ended rc) = []
links prefix (entry key value c) =
    let rest = links prefix c in
    if is_link prefix key then read_uint32_be (drop 8 key) ∷ rest else rest
