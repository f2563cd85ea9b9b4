-- ===== src/Lmdb/Reader.antt =====
-- `LmdbReader`'s constructor and destructor in lmdb_reader.cpp.
use ob_dump.Base.{
  ℕ, ◌+◌, ◌*◌, ◌^◌, ◌≡◌, ◌↔◌, ◌&&◌, Bool, true, false, none, some, Bytes, codes, ◌++◌, arith,
  if◌then◌else◌,
}
use ob_dump.Base.Int.{ℤ}
use ob_dump.Base.Exec.{Exception, Result, ok, err, runtime_error}
use ob_dump.Base.State.{Exec, pure, lift, ◌>>=◌, ◌>>◌}
use ob_dump.Lmdb.{LmdbLib, mdb_rdonly, mdb_nosubdir}
use ob_dump.Lmdb.Handles.{
  St, on_handles, env_opened, env_closed, txn_opened, txn_closed, is_ok, check,
}

abbrev no_stat : Bytes → Bytes → Bytes
no_stat path message = codes "cannot stat path: " ++ path ++ codes ": " ++ message

is_regular_file : LmdbLib → Bytes → Result Bool
is_regular_file L path =
    let (result, ec) = L.is_regular_file path in
    elim ec [ none ↦ ok result | some message ↦ runtime_error (no_stat path message) ]

env_flags : Bool → ℕ
env_flags regular = if regular then mdb_rdonly + mdb_nosubdir else mdb_rdonly

-- The two set calls succeed and the path can be examined.
abbrev pub is_examined : LmdbLib → Bytes → Bool
is_examined L path =
    is_ok (L.env_set_maxdbs 1)
    && is_ok (L.env_set_mapsize (4 * 2 ^ 30))
    && (elim (L.is_regular_file path).1 [ none ↦ true | some _ ↦ false ])

module _ (L : LmdbLib) {U : Type 0} where
  abbrev throw : Bytes → ℤ → Exec (St U) (Unit {0})
  throw what rc s = (runtime_error (what ++ L.strerror rc), s)

  dbi_step : Exec (St U) (Unit {0})
  dbi_step = if is_ok L.dbi_open then pure tt else do
    on_handles txn_closed
    on_handles env_closed
    throw (codes "mdb_dbi_open: ") L.dbi_open

  txn_step : Exec (St U) (Unit {0})
  txn_step =
      if is_ok L.txn_begin
      then (do on_handles txn_opened; dbi_step)
      else do on_handles env_closed; throw (codes "mdb_txn_begin: ") L.txn_begin

  open_step : Bytes → Bool → Exec (St U) (Unit {0})
  open_step path regular =
      let rc = L.env_open path (env_flags regular) 0o644 in
      if is_ok rc
      then txn_step
      else do on_handles env_closed; throw (codes "mdb_env_open(" ++ path ++ codes "): ") rc

  -- The constructor: the return codes in the order of the calls.
  unfoldable pub open_reader : Bytes → Exec (St U) (Unit {0})
  unfolding is_regular_file env_flags dbi_step txn_step open_step check
  open_reader path = do
    lift (check L L.env_create (codes "mdb_env_create"))
    on_handles env_opened
    lift (check L (L.env_set_maxdbs 1) (codes "mdb_env_set_maxdbs"))
    lift (check L (L.env_set_mapsize (4 * 2 ^ 30)) (codes "mdb_env_set_mapsize"))
    regular ← lift (is_regular_file L path)
    open_step path regular

  -- The destructor of an object whose constructor has returned.
  unfoldable pub close_reader : Exec (St U) (Unit {0})
  close_reader = do on_handles txn_closed; on_handles env_closed

  -- A block that owns a reader: the destructor runs however the block ends.
  unfoldable pub with_reader : {A : Type 0} → Bytes → Exec (St U) A → Exec (St U) A
  unfolding open_reader close_reader
  with_reader path body = do open_reader path; λ s. let (r, s') = body s in (r, (close_reader s').1)

  -- A constructor that returns has opened one environment and one transaction, and nothing else
  -- has changed.
  pub open_reader-ok :
      (path : Bytes) (s : St U)
      → (open_reader path s).0 ≡ ok tt
      → (open_reader path s).1 ≡ record s { handles = txn_opened (env_opened s.handles) }
  unfolding open_reader
  open_reader-ok path s h = ground arith

  -- A constructor that throws has released what it opened, if the two set calls and the stat of the
  -- path succeed: failures of open, begin and dbi_open are cleaned up.
  pub open_reader-releases :
      (path : Bytes) (s : St U) (e : Exception)
      → is_ok (L.env_set_maxdbs 1) ≡ true
      → is_ok (L.env_set_mapsize (4 * 2 ^ 30)) ≡ true
      → (L.is_regular_file path).1 ≡ none
      → (open_reader path s).0 ≡ err e
      → (open_reader path s).1 ≡ s
  unfolding open_reader
  open_reader-releases path s e m z t h = ground arith

  -- A constructor that throws leaves one more environment open just if it has created the
  -- environment and then one of the set calls has failed or the path could not be examined.
  pub open_reader-leaks_iff :
      (path : Bytes) (s : St U) (e : Exception)
      → (open_reader path s).0 ≡ err e
      → ((open_reader path s).1.handles.envs ≡ s.handles.envs + 1)
        ↔ ((is_ok L.env_create ≡ true) × (is_examined L path ≡ false))
  unfolding open_reader
  open_reader-leaks_iff path s e h = ground (arith, h)
