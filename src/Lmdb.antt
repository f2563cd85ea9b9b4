-- ===== src/Lmdb.antt =====
-- lmdb_reader.hpp, and LMDB itself, which the sources only call: a parameter.
pub mod Lex
pub mod Keys
pub mod Handles
pub mod Reader
pub mod Walk
pub mod Links
pub mod Balance
use ob_dump.Base.{ℕ, Bytes, Bool, Option}
use ob_dump.Base.Int.{ℤ, negsuc}

-- What the calls of `mdb_cursor_get` return one after the other: entries, then a code that is not 0.
pub data Cursor : Type 0 where
  ended : ℤ → Cursor
  entry : Bytes → Bytes → Cursor → Cursor

-- The return codes of LMDB's functions, and what its cursors see in the store at a path.
pub record LmdbLib : Type 0 where
  pub env_create : ℤ
  pub env_set_maxdbs : ℕ → ℤ
  pub env_set_mapsize : ℕ → ℤ
  -- the path, the flags, the mode
  pub env_open : Bytes → ℕ → ℕ → ℤ
  pub txn_begin : ℤ
  pub dbi_open : ℤ
  pub cursor_open : ℤ
  pub strerror : ℤ → Bytes
  -- std::filesystem::is_regular_file, with the message of the error code if one is set
  pub is_regular_file : Bytes → Bool × Option Bytes
  -- MDB_FIRST and then MDB_NEXT; MDB_SET_RANGE at a key and then MDB_NEXT
  pub first : Bytes → Cursor
  pub set_range : Bytes → Bytes → Cursor

abbrev pub mdb_notfound : ℤ
mdb_notfound = negsuc 30797

abbrev pub mdb_rdonly : ℕ
mdb_rdonly = 0x2_0000

abbrev pub mdb_nosubdir : ℕ
mdb_nosubdir = 0x4000

-- One object-data record of the root database.
pub record ObjectRecord : Type 0 where
  pub entity_id : ℕ
  pub object_id : ℕ
  pub bytes : Bytes
