-- ===== src/Examples/Sample.antt =====
-- Small instances of the libraries that the sources call.
mod Docs
unfoldable pub use Docs.*
use ob_dump.Base.{
  ℕ, ◌+◌, ◌-◌, List, [], ◌∷◌, ◌++◌, Bool, true, false, not, Option, none, some, Bytes, codes,
  length, get_or, drop, ltb, ◌==◌, eqb, eqb_refl, eqb_iff, if◌then◌else◌, ◌≡◌, ◌≢◌, refl, ap, arith,
  Bool-cases, inl, inr,
}
use ob_dump.Base.Int.{ℤ, pos}
use ob_dump.Base.Exec.{Result, ok, err, unknown}
use ob_dump.Json.{Number, JsonLib, ArrayLaws, ObjectLaws}
use ob_dump.Lmdb.{Cursor, ended, entry, LmdbLib, mdb_notfound}
use ob_dump.Lmdb.Links.Ordered.{drop_below}
use ob_dump.Decode.{FlatLib, FlexLib}

-- Values that are their own texts.
unfoldable pub text_json : JsonLib ℕ
text_json = record {
  Value = Bytes;
  parse = λ s. ok s;
  dump = λ s. ok s;
  dump_indent = λ _ s. ok s;
  contains = λ _ _. false;
  at = λ _ _. err unknown;
  is_array = λ _. false;
  items = λ _. [];
  get_string = λ s. ok s;
  get_int = λ _. err unknown;
  null = [];
  boolean = λ _. codes "b";
  number = λ _. codes "n";
  string = λ s. s;
  array = codes "[";
  object = codes "{";
  push_back = λ a v. a ++ v;
  set = λ o k v. o ++ k ++ v;
  index = λ _ _. [];
}

-- A table is its fields, a byte each, from slot 4 on; a field of 255 is unsound.
unfoldable pub byte_tables : FlatLib ℕ
byte_tables = record {
  Verifier = Unit {0};
  Table = Bytes;
  Pointer = Bytes;
  verifier = λ _. tt;
  verify_root_offset = λ _. 4;
  get_root = λ bytes. bytes;
  verify_table_start = λ _ _. true;
  check_field = λ t slot. ltb slot (length t + 4);
  verify_field = λ _ t _ slot _. not (get_or t (slot - 4) 0 == 255);
  get_field = λ _ t slot. Number.int (pos (get_or t (slot - 4) 0));
  get_uint8 = λ t slot. get_or t (slot - 4) 0;
  verify_offset = λ _ _ _. true;
  get_pointer = λ t slot. some (drop (slot - 4) t);
  verify_string = λ _ _. true;
  verify_vector = λ _ _ _. true;
  verify_offsets = λ _ _. true;
  verify_vector_of_strings = λ _ _. true;
  string_at = λ p. p;
  vector_size = length;
  vector_get = λ _ p i. Number.int (pos (get_or p i 0));
  vector_uint8 = λ p i. get_or p i 0;
  vector_string = λ p i. get_or p i 0 ∷ [];
  vector_data = λ p. p;
}

-- 0 is null, and any other number a vector of the number before it.
unfoldable pub nested_numbers : FlexLib ℕ
nested_numbers = record {
  Reference = ℕ;
  Vec = ℕ;
  Map = ℕ;
  verify_buffer = λ _. true;
  get_root = λ bytes. get_or bytes 0 0;
  is_null = λ r. r == 0;
  is_bool = λ _. false;
  is_int = λ _. false;
  is_uint = λ _. false;
  is_float = λ _. false;
  is_string = λ _. false;
  is_blob = λ _. false;
  is_map = λ _. false;
  is_typed_vector = λ _. false;
  is_fixed_typed_vector = λ _. false;
  is_vector = λ r. ltb 0 r;
  as_bool = λ _. false;
  as_int64 = λ _. pos 0;
  as_uint64 = λ _. 0;
  as_double = λ _. 0;
  as_string = λ _. [];
  as_blob = λ _. [];
  as_key = λ _. [];
  as_map = λ r. r;
  keys = λ m. m;
  values = λ m. m;
  as_typed_vector = λ r. r;
  as_fixed_typed_vector = λ r. r;
  as_vector = λ r. r;
  size = λ _. 1;
  element = λ v i. v - 1;
  depth = λ r. r;
}

-- A store at every path: the walk `c`, found by its keys; what fails is given.
unfoldable pub store_of : Cursor → Bool × Option Bytes → ℤ → LmdbLib
store_of c stat begins = record {
  env_create = pos 0;
  env_set_maxdbs = λ _. pos 0;
  env_set_mapsize = λ _. pos 0;
  env_open = λ _ _ _. pos 0;
  txn_begin = begins;
  dbi_open = pos 0;
  cursor_open = pos 0;
  strerror = λ _. codes "failed";
  is_regular_file = λ _. stat;
  first = λ _. c;
  set_range = λ _ k. drop_below k c;
}

-- Two objects of the entity 1, and a link by the relation 1 from the first to an object 7.
abbrev pub data_key : ℕ → Bytes
data_key id = 0x18 ∷ 0 ∷ 0 ∷ 4 ∷ 0 ∷ 0 ∷ 0 ∷ id ∷ []

abbrev pub link_key : Bytes
link_key = 8 ∷ 0 ∷ 0 ∷ 4 ∷ 0 ∷ 0 ∷ 0 ∷ 1 ∷ 0 ∷ 0 ∷ 0 ∷ 7 ∷ []

abbrev pub sample_walk : Cursor
sample_walk =
    entry link_key []
      (entry (data_key 1) (5 ∷ 6 ∷ []) (entry (data_key 2) (7 ∷ []) (ended mdb_notfound)))

abbrev pub sample_store : LmdbLib
sample_store = store_of sample_walk (true, none) (pos 0)
