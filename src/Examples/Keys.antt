-- ===== src/Examples/Keys.antt =====
-- The theorems on the store and its keys, at small stores.
use ob_dump.Base.State.{Exec}
use ob_dump.Lmdb.{ObjectRecord}
use ob_dump.Lmdb.Walk.Stored.{Item, object, another, cursor_of}
use ob_dump.Base.{
  List, Bool, not, ◌==◌, ◌*◌, ◌+◌, ℕ, ◌↔◌, ◌%◌, ◌≡◌, refl, [], ◌∷◌, true, false, none, some, Bytes,
  codes, eqb, arith,
}
use ob_dump.Base.Int.{pos, ◌+ℤ◌, ◌*ℤ◌}
use ob_dump.Base.Exec.{std_exception, ok}
use ob_dump.Lmdb.{LmdbLib, ended, mdb_notfound}
use ob_dump.Lmdb.Keys.{
  read_uint32_be, write_uint32_be, read_uint32_be-write_uint32_be, write_uint32_be-read_uint32_be,
}
use ob_dump.Lmdb.Handles.{is_ok, Handles, St}
use ob_dump.Lmdb.Reader.{open_reader, open_reader-releases, open_reader-leaks_iff, is_examined}
use ob_dump.Lmdb.Links.{link_prefix, is_link, links, to_many_targets}
use ob_dump.Lmdb.Links.Complete.{IsOrderedStore, to_many_targets-links}
use ob_dump.Lmdb.Links.Prefix.{link_prefix_iff}
use ob_dump.Examples.Sample.{store_of, sample_store}

abbrev closed : Handles
closed = record { envs = 0; txns = 0; cursors = 0 }

abbrev start : St ℕ
start = record { handles = closed; user = 0 }

abbrev first_links : Bytes
first_links = 8 ∷ 0 ∷ 0 ∷ 4 ∷ 0 ∷ 0 ∷ 0 ∷ 1 ∷ []

data_key-no_prefix : (s : Bytes) → ¬ (0x18 ∷ s ≡ first_links)
data_key-no_prefix s h = cc

ordered : IsOrderedStore sample_store (codes "data.mdb") (link_prefix (pos 1) 1)
unfolding store_of link_prefix write_uint32_be ◌+ℤ◌ ◌*ℤ◌
ordered = record {
  sorted = ((refl, (refl, tt)), ((refl, tt), (tt, tt)));
  seeks = λ k. refl;
  format = (
    λ h. refl,
    (λ h. absurd (data_key-no_prefix _ h), (λ h. absurd (data_key-no_prefix _ h), tt)),
  );
  complete = refl;
}

to_many_targets-links_example :
    to_many_targets sample_store (codes "data.mdb") (pos 1) 1 closed ≡ (ok (7 ∷ []), closed)
unfolding store_of links link_prefix write_uint32_be read_uint32_be is_link eqb ◌+ℤ◌ ◌*ℤ◌
to_many_targets-links_example =
    to_many_targets-links sample_store (codes "data.mdb") (pos 1) 1 closed refl ordered

link_prefix_iff_example :
    (link_prefix (pos 1) 5 ≡ link_prefix (pos 65) 5) ↔ ((1 % 64 ≡ 65 % 64) × ◌≡◌ {A = ℕ} 5 5)
link_prefix_iff_example = link_prefix_iff 1 65 5 5 (omega arith) (omega arith)

read_uint32_be-write_uint32_be_example : read_uint32_be (write_uint32_be 70000) ≡ 70000
read_uint32_be-write_uint32_be_example = read_uint32_be-write_uint32_be 70000 (omega arith)

write_uint32_be-read_uint32_be_example :
    write_uint32_be (read_uint32_be (0 ∷ 1 ∷ 2 ∷ 255 ∷ [])) ≡ 0 ∷ 1 ∷ 2 ∷ 255 ∷ []
write_uint32_be-read_uint32_be_example =
    write_uint32_be-read_uint32_be 0 1 2 255 (omega arith) (omega arith) (omega arith) (omega arith)

-- The environment cannot begin a transaction.
abbrev busy : LmdbLib
busy = store_of (ended mdb_notfound) (true, none) (pos 11)

open_reader-releases_example : (open_reader busy (codes "data.mdb") start).1 ≡ start
unfolding store_of open_reader
open_reader-releases_example =
    open_reader-releases busy (codes "data.mdb") start _ refl refl refl refl

-- The path cannot be examined.
abbrev absent : LmdbLib
absent = store_of (ended mdb_notfound) (false, some (codes "denied")) (pos 0)

open_reader-leaks_iff_example :
    ((open_reader absent (codes "data.mdb") start).1.handles.envs ≡ 1)
    ↔ ((is_ok absent.env_create ≡ true) × (is_examined absent (codes "data.mdb") ≡ false))
unfolding store_of open_reader
open_reader-leaks_iff_example =
    open_reader-leaks_iff absent (codes "data.mdb") start
      (std_exception (codes "cannot stat path: data.mdb: denied")) refl

-- A schema entry and two objects, of which the callback stops at the second.
abbrev items : List Item
items =
    another (0 ∷ 0 ∷ []) (9 ∷ []) ∷ object 3 5 0 0 0 (codes "a") ∷ object 4 6 0 0 2 (codes "b") ∷ []

abbrev items_store : LmdbLib
items_store = store_of (cursor_of items mdb_notfound) (true, none) (pos 0)

abbrev until_six : ObjectRecord → Exec (St ℕ) Bool
until_six r s = (ok (not (r.object_id == 6)), record s { user = s.user * 10 + r.entity_id })

abbrev inside_walk : Handles
inside_walk = record { envs = 0; txns = 0; cursors = 1 }
