-- ===== src/Lmdb/Links/Complete.antt =====
-- In an ordered store `to_many_targets` finds every link of its object and relation.
use ob_dump.Base.{
  ℕ, ◌≡◌, ◌↔◌, ◌⊎◌, ◌∙◌, refl, sym, ap, true, false, List, [], ◌∷◌, ◌++◌, Bytes, arith, length,
  take, drop, eqb_iff, Bool-cases, inl, inr, length-drop, take-append-drop, append_assoc,
  append-nil, take-append,
}
use mathlib.Core.Bool.{false≢true}
use ob_dump.Base.Int.{ℤ, pos}
use ob_dump.Base.Exec.{ok}
use ob_dump.Lmdb.{LmdbLib, Cursor, ended, entry, mdb_notfound}
use ob_dump.Lmdb.Lex.{lex_ltb, prefix_between, zeros_first}
use ob_dump.Lmdb.Keys.{read_uint32_be, write_uint32_be}
use ob_dump.Lmdb.Walk.{last_code}
use ob_dump.Lmdb.Handles.{Handles, cursor_opened, is_ok}
use ob_dump.Lmdb.Links.{
  link_prefix, is_link, links, collect, finish, after_search, search_step, to_many_targets,
}
use ob_dump.Lmdb.Links.Ordered.{
  AllKeys, IsSorted, drop_below, AllKeys-drop_below, IsSorted-drop_below, last_code-drop_below,
  drop_below-not_before,
}

-- What LMDB promises of the store at `path`, and what ObjectBox's key format promises of the keys
-- that begin with `prefix`.
pub record IsOrderedStore (L : LmdbLib) (path prefix : Bytes) : Type 0 where
  pub sorted : IsSorted (L.first path)
  pub seeks : (k : Bytes) → L.set_range path k ≡ drop_below k (L.first path)
  pub format : AllKeys (λ k. take 8 k ≡ prefix → length k ≡ 12) (L.first path)
  pub complete : last_code (L.first path) ≡ mdb_notfound

-- The codes after which `to_many_targets` returns.
abbrev IsEnd : ℤ → Type 0
IsEnd rc = (rc ≡ pos 0) ⊎ (rc ≡ mdb_notfound)

abbrev zeros : Bytes
zeros = 0 ∷ 0 ∷ 0 ∷ 0 ∷ []

module _ (p : Bytes) (eight : length p ≡ 8) where
  is_link_iff : (k : Bytes) → (is_link p k ≡ true) ↔ ((length k ≡ 12) × (take 8 k ≡ p))
  unfolding is_link
  is_link_iff k = (
    λ h. ground (arith, eqb_iff (take 8 k) p),
    λ (n, e). ground (arith, (eqb_iff (take 8 k) p).1 e, n),
  )

  begins : (t : Bytes) → take 8 (p ++ t) ≡ p
  begins t = rw eight at (take-append p t)

  -- A link's key is the prefix and four bytes.
  link_parts : (k : Bytes) → is_link p k ≡ true → (t : Bytes) × (k ≡ p ++ t) × (length t ≡ 4)
  link_parts k h =
      let (n, e) = (is_link_iff k).0 h in
      (
        drop 8 k,
        sym (take-append-drop 8 k) ∙ ap (λ (q : Bytes). q ++ drop 8 k) e,
        omega (arith, length-drop 8 k, n),
      )

  -- A link's key is not before the key that is sought.
  link_not_before : (k : Bytes) → is_link p k ≡ true → lex_ltb k (p ++ zeros) ≡ false
  link_not_before k h =
      let (t, e, n) = link_parts k h in
      ap (λ (q : Bytes). lex_ltb q (p ++ zeros)) e ∙ zeros_first p t n

  links-drop_below : (c : Cursor) → links p (drop_below (p ++ zeros) c) ≡ links p c
  unfolding links
  links-drop_below (ended rc) = refl
  links-drop_below (entry k v c) = elim (Bool-cases (lex_ltb k (p ++ zeros))) [
    | inl before ↦ ground (arith, links-drop_below c, link_not_before k)
    | inr not_before ↦ rw not_before
  ]

  -- Between the sought key and a link there are only links.
  link_between :
      (k k' t : Bytes)
      → lex_ltb k (p ++ zeros) ≡ false
      → (take 8 k ≡ p → length k ≡ 12)
      → k' ≡ p ++ t
      → lex_ltb k k' ≡ true
      → is_link p k ≡ true
  link_between k k' t a f e l =
      let (r, q) = prefix_between p zeros k t a (rw e at l) in
      let b : take 8 k ≡ p = ap (take 8) q ∙ begins r in (is_link_iff k).1 (f b, b)

  -- Behind a key that is no link and not before the sought key there is no link.
  no_link_behind :
      (k k' : Bytes)
      → lex_ltb k (p ++ zeros) ≡ false
      → (take 8 k ≡ p → length k ≡ 12)
      → is_link p k ≡ false
      → lex_ltb k k' ≡ true
      → is_link p k' ≡ false
  no_link_behind k k' a f n l = elim (Bool-cases (is_link p k')) [
    | inl h ↦
        let (t, e, _) = link_parts k' h in absurd (false≢true (sym n ∙ link_between k k' t a f e l))
    | inr h ↦ h
  ]

  links-nil :
      (k : Bytes) (c : Cursor)
      → lex_ltb k (p ++ zeros) ≡ false
      → (take 8 k ≡ p → length k ≡ 12)
      → is_link p k ≡ false
      → AllKeys (λ k'. lex_ltb k k' ≡ true) c
      → links p c ≡ []
  unfolding links
  links-nil k (ended rc) a f n l = refl
  links-nil k (entry k' v c) a f n (l, ls) =
      rw (no_link_behind k k' a f n l) (links-nil k c a f n ls)

  abbrev NotBefore : Cursor → Type 0
  NotBefore = AllKeys (λ k. lex_ltb k (p ++ zeros) ≡ false)

  abbrev IsFormatted : Cursor → Type 0
  IsFormatted = AllKeys (λ k. take 8 k ≡ p → length k ≡ 12)

  -- The loop returns the links of a walk that starts at the sought key.
  collect-links :
      (c : Cursor) (done : List ℕ)
      → IsSorted c
      → NotBefore c
      → IsFormatted c
      → last_code c ≡ mdb_notfound
      → (finished : ℤ) × (collect p c done ≡ (finished, done ++ links p c)) × IsEnd finished
  unfolding collect links
  collect-links (ended rc) done s a f e = (rc, rw append-nil, inr e)
  collect-links (entry k v c) done s a f e = elim (Bool-cases (is_link p k)) [
    | inl link ↦
        let (finished, r, end) =
          collect-links c (done ++ read_uint32_be (drop 8 k) ∷ []) s.1 a.1 f.1 e in
        (finished, rw link (r ∙ ap (λ (l : List ℕ). (finished, l)) (append_assoc done _ _)), end)
    | inr other ↦ (pos 0, rw (other, links-nil k c a.0 f.0 other s.0, append-nil), inl refl)
  ]

length-link_prefix : (relation : ℤ) (source : ℕ) → length (link_prefix relation source) ≡ 8
unfolding link_prefix write_uint32_be
length-link_prefix relation source = refl

after_search-end :
    (L : LmdbLib) (rc : ℤ) (targets : List ℕ) (s : Handles)
    → IsEnd rc
    → after_search L (rc, targets) (cursor_opened s) ≡ (ok targets, s)
unfolding after_search finish
after_search-end L rc targets s (inl e) = ground (arith, e)
after_search-end L rc targets s (inr e) = ground (arith, e)

module _ (L : LmdbLib) (path : Bytes) (relation : ℤ) (source : ℕ) where
  abbrev prefix : Bytes
  prefix = link_prefix relation source

  sought_links :
      IsOrderedStore L path prefix
      → (finished : ℤ) × (collect prefix (L.set_range path (prefix ++ write_uint32_be 0)) []
          ≡ (finished, links prefix (L.first path)))
        × IsEnd finished
  unfolding write_uint32_be
  sought_links o =
      let c = drop_below (prefix ++ zeros) (L.first path) in
      let eight = length-link_prefix relation source in
      let (finished, r, end) =
        collect-links prefix eight c []
          (IsSorted-drop_below (prefix ++ zeros) (L.first path) o.sorted)
          (drop_below-not_before (prefix ++ zeros) (L.first path) o.sorted)
          (AllKeys-drop_below _ (prefix ++ zeros) (L.first path) o.format)
          (last_code-drop_below (prefix ++ zeros) (L.first path) ∙ o.complete) in
      (
        finished,
        ap (λ (d : Cursor). collect prefix d []) (o.seeks (prefix ++ zeros))
            ∙ r
            ∙ ap (λ (l : List ℕ). (finished, l)) (links-drop_below prefix eight (L.first path)),
        end,
      )

  -- If a cursor can be opened, and the store is ordered, complete and has keys of twelve bytes
  -- behind the prefix, the reader returns the target of every link key of the relation and the
  -- object, and no other, in the order of the keys, and leaves no cursor open.
  pub to_many_targets-links :
      (s : Handles)
      → is_ok L.cursor_open ≡ true
      → IsOrderedStore L path prefix
      → to_many_targets L path relation source s ≡ (ok (links prefix (L.first path)), s)
  to_many_targets-links s opened o =
      let (finished, r, end) = sought_links o in
      search_step L path relation source s opened
      ∙ ap (λ (t : ℤ × List ℕ). after_search L t (cursor_opened s)) r
      ∙ after_search-end L finished (links prefix (L.first path)) s end
