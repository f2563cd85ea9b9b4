-- ===== src/Lmdb/Balance.antt =====
-- lmdb_reader.cpp: the LMDB objects that an action leaves open, on every way out of it.
pub mod Reader
use mathlib.Core.Path.{subst}
use ob_dump.Base.{
  ℕ, ◌+◌, ◌-◌, List, [], ◌∷◌, ◌++◌, Bool, true, false, Bytes, codes, ◌≡◌, refl, ap, sym, ◌∙◌, arith,
  if◌then◌else◌,
}
use ob_dump.Base.Int.{ℤ, pos}
use ob_dump.Base.Exec.{Result, ok, err}
use ob_dump.Base.State.{Exec, pure, lift, continue, ◌>>=◌, ◌>>◌}
use ob_dump.Lmdb.{LmdbLib, ObjectRecord}
use ob_dump.Lmdb.Handles.{
  Handles, St, step, inside, on_handles, cursor_opened, cursor_closed, check,
}
use ob_dump.Lmdb.Walk.{visit, objects, last_code, for_each_object, for_each_object-visit}
use ob_dump.Lmdb.Links.{to_many_targets, link_prefix, collect, after_search, finish}
use ob_dump.Lmdb.Keys.{write_uint32_be}

-- An action that returns leaves what was open before it. One that throws may leave a cursor open,
-- and no environment or transaction.
abbrev pub Effect : {A : Type 0} → Result A → Handles → Handles → Type 0
Effect (ok a) before after = after ≡ before
Effect (err e) before after = (after.envs ≡ before.envs) × (after.txns ≡ before.txns)

abbrev pub IsBalanced : {S A : Type 0} → (S → Handles) → Exec S A → Type 0
IsBalanced {S} view m = (s : S) → Effect (m s).0 (view s) (view (m s).1)

module _ {S A B : Type 0} (view : S → Handles) where
  pub bind-IsBalanced :
      (m : Exec S A) (k : A → Exec S B)
      → IsBalanced view m
      → ((a : A) → IsBalanced view (k a))
      → IsBalanced view (m >>= k)
  bind-IsBalanced m k hm hk s = go (m s).0 (m s).1 (hm s)
    where
      go :
          (r : Result A) (t : S)
          → Effect r (view s) (view t)
          → Effect (continue r k t).0 (view s) (view (continue r k t).1)
      go (ok a) t e = subst (λ h. Effect (k a t).0 h (view (k a t).1)) e (hk a t)
      go (err x) t e = e

module _ {S A : Type 0} (view : S → Handles) where
  pub lift-IsBalanced : (r : Result A) → IsBalanced view (lift r)
  lift-IsBalanced (ok a) s = refl
  lift-IsBalanced (err e) s = (refl, refl)

  pub pure-IsBalanced : (a : A) → IsBalanced view (pure a)
  pure-IsBalanced a s = refl

module _ {U : Type 0} where
  abbrev pub handles_of : St U → Handles
  handles_of s = s.handles

module _ {U A : Type 0} where
  pub inside-IsBalanced :
      (m : Exec Handles A) → IsBalanced (λ h. h) m → IsBalanced handles_of (inside {U = U} m)
  inside-IsBalanced m h s = h s.handles

reopened : (h : Handles) → cursor_closed (cursor_opened h) ≡ h
reopened h = ap (λ n. record h { cursors = n }) (omega arith)

module _ {U A B : Type 0} where
  -- What a cursor is opened and closed around.
  pub bracket-IsBalanced :
      (m : Exec (St U) A) (f : A → Result B)
      → IsBalanced handles_of m
      → IsBalanced handles_of
          (do on_handles cursor_opened; x ← m; on_handles cursor_closed; lift (f x))
  bracket-IsBalanced m f hm s =
      let s' = record s { handles = cursor_opened s.handles } in go (m s').0 (m s').1 (hm s')
    where
      close : A → Exec (St U) B
      close x = on_handles cursor_closed >> lift (f x)

      go :
          (r : Result A) (t : St U)
          → Effect r (cursor_opened s.handles) t.handles
          → Effect (continue r close t).0 s.handles (continue r close t).1.handles
      go (ok x) t e =
          subst (λ h. Effect (f x) h (cursor_closed t.handles)) (reopened s.handles)
            (subst (λ h. Effect (f x) (cursor_closed h) (cursor_closed t.handles)) e
              (lift-IsBalanced (λ h. h) (f x) (cursor_closed t.handles)))
      go (err x) t e = e

module _ {U : Type 0} (L : LmdbLib) where
  stop_or_rest :
      (rest : Exec (St U) ℤ)
      → IsBalanced handles_of rest
      → (more : Bool) → IsBalanced handles_of (if more then rest else pure (pos 0))
  stop_or_rest rest h true = h
  stop_or_rest rest h false = pure-IsBalanced handles_of (pos 0)

  visit-IsBalanced :
      (rs : List ObjectRecord) (rc : ℤ) (cb : ObjectRecord → Exec (St U) Bool)
      → ((r : ObjectRecord) → IsBalanced handles_of (cb r))
      → IsBalanced handles_of (visit rs rc cb)
  unfolding visit
  visit-IsBalanced [] rc cb h = pure-IsBalanced handles_of rc
  visit-IsBalanced (r ∷ rs) rc cb h =
      bind-IsBalanced handles_of (cb r) _ (h r)
        (stop_or_rest (visit rs rc cb) (visit-IsBalanced rs rc cb h))

  pub for_each_object-IsBalanced :
      (path : Bytes) (cb : ObjectRecord → Exec (St U) Bool)
      → ((r : ObjectRecord) → IsBalanced handles_of (cb r))
      → IsBalanced handles_of (for_each_object L path cb)
  for_each_object-IsBalanced path cb h = rw for_each_object-visit (
      bind-IsBalanced handles_of (lift (check L L.cursor_open (codes "mdb_cursor_open"))) _
        (lift-IsBalanced handles_of _)
        λ opened.
          bracket-IsBalanced (visit (objects (L.first path)) (last_code (L.first path)) cb) _
            (visit-IsBalanced (objects (L.first path)) (last_code (L.first path)) cb h))

module _ (L : LmdbLib) where
  -- What the search of to_many_targets finds.
  abbrev found : Bytes → Bytes → ℤ × List ℕ
  found path prefix = collect prefix (L.set_range path (prefix ++ write_uint32_be 0)) []

  after_search-IsBalanced :
      (x : ℤ × List ℕ) (h : Handles)
      → let r = after_search L x (cursor_opened h) in Effect r.0 h r.1
  unfolding after_search
  after_search-IsBalanced (rc, targets) h =
      let rest = lift (finish L rc) >> pure targets in
      let again = cursor_closed (cursor_opened h) in
      subst (λ k. Effect (rest again).0 k (rest again).1) (reopened h)
        (bind-IsBalanced (λ k. k) (lift (finish L rc)) _ (lift-IsBalanced (λ k. k) (finish L rc))
          (λ done. pure-IsBalanced (λ k. k) targets) again)

  pub to_many_targets-IsBalanced :
      (path : Bytes) (relation : ℤ) (source : ℕ)
      → IsBalanced (λ h. h) (to_many_targets L path relation source)
  unfolding to_many_targets
  to_many_targets-IsBalanced path relation source =
      bind-IsBalanced (λ h. h) (lift (check L L.cursor_open (codes "mdb_cursor_open"))) _
        (lift-IsBalanced (λ h. h) _)
        λ opened h. after_search-IsBalanced (found path (link_prefix relation source)) h
