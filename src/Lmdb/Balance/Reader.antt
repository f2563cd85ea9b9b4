-- ===== src/Lmdb/Balance/Reader.antt =====
-- lmdb_reader.cpp: a block that owns a reader closes what it has opened.
use mathlib.Core.Path.{subst}
use ob_dump.Base.{◌+◌, ◌-◌, ◌*◌, ◌^◌, true, none, Bytes, ◌≡◌, refl, ap, ◌∙◌, arith}
use ob_dump.Base.Exec.{Result, ok, err}
use ob_dump.Base.State.{Exec, continue}
use ob_dump.Lmdb.{LmdbLib}
use ob_dump.Lmdb.Handles.{Handles, St, is_ok, env_opened, env_closed, txn_opened, txn_closed}
use ob_dump.Lmdb.Reader.{
  open_reader, close_reader, with_reader, open_reader-ok, open_reader-releases,
}
use ob_dump.Lmdb.Balance.{Effect, IsBalanced, handles_of}

-- The calls before the environment is opened succeed: their failures leave it open.
pub record Prepares (L : LmdbLib) (path : Bytes) : Type 0 where
  pub maxdbs : is_ok (L.env_set_maxdbs 1) ≡ true
  pub mapsize : is_ok (L.env_set_mapsize (4 * 2 ^ 30)) ≡ true
  pub stat : (L.is_regular_file path).1 ≡ none

reclosed : (h : Handles) → env_closed (txn_closed (txn_opened (env_opened h))) ≡ h
reclosed h =
    ap (λ n. record h { envs = n; txns = h.txns + 1 - 1 })
      (let e : h.envs + 1 - 1 ≡ h.envs = omega arith in e)
    ∙ ap (λ n. record h { txns = n }) (let e : h.txns + 1 - 1 ≡ h.txns = omega arith in e)

-- The destructor, behind what the block has made of the state.
closing :
    {U A : Type 0} (r : Result A) (h : Handles) (t : St U)
    → Effect r (txn_opened (env_opened h)) t.handles
    → Effect r h (env_closed (txn_closed t.handles))
closing (ok a) h t e = ap (λ k. env_closed (txn_closed k)) e ∙ reclosed h
closing (err x) h t e = (omega (arith, e.0), omega (arith, e.1))

module _ (L : LmdbLib) {U : Type 0} where
  -- How the constructor ends.
  abbrev Opens : Result (Unit {0}) → St U → St U → Type 0
  Opens (ok a) s t = t ≡ record s { handles = txn_opened (env_opened s.handles) }
  Opens (err e) s t = t ≡ s

  open_reader-Opens :
      (path : Bytes) (s : St U)
      → Prepares L path
      → Opens (open_reader L path s).0 s (open_reader L path s).1
  open_reader-Opens path s h = go (open_reader L path s).0 refl
    where
      go :
          (r : Result (Unit {0}))
          → (open_reader L path s).0 ≡ r
          → Opens r s (open_reader L path s).1
      go (ok a) e = open_reader-ok L path s e
      go (err x) e = open_reader-releases L path s x h.maxdbs h.mapsize h.stat e

  -- The destructor runs however the body ends.
  owned : {A : Type 0} → Exec (St U) A → Unit {0} → Exec (St U) A
  unfolding close_reader
  owned body done t = let (r, t') = body t in (r, (close_reader L t').1)

  owned-Effect :
      {A : Type 0} (body : Exec (St U) A) (r : Result (Unit {0})) (s t : St U)
      → IsBalanced handles_of body
      → Opens r s t
      → Effect (continue r (owned body) t).0 s.handles (continue r (owned body) t).1.handles
  unfolding owned close_reader
  owned-Effect body (ok a) s t hb e =
      closing (body t).0 s.handles (body t).1
        (subst (λ (x : St U). Effect (body t).0 x.handles (body t).1.handles) e (hb t))
  owned-Effect body (err x) s t hb e =
      (ap (λ (z : St U). z.handles.envs) e, ap (λ (z : St U). z.handles.txns) e)

  pub with_reader-IsBalanced :
      {A : Type 0} (path : Bytes) (body : Exec (St U) A)
      → Prepares L path
      → IsBalanced handles_of body
      → IsBalanced handles_of (with_reader L path body)
  unfolding with_reader owned
  with_reader-IsBalanced path body h hb s =
      owned-Effect body (open_reader L path s).0 s (open_reader L path s).1 hb
        (open_reader-Opens path s h)
