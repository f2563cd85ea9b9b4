-- ===== src/Lmdb/Handles.antt =====
-- The LMDB objects that are open, and the state that a reader's code runs in.
use ob_dump.Base.{◌≡◌, refl, true, ℕ, ◌+◌, ◌-◌, Bool, Bytes, codes, ◌++◌, if◌then◌else◌}
use ob_dump.Base.Int.{ℤ, pos, eqb_ℤ}
use ob_dump.Base.Exec.{Result, ok, runtime_error}
use ob_dump.Base.State.{Exec}
use ob_dump.Lmdb.{LmdbLib}

pub record Handles : Type 0 where
  pub envs : ℕ
  pub txns : ℕ
  pub cursors : ℕ

-- `user` is what the callbacks write to.
pub record St (U : Type 0) : Type 0 where
  pub handles : Handles
  pub user : U

abbrev pub step : (Handles → Handles) → Exec Handles (Unit {0})
step f h = (ok tt, f h)

-- An action that does not touch `user`.
abbrev pub inside : {U A : Type 0} → Exec Handles A → Exec (St U) A
inside m s = let (r, h) = m s.handles in (r, record s { handles = h })

module _ {U : Type 0} where
  abbrev pub on_handles : (Handles → Handles) → Exec (St U) (Unit {0})
  on_handles f s = (ok tt, record s { handles = f s.handles })

abbrev pub env_opened : Handles → Handles
env_opened h = record h { envs = h.envs + 1 }

abbrev pub env_closed : Handles → Handles
env_closed h = record h { envs = h.envs - 1 }

abbrev pub txn_opened : Handles → Handles
txn_opened h = record h { txns = h.txns + 1 }

abbrev pub txn_closed : Handles → Handles
txn_closed h = record h { txns = h.txns - 1 }

abbrev pub cursor_opened : Handles → Handles
cursor_opened h = record h { cursors = h.cursors + 1 }

abbrev pub cursor_closed : Handles → Handles
cursor_closed h = record h { cursors = h.cursors - 1 }

abbrev pub is_ok : ℤ → Bool
is_ok rc = eqb_ℤ rc (pos 0)

-- `check`.
unfoldable pub check : LmdbLib → ℤ → Bytes → Result (Unit {0})
check L rc what = if is_ok rc then ok tt else runtime_error (what ++ codes ": " ++ L.strerror rc)

pub check-ok : (L : LmdbLib) (rc : ℤ) (what : Bytes) → is_ok rc ≡ true → check L rc what ≡ ok tt
unfolding check
check-ok L rc what e = rw e refl
