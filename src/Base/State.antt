-- ===== src/Base/State.antt =====
-- Actions that read and write a state and may throw. What was written before a throw stays written,
-- so the state comes back beside the exception too.
use mathlib.Core.Path.{◌≡◌, refl, sym, ap}
use ob_dump.Base.Exec.{Exception, Result, ok, err}

abbrev pub Exec {ℓ} : (State Value : Type ℓ) → Type ℓ
Exec State Value = State → Result Value × State

module _ {ℓ} {S A : Type ℓ} where
  abbrev pub pure : A → Exec S A
  pure a s = (ok a, s)

  abbrev pub lift : Result A → Exec S A
  lift r s = (r, s)

module _ {ℓ} {S A B : Type ℓ} where
  -- What follows a result, with the state that it left.
  abbrev pub continue : Result A → (A → Exec S B) → Exec S B
  continue (err thrown) next after = (err thrown, after)
  continue (ok value) next after = next value after

  infixl 5 ◌>>=◌ ◌>>◌
  abbrev pub ◌>>=◌ : Exec S A → (A → Exec S B) → Exec S B
  ◌>>=◌ first next before = let (result, after) = first before in continue result next after

  abbrev pub ◌>>◌ : Exec S A → Exec S B → Exec S B
  first >> second = first >>= λ value. second

ok-ne-err {ℓ} : {A : Type ℓ} {a : A} {e : Exception} → ¬ (ok a ≡ err e)
ok-ne-err h = cc

module _ {ℓ} {S A B : Type ℓ} where
  continue-eq-ok :
      (r : Result A) (f : A → Exec S B) (s : S) {b : B} {s' : S}
      → continue r f s ≡ (ok b, s')
      → (a : A) × (r ≡ ok a) × (f a s ≡ (ok b, s'))
  continue-eq-ok (ok a) f s h = (a, refl, h)
  continue-eq-ok (err e) f s h = absurd (ok-ne-err (sym (ap (λ p. p.0) h)))

  -- Inversion of a bind that returns.
  pub >>=-eq-ok :
      (m : Exec S A) (f : A → Exec S B) (s : S) {b : B} {s' : S}
      → (m >>= f) s ≡ (ok b, s')
      → (a : A) × (t : S) × (m s ≡ (ok a, t)) × (f a t ≡ (ok b, s'))
  >>=-eq-ok m f s h =
      let (a, e, k) = continue-eq-ok (m s).0 f (m s).1 h in
      (a, (m s).1, ap (λ (r : Result A). (r, (m s).1)) e, k)

  -- A bind whose first action returns.
  pub >>=-ok :
      (m : Exec S A) (f : A → Exec S B) (s : S) {a : A} {t : S}
      → m s ≡ (ok a, t)
      → (m >>= f) s ≡ f a t
  >>=-ok m f s h = ap (λ (p : Result A × S). continue p.0 f p.1) h
