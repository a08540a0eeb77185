-- ===== src/Prelude/Method.antt =====
-- A method that mutates its object and may fail: a value or an error comes back with the object as it
-- was left, and a panic with none.
use mathlib.Core.Path.{◌≡◌, refl}
use solana_bpf_simulator.Prelude.Outcome.{Outcome, ok, err, panic}

abbrev pub Method {ℓ} : Type ℓ → Type ℓ → Type ℓ → Type ℓ
Method S E A = S → Outcome (E × S) (A × S)

module _ {ℓ} {S E A : Type ℓ} where
  abbrev pub pure : A → Method S E A
  pure a s = ok (a, s)

  -- `throw!(e)`, `return Err(e)`
  abbrev pub throw : E → Method S E A
  throw e s = err (e, s)

  abbrev pub abort : Method S E A
  abort s = panic

  abbrev pub gets : (S → A) → Method S E A
  gets f s = ok (f s, s)

  -- A call that leaves the object alone.
  abbrev pub lift : Outcome E A → Method S E A
  lift (ok a) = pure a
  lift (err e) = throw e
  lift panic = abort

abbrev pub modify {ℓ} : {S E : Type ℓ} → (S → S) → Method S E (Unit {ℓ})
modify f s = ok (tt, f s)

module _ {ℓ} {S E A B : Type ℓ} where
  infixl 5 ◌>>=◌ ◌>>◌
  abbrev pub ◌>>=◌ : Method S E A → (A → Method S E B) → Method S E B
  ◌>>=◌ m f s = elim (m s) [ ok (a, t) ↦ f a t | err x ↦ err x | panic ↦ panic ]

  abbrev pub ◌>>◌ : Method S E A → Method S E B → Method S E B
  m >> k = m >>= λ _. k

  pub bind_ok :
      (m : Method S E A) (f : A → Method S E B) (s : S) {a : A} {t : S}
      → m s ≡ ok (a, t)
      → (m >>= f) s ≡ f a t
  bind_ok m f s e = rw (e, ◌>>=◌) refl
