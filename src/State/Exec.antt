-- ===== src/State/Exec.antt =====
-- The async methods of crates/af-swarm-state/src as actions on the outside world `W` (the Dapr store
-- and the clock): what a call did stays done beside an error or a panic.
use swarm_runtime.Prelude.{◌≡◌, refl}
use swarm_runtime.State.Error.{StateError, StateResult, ok, err, panic}

abbrev pub Exec {ℓ} : Type ℓ → Type 0 → Type ℓ
Exec W A = W → StateResult A × W

module _ {A : Type 0} where
  abbrev pub map_err_result : (StateError → StateError) → StateResult A → StateResult A
  map_err_result f (ok a) = ok a
  map_err_result f (err e) = err (f e)
  map_err_result f panic = panic

  abbrev pub unwrap_or_result : A → StateResult A → StateResult A
  unwrap_or_result a (ok b) = ok b
  unwrap_or_result a (err e) = ok a
  unwrap_or_result a panic = panic

module _ {ℓ} {W : Type ℓ} {A : Type 0} where
  abbrev pub pure : A → Exec W A
  pure a w = (ok a, w)

  abbrev pub lift : StateResult A → Exec W A
  lift r w = (r, w)

  -- `.map_err(f)`
  abbrev pub map_err : (StateError → StateError) → Exec W A → Exec W A
  map_err f m w = let (r, w') = m w in (map_err_result f r, w')

  -- `.unwrap_or_else(|_| a)`
  abbrev pub unwrap_or_else : A → Exec W A → Exec W A
  unwrap_or_else a m w = let (r, w') = m w in (unwrap_or_result a r, w')

module _ {ℓ} {W : Type ℓ} {A B : Type 0} where
  abbrev pub continue : StateResult A → (A → Exec W B) → Exec W B
  continue (ok a) f w = f a w
  continue (err e) f w = (err e, w)
  continue panic f w = (panic, w)

  infixl 10 ◌>>=◌ ◌>>◌
  abbrev pub ◌>>=◌ : Exec W A → (A → Exec W B) → Exec W B
  ◌>>=◌ m f w = let (r, w') = m w in continue r f w'

  abbrev pub ◌>>◌ : Exec W A → Exec W B → Exec W B
  m >> n = m >>= λ _. n

-- Inversion of a bind that returned, into any goal `P`.
module _ {ℓ κ} {W : Type ℓ} {A B : Type 0} {P : Type κ} where
  bind_ok_at :
      (p : StateResult A × W) (f : A → Exec W B) {b : B} {w' : W}
      → ((a : A) (v : W) → p ≡ (ok a, v) → f a v ≡ (ok b, w') → P)
      → continue p.0 f p.1 ≡ (ok b, w')
      → P
  bind_ok_at (ok a, v) f k h = k a v refl h
  bind_ok_at (err e, v) f k h = absurd (cc)
  bind_ok_at (panic, v) f k h = absurd (cc)

  pub bind_ok :
      (m : Exec W A) (f : A → Exec W B) (w : W) {b : B} {w' : W}
      → (m >>= f) w ≡ (ok b, w')
      → ((a : A) (v : W) → m w ≡ (ok a, v) → f a v ≡ (ok b, w') → P)
      → P
  bind_ok m f w h k = bind_ok_at (m w) f k h

  pub lift_ok :
      (r : StateResult A) (f : A → Exec W B) (w : W) {b : B} {w' : W}
      → (lift r >>= f) w ≡ (ok b, w')
      → ((a : A) → r ≡ ok a → f a w ≡ (ok b, w') → P)
      → P
  lift_ok (ok a) f w h k = k a refl h
  lift_ok (err e) f w h k = absurd (cc)
  lift_ok panic f w h k = absurd (cc)

-- Inversion of a bind that failed: in the first part, or in the second.
module _ {ℓ κ} {W : Type ℓ} {A B : Type 0} {P : Type κ} where
  bind_err_at :
      (p : StateResult A × W) (f : A → Exec W B) {e : StateError} {w' : W}
      → (p ≡ (err e, w') → P)
      → ((a : A) (v : W) → p ≡ (ok a, v) → f a v ≡ (err e, w') → P)
      → continue p.0 f p.1 ≡ (err e, w')
      → P
  bind_err_at (ok a, v) f j k h = k a v refl h
  bind_err_at (err e, v) f j k h = j (cc)
  bind_err_at (panic, v) f j k h = absurd (cc)

  pub bind_err :
      (m : Exec W A) (f : A → Exec W B) (w : W) {e : StateError} {w' : W}
      → (m >>= f) w ≡ (err e, w')
      → (m w ≡ (err e, w') → P)
      → ((a : A) (v : W) → m w ≡ (ok a, v) → f a v ≡ (err e, w') → P)
      → P
  bind_err m f w h j k = bind_err_at (m w) f j k h

-- A bind whose first part is known to return.
module _ {ℓ} {W : Type ℓ} {A B : Type 0} where
  pub bind_run :
      (m : Exec W A) (f : A → Exec W B) (w : W) (a : A) {v : W}
      → m w ≡ (ok a, v)
      → (m >>= f) w ≡ f a v
  bind_run m f w a h = rw h

module _ {ℓ} {W : Type ℓ} {A : Type 0} where
  pub with_world : (p : StateResult A × W) {r : StateResult A} → p.0 ≡ r → p ≡ (r, p.1)
  with_world p h = rw (← h)
