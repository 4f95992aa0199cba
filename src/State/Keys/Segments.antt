-- ===== src/State/Keys/Segments.antt =====
-- Where one part of a key ends and the next begins: what crates/af-swarm-state/src/lib.rs relies on
-- when it joins identifiers by `KEY_SEP`.
use mathlib.Core.List.{head-eq_of_cons-eq, tail-eq_of_cons-eq, append_cancel_left}
use swarm_runtime.Prelude.{
  ℕ, Bytes, [], ◌∷◌, ◌++◌, false, ◌≡◌, refl, ap, ◌⊎◌, inl, inr, contains, arith, codes,
}
use swarm_runtime.State.Keys.{key_sep}

abbrev pub bar : Bytes
bar = codes "|"

-- Two splits of one text at a separator: the same, or shifted by one bar.
abbrev pub SameOrShifted : Bytes → Bytes → Bytes → Bytes → Type 0
SameOrShifted x u y v =
    ((x ≡ y) × (u ≡ v)) ⊎ ((y ≡ x ++ bar) × (u ≡ bar ++ v)) ⊎ ((x ≡ y ++ bar) × (v ≡ bar ++ u))

SameOrShifted-cons :
    (c : ℕ) (x u y v : Bytes) → SameOrShifted x u y v → SameOrShifted (c ∷ x) u (c ∷ y) v
SameOrShifted-cons c x u y v (inl h) = inl (ap (λ t. c ∷ t) h.0, h.1)
SameOrShifted-cons c x u y v (inr (inl h)) = inr (inl (ap (λ t. c ∷ t) h.0, h.1))
SameOrShifted-cons c x u y v (inr (inr h)) = inr (inr (ap (λ t. c ∷ t) h.0, h.1))

contains-tail : (c : ℕ) (s : Bytes) → contains key_sep (c ∷ s) ≡ false → contains key_sep s ≡ false
contains-tail c s h = ground arith

-- Two splits whose left parts are free of the separator agree up to one bar.
pub split_unique :
    (x u y v : Bytes)
    → contains key_sep x ≡ false
    → contains key_sep y ≡ false
    → x ++ (key_sep ++ u) ≡ y ++ (key_sep ++ v)
    → SameOrShifted x u y v
split_unique [] u [] v hx hy e = inl (refl, append_cancel_left key_sep u v e)
split_unique [] u (d ∷ []) v hx hy e = inr (inl (ground arith, ground arith))
split_unique [] u (d ∷ f ∷ y) v hx hy e = absurd (ground arith)
split_unique (c ∷ []) u [] v hx hy e = inr (inr (ground arith, ground arith))
split_unique (c ∷ f ∷ x) u [] v hx hy e = absurd (ground arith)
split_unique (c ∷ x) u (d ∷ y) v hx hy e = rw (← (head-eq_of_cons-eq e)) (
    SameOrShifted-cons c x u y v
      (split_unique x u y v (contains-tail c x hx) (contains-tail d y hy) (tail-eq_of_cons-eq e)))
