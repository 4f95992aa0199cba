-- ===== src/Prelude/Text.antt =====
-- Rust strings as their UTF-8 bytes, with the `str` operations that the program uses: the byte-wise
-- order of `<`, `starts_with` and `contains`.
use Prim.Native.Nat.{ℕ}
use Prim.Native.Char.{code}
use Prim.Native.String.{String}
use mathlib.Core.Path.{◌≡◌, refl, ap}
use mathlib.Core.Bool.{Bool, true, false, ◌&&◌, ◌||◌}
use mathlib.Core.List.{List, [], ◌∷◌, ◌++◌}
use native.Mathlib.Omega.{arith}
use swarm_runtime.Prelude.Tests.{ltb, ◌==◌, if◌then◌else◌}

abbrev pub Bytes : Type 0
Bytes = List ℕ

-- The code points of a literal: its bytes, since every literal here is ASCII.
abbrev pub codes : String → Bytes
codes String.[] = []
codes (String.◌∷◌ c s) = code c ∷ codes s

-- `s < t` of `str`.
abbrev pub lt_bytes : Bytes → Bytes → Bool
lt_bytes s [] = false
lt_bytes [] (d ∷ t) = true
lt_bytes (c ∷ s) (d ∷ t) = if ltb c d then true else if ltb d c then false else lt_bytes s t

abbrev pub eq_bytes : Bytes → Bytes → Bool
eq_bytes [] [] = true
eq_bytes [] (d ∷ t) = false
eq_bytes (c ∷ s) [] = false
eq_bytes (c ∷ s) (d ∷ t) = c == d && eq_bytes s t

-- `s.starts_with(p)`.
abbrev pub starts_with : Bytes → Bytes → Bool
starts_with [] s = true
starts_with (p ∷ ps) [] = false
starts_with (p ∷ ps) (c ∷ s) = p == c && starts_with ps s

-- `s.contains(p)` for a pattern that is not empty.
abbrev pub contains : Bytes → Bytes → Bool
contains p [] = false
contains p (c ∷ s) = starts_with p (c ∷ s) || contains p s

-- A common prefix does not matter to the order.
pub lt_bytes-append : (p s t : Bytes) → lt_bytes (p ++ s) (p ++ t) ≡ lt_bytes s t
lt_bytes-append [] s t = refl
lt_bytes-append (c ∷ p) s t = ground (arith, lt_bytes-append p s t)

pub eq_bytes→eq : (s t : Bytes) → eq_bytes s t ≡ true → s ≡ t
eq_bytes→eq [] [] h = refl
eq_bytes→eq [] (d ∷ t) h = cc
eq_bytes→eq (c ∷ s) [] h = cc
eq_bytes→eq (c ∷ s) (d ∷ t) h = ground (arith, eq_bytes→eq s t)

pub eq_bytes_refl : (s : Bytes) → eq_bytes s s ≡ true
eq_bytes_refl [] = refl
eq_bytes_refl (c ∷ s) = ground (arith, eq_bytes_refl s)

pub starts_with-append : (p u : Bytes) → starts_with p (p ++ u) ≡ true
starts_with-append [] u = refl
starts_with-append (c ∷ p) u = ground (arith, starts_with-append p u)

-- What follows a prefix.
pub after_prefix : (p s : Bytes) → starts_with p s ≡ true → (u : Bytes) × (s ≡ p ++ u)
after_prefix [] s h = (s, refl)
after_prefix (c ∷ p) [] h = absurd (cc)
after_prefix (c ∷ p) (d ∷ s) h = let (u, e) = after_prefix p s (ground arith) in (u, ground arith)

-- `p` stands somewhere in `s`.
abbrev pub HasPart : Bytes → Bytes → Type 0
HasPart p s = (a : Bytes) × (b : Bytes) × (s ≡ a ++ (p ++ b))

HasPart-cons : (c : ℕ) (p s : Bytes) → HasPart p s → HasPart p (c ∷ s)
HasPart-cons c p s (a, b, e) = (c ∷ a, b, ap (λ t. c ∷ t) e)

contains-cases :
    (p s : Bytes) (c : ℕ) (here : Bool)
    → starts_with p (c ∷ s) ≡ here
    → contains p (c ∷ s) ≡ true
    → (contains p s ≡ true → HasPart p s)
    → HasPart p (c ∷ s)
contains-cases p s c true here h rest = let (b, e) = after_prefix p (c ∷ s) here in ([], b, e)
contains-cases p s c false here h rest = HasPart-cons c p s (rest (ground arith))

-- `contains` finds the parts of a text, and finds each that is not empty.
pub contains-HasPart : (p s : Bytes) → contains p s ≡ true → HasPart p s
contains-HasPart p [] h = absurd (cc)
contains-HasPart p (c ∷ s) h = contains-cases p s c _ refl h (contains-HasPart p s)

contains-part : (q : ℕ) (p a b : Bytes) → contains (q ∷ p) (a ++ ((q ∷ p) ++ b)) ≡ true
contains-part q p [] b = rw (starts_with-append (q ∷ p) b) refl
contains-part q p (c ∷ a) b = ground (arith, contains-part q p a b)

pub HasPart-contains : (q : ℕ) (p s : Bytes) → HasPart (q ∷ p) s → contains (q ∷ p) s ≡ true
HasPart-contains q p s (a, b, e) = rw e (contains-part q p a b)
