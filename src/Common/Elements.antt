-- ===== src/Common/Elements.antt =====
-- The elements of a list by their positions, counted in native numbers.
use Prim.Native.Nat.{ℕ, zero, suc, ◌<◌}
use mathlib.Core.Path.{◌≡◌, refl}
use mathlib.Core.Option.{Option, none, some}
use mathlib.Core.List.{List, [], ◌∷◌}
use native.Mathlib.Omega.{arith}
use provisioning_backend.Common.Tests.{◌==◌, if◌then◌else◌}
use provisioning_backend.Common.Lists.{length, All}

module _ {ℓ} {A : Type ℓ} where
  abbrev pub get_elem? : List A → ℕ → Option A
  get_elem? [] i = none
  get_elem? (x ∷ xs) zero = some x
  get_elem? (x ∷ xs) (suc i) = get_elem? xs i

  -- A write out of bounds changes nothing.
  abbrev pub set : List A → ℕ → A → List A
  set [] i v = []
  set (x ∷ xs) zero v = v ∷ xs
  set (x ∷ xs) (suc i) v = x ∷ set xs i v

  abbrev pub replicate : ℕ → A → List A
  replicate zero v = []
  replicate (suc n) v = v ∷ replicate n v

pub get_elem?-set :
    {A : Type 0} (xs : List A) (i j : ℕ) (v w : A)
    → get_elem? xs j ≡ some w
    → get_elem? (set xs i v) j ≡ (if i == j then some v else some w)
get_elem?-set [] i j v w e = absurd (cc)
get_elem?-set (x ∷ xs) zero zero v w e = refl
get_elem?-set (x ∷ xs) zero (suc j) v w e = ground (arith)
get_elem?-set (x ∷ xs) (suc i) zero v w e = ground arith
get_elem?-set (x ∷ xs) (suc i) (suc j) v w e = ground (arith, get_elem?-set xs i j v w e)

pub length-set : {A : Type 0} (xs : List A) (i : ℕ) (v : A) → length (set xs i v) ≡ length xs
length-set [] i v = refl
length-set (x ∷ xs) zero v = refl
length-set (x ∷ xs) (suc i) v = omega (arith, length-set xs i v)

pub length-replicate : {A : Type 0} (n : ℕ) (v : A) → length (replicate n v) ≡ n
length-replicate zero v = refl
length-replicate (suc n) v = omega (arith, length-replicate n v)

pub get_elem?_below :
    {A : Type 0} (xs : List A) (i : ℕ) → i < length xs → (a : A) × (get_elem? xs i ≡ some a)
get_elem?_below [] i h = absurd (omega arith)
get_elem?_below (x ∷ xs) zero h = (x, refl)
get_elem?_below (x ∷ xs) (suc i) h = get_elem?_below xs i (omega arith)

pub All-get_elem? :
    {A : Type 0} (P : A → Type 0) (xs : List A)
    → ((i : ℕ) (a : A) → get_elem? xs i ≡ some a → P a)
    → All P xs
All-get_elem? P [] h = tt
All-get_elem? P (x ∷ xs) h = (h zero x refl, All-get_elem? P xs (λ i a e. h (suc i) a e))

pub lt-length-get_elem? :
    {A : Type 0} (xs : List A) (i : ℕ) (a : A) → get_elem? xs i ≡ some a → i < length xs
lt-length-get_elem? [] i a e = absurd (cc)
lt-length-get_elem? (x ∷ xs) zero a e = omega arith
lt-length-get_elem? (x ∷ xs) (suc i) a e = omega (arith, lt-length-get_elem? xs i a e)
