-- ===== src/Base/Update.antt =====
-- A list with the element at an index replaced.
use Prim.Native.Nat.{ℕ, zero, suc, ◌<◌}
use mathlib.Core.Path.{◌≡◌, refl}
use mathlib.Core.List.{List, [], ◌∷◌}
use mathlib.Core.Option.{some}
use mathlib.Core.Logic.{◌≢◌}
use native.Mathlib.Omega.{arith}
use kip_db.Base.Lists.{length}
use kip_db.Base.Search.{get_elem?}

abbrev pub set : {A : Type 0} → List A → ℕ → A → List A
set [] i v = []
set (x ∷ xs) zero v = v ∷ xs
set (x ∷ xs) (suc i) v = x ∷ set xs i v

pub get_some :
    {A : Type 0} (i : ℕ) (xs : List A) → i < length xs → (a : A) × (get_elem? xs i ≡ some a)
get_some i [] h = absurd (omega arith)
get_some zero (x ∷ xs) h = (x, refl)
get_some (suc i) (x ∷ xs) h = get_some i xs (omega arith)

pub length-set : {A : Type 0} (xs : List A) (i : ℕ) (a : A) → length (set xs i a) ≡ length xs
length-set [] i a = refl
length-set (x ∷ xs) zero a = refl
length-set (x ∷ xs) (suc i) a = omega (arith, length-set xs i a)

pub get_elem?-set_self :
    {A : Type 0} (xs : List A) (i : ℕ) (a : A) → i < length xs → get_elem? (set xs i a) i ≡ some a
get_elem?-set_self [] i a h = absurd (omega arith)
get_elem?-set_self (x ∷ xs) zero a h = refl
get_elem?-set_self (x ∷ xs) (suc i) a h = get_elem?-set_self xs i a (omega arith)

pub get_elem?-set_ne :
    {A : Type 0} (xs : List A) (i j : ℕ) (a : A) → i ≢ j → get_elem? (set xs i a) j ≡ get_elem? xs j
get_elem?-set_ne [] i j a h = refl
get_elem?-set_ne (x ∷ xs) zero zero a h = absurd (h refl)
get_elem?-set_ne (x ∷ xs) zero (suc j) a h = refl
get_elem?-set_ne (x ∷ xs) (suc i) zero a h = refl
get_elem?-set_ne (x ∷ xs) (suc i) (suc j) a h =
    get_elem?-set_ne xs i j a (λ (e : i ≡ j). h (omega arith))
