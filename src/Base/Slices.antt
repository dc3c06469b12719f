-- ===== src/Base/Slices.antt =====
-- Parts of lists, and division by the length of a part.
use kip_db.Base.{
  ℕ, zero, suc, ◌+◌, ◌-◌, ◌*◌, ◌/◌, ◌%◌, ◌<◌, ◌≡◌, refl, some, List, [], ◌∷◌, ◌++◌, ap, arith,
}
use kip_db.Base.Lists.{length, take, drop}
use kip_db.Base.Search.{get_elem?}

pub div_mod : (i r : ℕ) → 0 < r → i / r * r + i % r ≡ i
div_mod i r h = grind arith

pub mod_lt : (i r : ℕ) → 0 < r → i % r < r
mod_lt i r h = grind arith

pub times_mod : (g r : ℕ) → 0 < r → g * r % r ≡ 0
times_mod g r h = grind arith

pub sub_mod : (i r : ℕ) → 0 < r → i - i % r ≡ i / r * r
sub_mod i r h = let e = div_mod i r h in grind arith

pub suc_times : (g r : ℕ) → suc g * r ≡ r + g * r
suc_times g r = grind arith

pub get_elem?-drop :
    {A : Type 0} (n i : ℕ) (xs : List A) → get_elem? (drop n xs) i ≡ get_elem? xs (n + i)
get_elem?-drop zero i xs = let e : zero + i ≡ i = omega arith in rw e refl
get_elem?-drop (suc n) i [] = refl
get_elem?-drop (suc n) i (x ∷ xs) =
    let e : suc n + i ≡ suc (n + i) = omega arith in rw e (get_elem?-drop n i xs)

pub get_elem?-take :
    {A : Type 0} (n i : ℕ) (xs : List A) → i < n → get_elem? (take n xs) i ≡ get_elem? xs i
get_elem?-take zero i xs h = absurd (omega arith)
get_elem?-take (suc n) i [] h = refl
get_elem?-take (suc n) zero (x ∷ xs) h = refl
get_elem?-take (suc n) (suc i) (x ∷ xs) h = get_elem?-take n i xs (omega arith)

pub drop-drop : {A : Type 0} (n m : ℕ) (xs : List A) → drop m (drop n xs) ≡ drop (n + m) xs
drop-drop zero m xs = let e : zero + m ≡ m = omega arith in rw e refl
drop-drop (suc n) zero [] = let e : suc n + zero ≡ suc (n + zero) = omega arith in rw e refl
drop-drop (suc n) (suc m) [] = let e : suc n + suc m ≡ suc (n + suc m) = omega arith in rw e refl
drop-drop (suc n) m (x ∷ xs) =
    let e : suc n + m ≡ suc (n + m) = omega arith in rw e (drop-drop n m xs)

pub length-drop : {A : Type 0} (n : ℕ) (xs : List A) → length (drop n xs) ≡ length xs - n
length-drop zero xs = omega arith
length-drop (suc n) [] = omega arith
length-drop (suc n) (x ∷ xs) = omega (arith, length-drop n xs)

pub get_below : {A : Type 0} (xs : List A) (i : ℕ) (a : A) → get_elem? xs i ≡ some a → i < length xs
get_below [] i a h = absurd (cc)
get_below (x ∷ xs) zero a h = omega arith
get_below (x ∷ xs) (suc i) a h = omega (arith, get_below xs i a h)

pub take-drop : {A : Type 0} (n : ℕ) (xs : List A) → take n xs ++ drop n xs ≡ xs
take-drop zero xs = refl
take-drop (suc n) [] = refl
take-drop (suc n) (x ∷ xs) = ap (λ t. x ∷ t) (take-drop n xs)
