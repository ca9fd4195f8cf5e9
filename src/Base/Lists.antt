-- ===== src/Base/Lists.antt =====
-- Lists of numbers (addresses, references): lengths and membership over the native numbers.
use Prim.Native.Nat.{ℕ, suc, ◌+◌, ◌≤◌}
use mathlib.Core.Path.{◌≡◌, refl}
use mathlib.Core.Logic.{◌≢◌}
use mathlib.Core.Bool.{Bool, true, false, ◌||◌, ◌&&◌}
use mathlib.Core.List.{List, [], ◌∷◌}
use native.Mathlib.Omega.{arith}
use betta_pay_contract.Base.Tests.{◌==◌, if◌then◌else◌}

abbrev pub length {ℓ} : {A : Type ℓ} → List A → ℕ
length [] = 0
length (_ ∷ xs) = suc (length xs)

abbrev pub is_empty {ℓ} : {A : Type ℓ} → List A → Bool
is_empty [] = true
is_empty (_ ∷ _) = false

abbrev pub contains : List ℕ → ℕ → Bool
contains [] a = false
contains (x ∷ xs) a = a == x || contains xs a

abbrev pub same : List ℕ → List ℕ → Bool
same [] [] = true
same (x ∷ xs) (y ∷ ys) = x == y && same xs ys
same _ _ = false

abbrev pub All {ℓ κ} : {A : Type ℓ} → (A → Type κ) → List A → Type κ
All P [] = Unit
All P (x ∷ xs) = P x × All P xs

-- No element is listed twice.
abbrev pub IsDistinct : List ℕ → Type 0
IsDistinct [] = Unit
IsDistinct (x ∷ xs) = (contains xs x ≡ false) × IsDistinct xs

-- Every element of the first list is one of the second.
abbrev pub IsSubset : List ℕ → List ℕ → Type 0
IsSubset xs ys = All (λ x. contains ys x ≡ true) xs

pub same-eq : (xs ys : List ℕ) → same xs ys ≡ true → xs ≡ ys
same-eq [] [] h = refl
same-eq [] (y ∷ ys) h = cc
same-eq (x ∷ xs) [] h = cc
same-eq (x ∷ xs) (y ∷ ys) h = ground (arith, same-eq xs ys)

pub same_refl : (xs : List ℕ) → same xs xs ≡ true
same_refl [] = refl
same_refl (x ∷ xs) = ground (arith, same_refl xs)

-- The list without the first occurrence of an element.
remove : ℕ → List ℕ → List ℕ
remove a [] = []
remove a (x ∷ xs) = if a == x then xs else x ∷ remove a xs

length-remove : (a : ℕ) (ys : List ℕ) → contains ys a ≡ true → length (remove a ys) + 1 ≡ length ys
unfolding remove
length-remove a [] h = cc
length-remove a (y ∷ ys) h = ground (arith, length-remove a ys)

contains-remove_ne :
    (a b : ℕ) (ys : List ℕ) → a ≢ b → contains ys b ≡ true → contains (remove a ys) b ≡ true
unfolding remove
contains-remove_ne a b [] ne h = cc
contains-remove_ne a b (y ∷ ys) ne h = ground (arith, contains-remove_ne a b ys ne)

subset-remove :
    (a : ℕ) (xs ys : List ℕ) → contains xs a ≡ false → IsSubset xs ys → IsSubset xs (remove a ys)
subset-remove a [] ys h sub = tt
subset-remove a (x ∷ xs) ys h sub =
    (contains-remove_ne a x ys (ground arith) sub.0, subset-remove a xs ys (ground arith) sub.1)

-- The pigeonhole principle: distinct elements of a list are no more than its length.
pub length-le_of_subset : (xs ys : List ℕ) → IsDistinct xs → IsSubset xs ys → length xs ≤ length ys
length-le_of_subset [] ys d sub = omega arith
length-le_of_subset (x ∷ xs) ys d sub = omega (
  arith,
  length-le_of_subset xs (remove x ys) d.1 (subset-remove x xs ys d.0 sub.1),
  length-remove x ys sub.0,
)
