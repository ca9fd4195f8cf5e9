-- ===== src/Common/Codes/Gaps.antt =====
-- The gaps that `find_code_gaps` of error_codes.rs finds.
use Prim.Native.String.{String}
use betta_pay_contract.Base.{
  ℕ, zero, suc, ◌+◌, ◌-◌, ◌≤◌, ◌≡◌, refl, ◌==◌, leb, ◌&&◌, ◌||◌, Bool, false, not, List, [], ◌∷◌,
  arith, ◌∙◌,
}
use betta_pay_contract.Base.Lists.{contains}
use betta_pay_contract.Common.Codes.{
  insert_sorted, sort, dedup_after, dedup, codes_from, last, collect_gaps, gaps_between,
  find_code_gaps,
}

abbrev pub any : (ℕ → Bool) → List ℕ → Bool
any p [] = false
any p (x ∷ xs) = p x || any p xs

-- The order of a list, from a lower bound on.
abbrev IsSortedFrom : ℕ → List ℕ → Type 0
IsSortedFrom a [] = Unit
IsSortedFrom a (x ∷ xs) = (a ≤ x) × IsSortedFrom x xs

module _ (p : ℕ → Bool) where
  any-insert_sorted : (a : ℕ) (xs : List ℕ) → any p (insert_sorted a xs) ≡ (p a || any p xs)
  any-insert_sorted a [] = refl
  any-insert_sorted a (x ∷ xs) = ground (arith, any-insert_sorted a xs)

  any-sort : (xs : List ℕ) → any p (sort xs) ≡ any p xs
  unfolding sort
  any-sort [] = refl
  any-sort (x ∷ xs) = ground (arith, any-insert_sorted x (sort xs), any-sort xs)

  any-dedup_after : (a : ℕ) (xs : List ℕ) → (p a || any p (dedup_after a xs)) ≡ (p a || any p xs)
  unfolding dedup_after
  any-dedup_after a [] = refl
  any-dedup_after a (x ∷ xs) = ground (arith, any-dedup_after a xs, any-dedup_after x xs)

  any-dedup : (xs : List ℕ) → any p (dedup xs) ≡ any p xs
  unfolding dedup
  any-dedup [] = refl
  any-dedup (x ∷ xs) = any-dedup_after x xs

insert_sorted-IsSortedFrom :
    (b a : ℕ) (xs : List ℕ) → b ≤ a → IsSortedFrom b xs → IsSortedFrom b (insert_sorted a xs)
insert_sorted-IsSortedFrom b a [] h s = (h, tt)
insert_sorted-IsSortedFrom b a (x ∷ xs) h s = ground (arith, insert_sorted-IsSortedFrom x a xs)

sort-IsSortedFrom : (xs : List ℕ) → IsSortedFrom 0 (sort xs)
unfolding sort
sort-IsSortedFrom [] = tt
sort-IsSortedFrom (x ∷ xs) =
    insert_sorted-IsSortedFrom 0 x (sort xs) (omega arith) (sort-IsSortedFrom xs)

dedup_after-IsSortedFrom :
    (a : ℕ) (xs : List ℕ) → IsSortedFrom a xs → IsSortedFrom a (dedup_after a xs)
unfolding dedup_after
dedup_after-IsSortedFrom a [] s = tt
dedup_after-IsSortedFrom a (x ∷ xs) s =
    ground (arith, dedup_after-IsSortedFrom a xs, dedup_after-IsSortedFrom x xs)

dedup-IsSortedFrom : (xs : List ℕ) → IsSortedFrom 0 xs → IsSortedFrom 0 (dedup xs)
unfolding dedup
dedup-IsSortedFrom [] s = tt
dedup-IsSortedFrom (x ∷ xs) s = (s.0, dedup_after-IsSortedFrom x xs s.1)

-- A number is among the elements up to a bound, and from a bound on.
abbrev pub some_upto : ℕ → List ℕ → Bool
some_upto n = any (λ c. leb c n)

abbrev pub some_from : ℕ → List ℕ → Bool
some_from n = any (λ c. leb n c)

head-le : (n x : ℕ) (xs : List ℕ) → IsSortedFrom x xs → some_upto n (x ∷ xs) ≡ leb x n
head-le n x [] s = ground arith
head-le n x (y ∷ ys) s = ground (arith, head-le n y ys)

last-ge : (n x : ℕ) (xs : List ℕ) → IsSortedFrom x xs → some_from n (x ∷ xs) ≡ leb n (last x xs)
last-ge n x [] s = ground arith
last-ge n x (y ∷ ys) s = ground (arith, last-ge n y ys)

head-last : (x : ℕ) (xs : List ℕ) → IsSortedFrom x xs → x ≤ last x xs
head-last x [] s = omega arith
head-last x (y ∷ ys) s = omega (arith, s.0, head-last y ys s.1)

contains-any : (n : ℕ) (xs : List ℕ) → contains xs n ≡ any (λ c. n == c) xs
contains-any n [] = refl
contains-any n (x ∷ xs) = ground (arith, contains-any n xs)

contains-collect :
    (n e k : ℕ) (xs : List ℕ)
    → contains (collect_gaps e k xs) n ≡ (leb e n && leb (n + 1) (e + k) && not (contains xs n))
unfolding collect_gaps
contains-collect n e zero xs = ground arith
contains-collect n e (suc k) xs = ground (arith, contains-collect n (e + 1) k xs)

-- Some code of the table meets the condition.
abbrev pub some_code : (ℕ → Bool) → List (String × ℕ) → Bool
some_code p [] = false
some_code p ((_, code) ∷ table) = p code || some_code p table

any-codes_from :
    (p : ℕ → Bool) (start : ℕ) (table : List (String × ℕ))
    → any p (codes_from table start) ≡ some_code (λ c. leb start c && p c) table
unfolding codes_from
any-codes_from p start [] = refl
any-codes_from p start ((name, code) ∷ table) = ground (arith, any-codes_from p start table)

contains-gaps_between :
    (n : ℕ) (xs : List ℕ)
    → IsSortedFrom 0 xs
    → contains (gaps_between xs) n ≡ (some_upto n xs && some_from n xs && not (contains xs n))
unfolding gaps_between
contains-gaps_between n [] s = refl
contains-gaps_between n (x ∷ xs) s = ground (
  arith,
  contains-collect n x (last x xs + 1 - x) (x ∷ xs),
  head-le n x xs s.1,
  last-ge n x xs s.1,
  head-last x xs s.1,
)

codes_after : List (String × ℕ) → ℕ → List ℕ
codes_after table start = dedup (sort (codes_from table start))

any-codes_after :
    (p : ℕ → Bool) (start : ℕ) (table : List (String × ℕ))
    → any p (codes_after table start) ≡ some_code (λ c. leb start c && p c) table
unfolding codes_after
any-codes_after p start table =
    any-dedup p (sort (codes_from table start))
    ∙ any-sort p (codes_from table start)
    ∙ any-codes_from p start table

-- For every table of names and codes and every start of a range, `find_code_gaps` returns exactly
-- the numbers that are no code of the table's range and stand between two codes of it.
pub contains-find_code_gaps :
    (table : List (String × ℕ)) (start n : ℕ)
    → contains (find_code_gaps table start) n ≡ (
        some_code (λ c. leb start c && leb c n) table
        && some_code (λ c. leb start c && leb n c) table
        && not (some_code (λ c. leb start c && n == c) table))
unfolding find_code_gaps codes_after
contains-find_code_gaps table start n = ground (
  arith,
  contains-gaps_between n (codes_after table start) (
      dedup-IsSortedFrom (sort (codes_from table start))
        (sort-IsSortedFrom (codes_from table start))),
  contains-any n (codes_after table start),
  any-codes_after (λ c. leb c n) start table,
  any-codes_after (λ c. leb n c) start table,
  any-codes_after (λ c. n == c) start table,
)
