-- ===== src/Common/Codes/Collisions.antt =====
-- What the check of a table of error codes in error_codes.rs promises.
use Prim.Native.String.{String}
use text.Mathlib.TextEquality.{eq_iff}
use betta_pay_contract.Base.{
  ℕ, ◌<◌, ◌≡◌, ltb, ◌&&◌, Bool, true, Option, none, some, List, [], ◌∷◌, arith,
}
use betta_pay_contract.Common.Codes.{
  find_code, fits_registry, all_fit, shared_codes, assert_no_code_collisions,
}

-- Every code of the table is below the bound.
abbrev pub all_below : ℕ → List (String × ℕ) → Bool
all_below bound [] = true
all_below bound ((_, code) ∷ table) = ltb code bound && all_below bound table

found-fits :
    (table : List (String × ℕ)) (start code : ℕ) (name : String)
    → all_fit table start ≡ true
    → find_code table code ≡ some name
    → fits_registry start name code (find_code shared_codes code) ≡ true
found-fits [] start code name h e = cc
found-fits ((n, c) ∷ table) start code name h e = ground (arith, found-fits table start code name)

found-below :
    (table : List (String × ℕ)) (bound code : ℕ) (name : String)
    → all_below bound table ≡ true
    → find_code table code ≡ some name
    → code < bound
found-below [] bound code name h e = cc
found-below ((n, c) ∷ table) bound code name h e = ground (arith, found-below table bound code name)

agree :
    (shared : Option String) (start other code : ℕ) (x y : String)
    → fits_registry start x code shared ≡ true
    → fits_registry other y code shared ≡ true
    → code < other
    → x ≡ y
agree (some z) start other code x y p q h = ground (arith, eq_iff x z, eq_iff y z)
agree none start other code x y p q h = ground arith

-- If the tables of two contracts pass `assert_no_code_collisions`, each with the start of its own
-- range, and no code of the first reaches the second's range, then a code that both tables list
-- has the same name in both.
pub assert_no_code_collisions_agree :
    (table others : List (String × ℕ)) (start other code : ℕ) (x y : String)
    → assert_no_code_collisions table start ≡ true
    → assert_no_code_collisions others other ≡ true
    → all_below other table ≡ true
    → find_code table code ≡ some x
    → find_code others code ≡ some y
    → x ≡ y
unfolding assert_no_code_collisions
assert_no_code_collisions_agree table others start other code x y p q below ex ey =
    let fit : all_fit table start ≡ true = ground arith in
    let fits : all_fit others other ≡ true = ground arith in
    agree (find_code shared_codes code) start other code x y (found-fits table start code x fit ex)
      (found-fits others other code y fits ey) (found-below table other code x below ex)
