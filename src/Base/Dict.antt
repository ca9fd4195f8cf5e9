-- ===== src/Base/Dict.antt =====
-- Association lists keyed by numbers: a part of a contract's storage that is looked up by key.
use Prim.Native.Nat.{ℕ, ◌+◌, ◌-◌, ◌<◌}
use mathlib.Core.Path.{◌≡◌, refl}
use mathlib.Core.Logic.{inl, inr}
use mathlib.Core.Bool.{Bool}
use mathlib.Core.Option.{Option, none, some}
use mathlib.Core.List.{List, [], ◌∷◌}
use native.Mathlib.Omega.{arith}
use betta_pay_contract.Base.Tests.{◌==◌, if◌then◌else◌, is_some, Bool-cases, Option-cases, ==_iff}
use betta_pay_contract.Base.Lists.{length}

abbrev pub Dict {ℓ} : Type ℓ → Type ℓ
Dict V = List (ℕ × V)

module _ {ℓ} {V : Type ℓ} where
  unfoldable pub get : Dict V → ℕ → Option V
  get [] k = none
  get ((j, v) ∷ d) k = if k == j then some v else get d k

  abbrev pub has : Dict V → ℕ → Bool
  has d k = is_some (get d k)

  unfoldable pub set : Dict V → ℕ → V → Dict V
  set [] k v = (k, v) ∷ []
  set ((j, w) ∷ d) k v = if k == j then (k, v) ∷ d else (j, w) ∷ set d k v

  unfoldable pub delete : Dict V → ℕ → Dict V
  delete [] k = []
  delete ((j, w) ∷ d) k = if k == j then delete d k else (j, w) ∷ delete d k

  -- Each key is listed once.
  abbrev pub IsKeyed : Dict V → Type ℓ
  IsKeyed [] = Unit
  IsKeyed ((j, w) ∷ d) = (get d j ≡ none) × IsKeyed d

  pub get-set :
      (d : Dict V) (k j : ℕ) (v : V) → get (set d k v) j ≡ (if j == k then some v else get d j)
  unfolding get set
  get-set [] k j v = ground arith
  get-set ((i, w) ∷ d) k j v = ground (arith, get-set d k j v)

  pub get-delete : (d : Dict V) (k j : ℕ) → get (delete d k) j ≡ (if j == k then none else get d j)
  unfolding get delete
  get-delete [] k j = ground arith
  get-delete ((i, w) ∷ d) k j = ground (arith, get-delete d k j)

  pub set-IsKeyed : (d : Dict V) (k : ℕ) (v : V) → IsKeyed d → IsKeyed (set d k v)
  unfolding get set
  set-IsKeyed [] k v h = (refl, tt)
  set-IsKeyed ((i, w) ∷ d) k v h = ground (arith, set-IsKeyed d k v h.1, get-set d k i v)

  pub delete-IsKeyed : (d : Dict V) (k : ℕ) → IsKeyed d → IsKeyed (delete d k)
  unfolding get delete
  delete-IsKeyed [] k h = tt
  delete-IsKeyed ((i, w) ∷ d) k h = ground (arith, delete-IsKeyed d k h.1, get-delete d k i)

  pub delete_absent : (d : Dict V) (k : ℕ) → get d k ≡ none → delete d k ≡ d
  unfolding get delete
  delete_absent [] k h = refl
  delete_absent ((i, w) ∷ d) k h = ground (arith, delete_absent d k)

  pub length-set :
      (d : Dict V) (k : ℕ) (v : V)
      → length (set d k v) ≡ (if has d k then length d else length d + 1)
  unfolding get set
  length-set [] k v = ground arith
  length-set ((i, w) ∷ d) k v = ground (arith, length-set d k v)

  pub nonempty : (d : Dict V) (k : ℕ) (v : V) → get d k ≡ some v → 0 < length d
  unfolding get
  nonempty [] k v h = cc
  nonempty (e ∷ d) k v h = omega arith

  pub length-delete :
      (d : Dict V) (k : ℕ)
      → IsKeyed d
      → length (delete d k) ≡ (if has d k then length d - 1 else length d)
  unfolding get delete
  length-delete [] k h = refl
  length-delete ((i, w) ∷ d) k h = elim (Bool-cases (k == i)) [
    | inl e ↦ rw (e, delete_absent d k (rw ((==_iff k i).0 e) h.0)) (omega arith)
    | inr e ↦
        rw (e, length-delete d k h.1)
          (elim (Option-cases (get d k)) [
            | inl absent ↦ rw absent
            | inr (v, found) ↦ rw found (omega (arith, nonempty d k v found))
          ])
  ]
