-- ===== src/Common/Auth/Quorum.antt =====
-- What the loops of Common/Auth.antt accept.
use betta_pay_contract.Base.{ℕ, ◌≤◌, ◌<◌, ◌≡◌, ◌≢◌, refl, true, List, [], ◌∷◌, arith}
use betta_pay_contract.Base.Lists.{length, All, IsDistinct, IsSubset}
use betta_pay_contract.Base.Ledger.{ok, Ensures}
use betta_pay_contract.Common.Env.{Env, Address}
use betta_pay_contract.Common.Auth.{
  verify_signers, verify_quorum, validate_each, validate_set, require_auth_each,
}

-- At least so many distinct admins have signed, and every signer has authorized the call.
pub record Quorum (env : Env) (admins signers : List Address) (n : ℕ) : Type 0 where
  pub enough : n ≤ length signers
  pub known : IsSubset signers admins
  pub distinct : IsDistinct signers
  pub agreed : All (λ a. env.authorized a ≡ true) signers

-- An admin set with its threshold: distinct addresses other than zero, and a threshold in reach.
pub record IsAdminSet (admins : List Address) (threshold : ℕ) : Type 0 where
  pub positive : 0 < threshold
  pub reachable : threshold ≤ length admins
  pub nonzero : All (λ a. a ≢ 0) admins
  pub distinct : IsDistinct admins

module _ {L E : Type 0} (env : Env) (e : E) (admins : List Address) where
  verify_signers_sound :
      (signers : List Address) (l : L)
      → Ensures (verify_signers env e admins signers l) (λ _ l'.
        IsSubset signers admins
        × IsDistinct signers
        × All (λ a. env.authorized a ≡ true) signers
        × (l' ≡ l))
  unfolding verify_signers
  verify_signers_sound [] l = (tt, tt, tt, refl)
  verify_signers_sound (s ∷ rest) l = ground (arith, verify_signers_sound rest l)

  verify_signers_complete :
      (signers : List Address) (l : L)
      → IsSubset signers admins
      → IsDistinct signers
      → All (λ a. env.authorized a ≡ true) signers
      → verify_signers env e admins signers l ≡ ok (tt, l)
  unfolding verify_signers
  verify_signers_complete [] l sub d a = refl
  verify_signers_complete (s ∷ rest) l sub d a =
      rw (sub.0, d.0, a.0) (verify_signers_complete rest l sub.1 d.1 a.1)

  -- The check passes only for a quorum, and writes nothing.
  pub verify_quorum_sound :
      (signers : List Address) (n : ℕ) (l : L)
      → Ensures
          (verify_quorum env e admins signers n l)
          (λ _ l'. Quorum env admins signers n × (l' ≡ l))
  unfolding verify_quorum
  verify_quorum_sound signers n l = ground (arith, verify_signers_sound signers l)

  -- The check passes for every quorum.
  pub verify_quorum_complete :
      (signers : List Address) (n : ℕ) (l : L)
      → Quorum env admins signers n
      → verify_quorum env e admins signers n l ≡ ok (tt, l)
  unfolding verify_quorum
  verify_quorum_complete signers n l q =
      ground (arith, verify_signers_complete signers l q.known q.distinct q.agreed)

module _ {L E : Type 0} (threshold_error zero_error duplicate_error : E) where
  validate_each_sound :
      (admins : List Address) (l : L)
      → Ensures
          (validate_each zero_error duplicate_error admins l)
          (λ _ l'. All (λ a. a ≢ 0) admins × IsDistinct admins × (l' ≡ l))
  unfolding validate_each
  validate_each_sound [] l = (tt, tt, refl)
  validate_each_sound (a ∷ rest) l = ground (arith, validate_each_sound rest l)

  validate_each_complete :
      (admins : List Address) (l : L)
      → All (λ a. a ≢ 0) admins
      → IsDistinct admins
      → validate_each zero_error duplicate_error admins l ≡ ok (tt, l)
  unfolding validate_each
  validate_each_complete [] l nz d = refl
  validate_each_complete (a ∷ rest) l nz d = ground (arith, validate_each_complete rest l nz.1 d.1)

  pub validate_set_sound :
      (admins : List Address) (n : ℕ) (l : L)
      → Ensures
          (validate_set threshold_error zero_error duplicate_error admins n l)
          (λ _ l'. IsAdminSet admins n × (l' ≡ l))
  unfolding validate_set
  validate_set_sound admins n l = ground (arith, validate_each_sound admins l)

  pub validate_set_complete :
      (admins : List Address) (n : ℕ) (l : L)
      → IsAdminSet admins n
      → validate_set threshold_error zero_error duplicate_error admins n l ≡ ok (tt, l)
  unfolding validate_set
  validate_set_complete [] n l v = absurd (omega arith)
  validate_set_complete (a ∷ rest) n l v =
      ground (arith, validate_each_complete (a ∷ rest) l v.nonzero v.distinct)

pub require_auth_each-same :
    (L E : Type 0) (env : Env) (admins : List Address) (l : L)
    → Ensures (require_auth_each {L = L} {E = E} env admins l) (λ _ l'. l' ≡ l)
unfolding require_auth_each
require_auth_each-same L E env [] l = refl
require_auth_each-same L E env (a ∷ rest) l = ground (arith, require_auth_each-same L E env rest l)
