-- ===== src/Settlement/Admin/Migration.antt =====
-- The loop of `run_migrations` ends, at the version of the build.
use betta_pay_contract.Base.{
  ℕ, zero, suc, ◌+◌, ◌^◌, ◌<◌, ◌≤◌, ◌≡◌, refl, false, Option, none, some, unwrap_or, List, ◌∷◌,
  arith,
}
use betta_pay_contract.Base.Ledger.{ok, Returns, Ensures, bind-Returns, bind-Ensures}
use betta_pay_contract.Common.Env.{Address}
use betta_pay_contract.Settlement.State.{Store, State, Host}
use betta_pay_contract.Settlement.Storage.{read_schema_version, is_paused, verify_admins}
use betta_pay_contract.Settlement.Storage.Access.{
  IsApproved, verify_admins_sound, verify_admins_complete,
}
use betta_pay_contract.Settlement.Admin.{migrate_from, run_migrations, migrate}

-- The storage after a loop from a version over a number of versions that are left.
abbrev pub migrated_to : ℕ → ℕ → Store → Store
migrated_to zero version s = s
migrated_to (suc left) version s = record s { schema_version = some (version + suc left) }

pub migrate_from_total :
    (left version : ℕ) (l : State)
    → version + left < 2 ^ 32
    → migrate_from left version l ≡ ok (tt, record l { store = migrated_to left version l.store })
unfolding migrate_from
migrate_from_total zero version l fits = refl
migrate_from_total (suc zero) version l fits = ground arith
migrate_from_total (suc (suc left)) version l fits = ground (
  arith,
  migrate_from_total (suc left) (version + 1)
      (record l { store = record (l.store) { schema_version = some (version + 1) } }),
)

migrate_from_none : (version : ℕ) (l : State) → migrate_from 0 version l ≡ ok (tt, l)
unfolding migrate_from
migrate_from_none version l = refl

-- The version that is stored after a migration: at least the build's, 1.
abbrev pub advanced : Option ℕ → Option ℕ
advanced (some zero) = some 1
advanced (some (suc n)) = some (suc n)
advanced none = none

advanced_min : (o : Option ℕ) → 1 ≤ unwrap_or (advanced o) 1
advanced_min none = omega arith
advanced_min (some zero) = omega arith
advanced_min (some (suc n)) = omega arith

run_migrations_total :
    (l : State)
    → run_migrations l
      ≡ ok (
        tt,
        record l { store = record (l.store) { schema_version = advanced l.store.schema_version } },
      )
unfolding run_migrations read_schema_version
run_migrations_total l = at l.store.schema_version refl
  where
    at :
        (o : Option ℕ)
        → l.store.schema_version ≡ o
        → run_migrations l
          ≡ ok (
            tt,
            record l {
              store = record (l.store) { schema_version = advanced l.store.schema_version };
            },
          )
    at none e = ground (arith, migrate_from_total 0 1 l)
    at (some zero) e = ground (arith, migrate_from_total 1 0 l)
    at (some (suc n)) e = ground (arith, migrate_from_none (suc n) l)

module _ (h : Host) (signer : Address) (signers : List Address) (l : State) where
  -- A `migrate` by a quorum of the stored admins, while the contract is not paused, ends and
  -- returns, and leaves a schema version that is the build's (1) or above it; a version that was
  -- so is as before, and nothing else in the storage changes.
  pub migrate_total :
      IsApproved h l.store (signer ∷ signers)
      → is_paused l.store ≡ false
      → Returns (migrate h (signer ∷ signers) l)
        × Ensures (migrate h (signer ∷ signers) l) (λ _ l'.
          (l'.store ≡ record (l.store) { schema_version = advanced l.store.schema_version })
          × (1 ≤ unwrap_or l'.store.schema_version 1))
  unfolding migrate
  migrate_total approved unpaused =
      let signed = verify_admins_sound h (signer ∷ signers) l in
      (
        bind-Returns (verify_admins h (signer ∷ signers)) _ l
            (verify_admins_complete h (signer ∷ signers) l approved) signed
            λ _ l1 e. ground (arith, run_migrations_total l1),
        bind-Ensures _ (verify_admins h (signer ∷ signers)) _ l signed
            λ _ l1 e. ground (arith, run_migrations_total l1, advanced_min l.store.schema_version),
      )
