-- ===== src/Ledger/Retry.antt =====
-- `Facade.InTx` of internal/ledger/ledger.go.
pub mod Atomic
use peikonpurekkusu_account.Prelude.{ℕ, zero, suc, Option, none, some}
use peikonpurekkusu_account.Schema.{Store}
use peikonpurekkusu_account.Tx.{
  SqlState, serialization_failure, deadlock_detected, other, Error, pg, retries_exhausted, Result,
  ok, err, Tx,
}

-- What the database does to the attempts: `others k` are the transactions that commit before
-- attempt k takes its snapshot, and `strike k` is the error with which the database ends attempt
-- k at one of its statements or at its commit, if it does. Such an attempt leaves nothing: a commit
-- that takes effect although its answer is lost is not among the behaviours.
pub record Database : Type 0 where
  pub others : ℕ → Store → Store
  pub strike : ℕ → Option SqlState

-- The codes 40001 and 40P01.
unfoldable pub retriable : Error → Option SqlState
retriable (pg serialization_failure) = some serialization_failure
retriable (pg deadlock_detected) = some deadlock_detected
retriable _ = none

abbrev pub max_attempts : ℕ
max_attempts = 5

module _ (d : Database) {A : Type 0} (body : Tx A) where
  -- `pgx.BeginTxFunc`: commit what the body returns, roll back on an error.
  unfoldable pub begin_tx : ℕ → Tx A
  begin_tx k s = elim (d.strike k) [ some c ↦ err (pg c) | none ↦ body s ]

  unfoldable pub attempts : ℕ → ℕ → SqlState → Store → Result A × Store
  unfolding begin_tx retriable
  attempts zero k last s = (err (retries_exhausted last), s)
  attempts (suc n) k last s =
      let t = d.others k s in
      elim (begin_tx k t) [
        | ok (a, u) ↦ (ok a, u)
        | err e ↦ elim (retriable e) [ some c ↦ attempts n (suc k) c t | none ↦ (err e, t) ]
      ]

  unfoldable pub in_tx : Store → Result A × Store
  unfolding attempts
  in_tx = attempts max_attempts 0 other
