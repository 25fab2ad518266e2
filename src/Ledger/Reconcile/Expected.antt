-- ===== src/Ledger/Reconcile/Expected.antt =====
-- What a reconciliation is to report, as a count in natural numbers over the tables.
use peikonpurekkusu_account.Prelude.{
  ℕ, ◌+◌, Bool, false, not, ◌||◌, none, some, List, [], ◌∷◌, ◌==◌, if◌then◌else◌, true, ◌&&◌,
}
use peikonpurekkusu_account.Prelude.Lists.{take}
use peikonpurekkusu_account.Schema.{
  Account, Balance, Store, credit, Direction, AccountType, Uuid, HoldStatus, HoldRecord,
  LedgerEntry, debit,
}
use peikonpurekkusu_account.Sql.Balances.{find_balance}
use peikonpurekkusu_account.Ledger.Reconcile.{Report}
use peikonpurekkusu_account.Sql.Fetch.{Fetch, broken_after, refused, whole}

-- The total of what some of the items amount to.
unfoldable pub tally : {A : Type 0} → (A → Bool) → (A → ℕ) → List A → ℕ
tally chosen amount [] = 0
tally chosen amount (x ∷ rest) = (if chosen x then amount x else 0) + tally chosen amount rest

abbrev pub same_side : Direction → Direction → Bool
same_side debit debit = true
same_side credit credit = true
same_side debit credit = false
same_side credit debit = false

-- What the journal has posted on one side of an account.
abbrev pub posted : Direction → Uuid → List LedgerEntry → ℕ
posted side id entries =
    tally (λ e. e.account_id == id && same_side side e.direction) (λ e. e.amount) entries

abbrev pub reserves : HoldStatus → Bool
reserves HoldStatus.active = true
reserves HoldStatus.captured = false
reserves HoldStatus.released = false
reserves HoldStatus.expired = false

-- What the active holds of an account reserve.
abbrev pub reserved : Uuid → List HoldRecord → ℕ
reserved id holds = tally (λ h. h.account_id == id && reserves h.status) (λ h. h.amount) holds

-- Accounts that debits add to.
abbrev pub grows_by_debits : AccountType → Bool
grows_by_debits AccountType.asset = true
grows_by_debits AccountType.expense = true
grows_by_debits AccountType.liability = false
grows_by_debits AccountType.revenue = false
grows_by_debits AccountType.equity = false

-- The balance of an account is not what the journal and the active holds say.
abbrev pub is_off : Store → Account × Balance → Bool
is_off s (a, b) =
    not (
      if grows_by_debits a.type
      then b.available + posted credit a.id s.entries == posted debit a.id s.entries
      else b.available + posted debit a.id s.entries + reserved a.id s.holds
        == posted credit a.id s.entries)
    || not (b.held == reserved a.id s.holds)

-- The accounts with a balance, in the order of the table.
unfoldable pub audited : Store → List Account → List (Account × Balance)
audited s [] = []
audited s (a ∷ rest) = elim (find_balance a.id s.balances) [
  | none ↦ audited s rest
  | some b ↦ (a, b) ∷ audited s rest
]

abbrev pub off_count : Store → List (Account × Balance) → ℕ
off_count s rows = tally (is_off s) (λ r. 1) rows

-- What is to be reported: the number of accounts that are off among those that the query gives,
-- with an error if it breaks.
abbrev pub expected_report : Fetch → Store → Report
expected_report refused s = record { drifted = 0; failed = true }
expected_report whole s = record { drifted = off_count s (audited s s.accounts); failed = false }
expected_report (broken_after n) s = record {
  drifted = off_count s (take n (audited s s.accounts));
  failed = true;
}
