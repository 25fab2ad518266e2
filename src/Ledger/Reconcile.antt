-- ===== src/Ledger/Reconcile.antt =====
-- internal/ledger/reconcile.go
pub mod Drift
pub mod Expected
pub mod Exact
use peikonpurekkusu_account.Prelude.{
  ℕ, suc, ◌+◌, Bool, true, false, ◌&&◌, ◌||◌, not, none, some, List, [], ◌∷◌, ◌==◌, leb,
  if◌then◌else◌, Option,
}
use peikonpurekkusu_account.Prelude.Int.{ℤ, pos, negsuc}
use peikonpurekkusu_account.Prelude.Word.{max_int64, sub64}
use peikonpurekkusu_account.Schema.{
  Uuid, Account, AccountType, asset, expense, Balance, LedgerEntry, Direction, debit, credit,
  HoldRecord, Store,
}
use peikonpurekkusu_account.Sql.Balances.{find_balance}
use peikonpurekkusu_account.Sql.Holds.{is_active}
use peikonpurekkusu_account.Sql.Fetch.{Fetch, breaks, fetch}

abbrev pub is_debit : Direction → Bool
is_debit debit = true
is_debit credit = false

-- `sum(e.amount) filter (where e.direction = …)` of one account's group.
unfoldable pub debits : Uuid → List LedgerEntry → ℕ
debits id [] = 0
debits id (e ∷ rest) =
    (if e.account_id == id && is_debit e.direction then e.amount else 0) + debits id rest

unfoldable pub credits : Uuid → List LedgerEntry → ℕ
credits id [] = 0
credits id (e ∷ rest) =
    (if e.account_id == id && not (is_debit e.direction) then e.amount else 0) + credits id rest

-- `hold_sums` of one account's group.
unfoldable pub active_held : Uuid → List HoldRecord → ℕ
active_held id [] = 0
active_held id (h ∷ rest) =
    (if h.account_id == id && is_active h.status then h.amount else 0) + active_held id rest

-- `case "asset", "expense"`
abbrev pub is_debit_normal : AccountType → Bool
is_debit_normal asset = true
is_debit_normal expense = true
is_debit_normal _ = false

unfoldable pub expected_available : AccountType → ℤ → ℤ → ℤ → ℤ
expected_available typ debits credits active_held =
    if is_debit_normal typ then sub64 debits credits else sub64 (sub64 credits debits) active_held

unfoldable pub same_int : ℤ → ℤ → Bool
same_int (pos n) (pos m) = n == m
same_int (negsuc n) (negsuc m) = n == m
same_int _ _ = false

-- One row of the query.
pub record Row : Type 0 where
  pub type : AccountType
  pub debits : ℕ
  pub credits : ℕ
  pub active_held : ℕ
  pub available : ℕ
  pub held : ℕ

unfoldable pub query_row : Store → Account → Balance → Row
unfolding debits credits active_held
query_row s a b = record {
  type = a.type;
  debits = debits a.id s.entries;
  credits = credits a.id s.entries;
  active_held = active_held a.id s.holds;
  available = b.available;
  held = b.held;
}

-- The test on which a row counts as drifted.
unfoldable pub drifts : Row → Bool
unfolding expected_available same_int
drifts r =
    not (
      same_int (pos r.available)
        (expected_available r.type (pos r.debits) (pos r.credits) (pos r.active_held)))
    || not (same_int (pos r.held) (pos r.active_held))

-- The sums are of type numeric, and `Scan` into an int64 fails where they do not fit.
unfoldable pub scans : Row → Bool
scans r = leb r.debits max_int64 && leb r.credits max_int64 && leb r.active_held max_int64

-- `(drifted, err)`
pub record Report : Type 0 where
  pub drifted : ℕ
  pub failed : Bool

-- The rows of the query: the accounts joined with their balances.
unfoldable pub query_rows : Store → List Account → List Row
unfolding query_row find_balance
query_rows s [] = []
query_rows s (a ∷ rest) = elim (find_balance a.id s.balances) [
  | none ↦ query_rows s rest
  | some b ↦ query_row s a b ∷ query_rows s rest
]

-- The loop over the rows; the Boolean is whether `rows.Err` is an error behind them.
unfoldable pub reconcile_rows : Bool → List Row → ℕ → Report
unfolding drifts scans
reconcile_rows broken [] n = record { drifted = n; failed = broken }
reconcile_rows broken (r ∷ rest) n = elim (scans r) [
  | false ↦ record { drifted = n; failed = true }
  | true ↦ reconcile_rows broken rest (if drifts r then suc n else n)
]

abbrev pub report : Bool → Option (List Row) → Report
report broken none = record { drifted = 0; failed = true }
report broken (some rows) = reconcile_rows broken rows 0

unfoldable pub reconcile : Fetch → Store → Report
unfolding query_rows reconcile_rows
reconcile f s = report (breaks f) (fetch f (query_rows s s.accounts))
