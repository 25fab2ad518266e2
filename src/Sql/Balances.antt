-- ===== src/Sql/Balances.antt =====
-- The statements on account_balances (internal/ledger/ledger.go).
pub mod Laws
use peikonpurekkusu_account.Prelude.{
  ⊤, ℕ, suc, ◌+◌, ◌-◌, ◌≤◌, String, Bool, true, false, ◌&&◌, ◌||◌, Option, none, some, List, [],
  ◌∷◌, ◌≡◌, refl, arith, ◌==◌, ltb, leb, if◌then◌else◌, ap,
}
use peikonpurekkusu_account.Prelude.Int.{ℤ, pos, negsuc, pos_part, neg_part}
use peikonpurekkusu_account.Prelude.Word.{max_int64}
use peikonpurekkusu_account.Schema.{Uuid, Balance, Account, Store}
use peikonpurekkusu_account.Tx.{
  SqlState, check_violation, numeric_out_of_range, not_found, Tx, ok, err, raise, pure, check, gets,
  modify, or_raise, raise_if, ◌>>=◌, ◌>>◌,
}
use peikonpurekkusu_account.Sql.Journal.{find_account}

unfoldable pub find_balance : Uuid → List Balance → Option Balance
find_balance id [] = none
find_balance id (b ∷ rest) = if b.account_id == id then some b else find_balance id rest

-- A column of type bigint with `check (column >= 0)`, increased by a signed amount. PostgreSQL
-- raises 22003 where the sum leaves the type, and 23514 where it is negative.
unfoldable pub overflows : ℕ → ℤ → Bool
overflows n d = ltb (max_int64 + neg_part d) (n + pos_part d)

unfoldable pub goes_negative : ℕ → ℤ → Bool
goes_negative n d = ltb (n + pos_part d) (neg_part d)

unfoldable pub row_error : ℤ → ℤ → Balance → Option SqlState
unfolding overflows goes_negative
row_error d_available d_held b =
    if overflows b.available d_available || overflows b.held d_held || leb max_int64 b.version
    then some numeric_out_of_range
    else if goes_negative b.available d_available || goes_negative b.held d_held
    then some check_violation
    else none

abbrev pub first_error : Option SqlState → Option SqlState → Option SqlState
first_error none rest = rest
first_error (some e) rest = some e

unfoldable pub rows_error : Uuid → ℤ → ℤ → List Balance → Option SqlState
unfolding row_error
rows_error id d_available d_held [] = none
rows_error id d_available d_held (b ∷ rest) =
    first_error (if b.account_id == id then row_error d_available d_held b else none)
      (rows_error id d_available d_held rest)

abbrev pub shift : ℤ → ℤ → Balance → Balance
shift d_available d_held b = record b {
  available = b.available + pos_part d_available - neg_part d_available;
  held = b.held + pos_part d_held - neg_part d_held;
  version = b.version + 1;
}

unfoldable pub adjust : Uuid → ℤ → ℤ → List Balance → List Balance
adjust id d_available d_held [] = []
adjust id d_available d_held (b ∷ rest) =
    (if b.account_id == id then shift d_available d_held b else b)
    ∷ adjust id d_available d_held rest

unfoldable pub rows_affected : Uuid → List Balance → ℕ
rows_affected id [] = 0
rows_affected id (b ∷ rest) =
    let n = rows_affected id rest in if b.account_id == id then suc n else n

-- `bumpBalance`: one row must be affected.
unfoldable pub bump_balance : Uuid → ℤ → ℤ → Tx ⊤
unfolding rows_error adjust rows_affected
bump_balance id d_available d_held = do
  rows ← gets (λ s. s.balances)
  check (rows_error id d_available d_held rows)
  modify (λ s. record s { balances = adjust id d_available d_held rows })
  raise_if (if rows_affected id rows == 1 then false else true) not_found

-- `balanceRow`
pub record BalanceRow : Type 0 where
  pub available : ℕ
  pub held : ℕ
  pub version : ℕ
  pub currency : String

abbrev pub join_row : Option Balance → Option Account → Option BalanceRow
join_row none a = none
join_row (some b) none = none
join_row (some b) (some a) =
    some (record {
      available = b.available;
      held = b.held;
      version = b.version;
      currency = a.currency;
    })

-- `lockBalance`: the row of account_balances joined with its account.
unfoldable pub lock_balance : Uuid → Tx BalanceRow
unfolding find_balance find_account
lock_balance id s =
    or_raise (join_row (find_balance id s.balances) (find_account id s.accounts)) not_found s
