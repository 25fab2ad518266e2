-- ===== src/Ledger/Books/Rows.antt =====
-- The numbers of one account under an update of the balances.
use peikonpurekkusu_account.Prelude.{
  ◌+◌, ◌≤◌, ◌<◌, ◌≡◌, none, some, List, arith, ◌==◌, if◌then◌else◌, Option-cases, inl, inr,
}
use peikonpurekkusu_account.Prelude.Int.{ℤ, pos, negsuc, pos_part, neg_part}
use peikonpurekkusu_account.Prelude.Word.{max_int64}
use peikonpurekkusu_account.Schema.{Uuid, Balance}
use peikonpurekkusu_account.Sql.Journal.{amount_error, to_amount}
use peikonpurekkusu_account.Sql.Balances.{find_balance, rows_error, adjust}
use peikonpurekkusu_account.Sql.Balances.Laws.{
  find_balance-adjust, rows_error-row_error, row_error-fits,
}

-- The row `b'` of account `c` after the update, against the row `b` before it.
pub record RowMoved (id : Uuid) (p q : ℤ) (c : Uuid) (b b' : Balance) : Type 0 where
  pub available :
      b'.available + (if c == id then neg_part p else 0)
      ≡ b.available + (if c == id then pos_part p else 0)
  pub held :
      b'.held + (if c == id then neg_part q else 0) ≡ b.held + (if c == id then pos_part q else 0)

pub adjusted_row :
    (id : Uuid) (p q : ℤ) (rows : List Balance) (c : Uuid) (b' : Balance)
    → rows_error id p q rows ≡ none
    → find_balance c (adjust id p q rows) ≡ some b'
    → (b : Balance) × (find_balance c rows ≡ some b) × RowMoved id p q c b b'
adjusted_row id p q rows c b' fits e = elim (Option-cases (find_balance c rows)) [
  | inl absent ↦ absurd (ground (arith, find_balance-adjust id p q c rows))
  | inr (b, eb) ↦ (
    b,
    eb,
    ground (
      arith,
      find_balance-adjust id p q c rows,
      rows_error-row_error id p q rows b,
      row_error-fits id p q b,
    ),
  )
]

-- An amount that the table accepts is a positive bigint.
pub amount_error-positive :
    (z : ℤ)
    → amount_error z ≡ none
    → (0 < to_amount z) × (to_amount z ≤ max_int64) × (z ≡ pos (to_amount z))
unfolding amount_error
amount_error-positive (pos n) h = ground arith
amount_error-positive (negsuc n) h = cc
