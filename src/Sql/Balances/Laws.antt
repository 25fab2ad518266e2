-- ===== src/Sql/Balances/Laws.antt =====
-- What an update of account_balances does to each row.
use peikonpurekkusu_account.Prelude.{
  ◌+◌, ◌≤◌, ◌≡◌, Option, none, some, List, [], ◌∷◌, arith, ◌==◌, if◌then◌else◌, ◌↔◌, ◌<◌, refl,
}
use peikonpurekkusu_account.Prelude.Int.{ℤ, pos_part, neg_part}
use peikonpurekkusu_account.Prelude.Word.{max_int64}
use peikonpurekkusu_account.Schema.{Uuid, Balance}
use peikonpurekkusu_account.Sql.Balances.{
  find_balance, row_error, rows_error, shift, adjust, rows_affected,
}

pub find_balance-id :
    (c : Uuid) (rows : List Balance) (b : Balance) → find_balance c rows ≡ some b → b.account_id ≡ c
unfolding find_balance
find_balance-id c [] a e = cc
find_balance-id c (b ∷ rows) a e = ground (arith, find_balance-id c rows a)

abbrev pub shift_found : ℤ → ℤ → Option Balance → Option Balance
shift_found p q none = none
shift_found p q (some b) = some (shift p q b)

module _ (id : Uuid) (p q : ℤ) where
  -- An update changes the row of its account, and no other.
  pub find_balance-adjust :
      (c : Uuid) (rows : List Balance)
      → find_balance c (adjust id p q rows)
        ≡ (if c == id then shift_found p q (find_balance c rows) else find_balance c rows)
  unfolding find_balance adjust
  find_balance-adjust c [] = ground arith
  find_balance-adjust c (b ∷ rows) = ground (arith, find_balance-adjust c rows)

  -- A statement that did not fail fits the row that it changed.
  pub rows_error-row_error :
      (rows : List Balance) (b : Balance)
      → rows_error id p q rows ≡ none
      → find_balance id rows ≡ some b
      → row_error p q b ≡ none
  unfolding find_balance rows_error
  rows_error-row_error [] a h e = cc
  rows_error-row_error (b ∷ rows) a h e = ground (arith, rows_error-row_error rows a)

  -- The columns of such a row change by exactly the amounts asked for, and stay in range.
  pub row_error-fits :
      (b : Balance)
      → row_error p q b ≡ none
      → (neg_part p ≤ b.available + pos_part p)
        × (neg_part q ≤ b.held + pos_part q)
        × (b.available + pos_part p ≤ max_int64 + neg_part p)
        × (b.held + pos_part q ≤ max_int64 + neg_part q)
  unfolding row_error
  row_error-fits b h = ground arith

  rows_error_absent :
      (rows : List Balance) → rows_affected id rows ≡ 0 → rows_error id p q rows ≡ none
  unfolding rows_affected rows_error
  rows_error_absent [] h = refl
  rows_error_absent (b ∷ rows) h = ground (arith, rows_error_absent rows)

  -- Where one row has the id, the update fails only as that row does.
  pub rows_error-single :
      (rows : List Balance) (b : Balance)
      → rows_affected id rows ≡ 1
      → find_balance id rows ≡ some b
      → row_error p q b ≡ none
      → rows_error id p q rows ≡ none
  unfolding rows_affected rows_error find_balance
  rows_error-single [] b u e h = cc
  rows_error-single (r ∷ rows) b u e h =
      ground (arith, rows_error-single rows b, rows_error_absent rows)

  pub row_error-none_iff :
      (b : Balance)
      → (row_error p q b ≡ none) ↔ (
          (neg_part p ≤ b.available + pos_part p)
          × (neg_part q ≤ b.held + pos_part q)
          × (b.available + pos_part p ≤ max_int64 + neg_part p)
          × (b.held + pos_part q ≤ max_int64 + neg_part q)
          × (b.version < max_int64))
  unfolding row_error
  row_error-none_iff b = ground arith

pub rows_affected-adjust :
    (id : Uuid) (p q : ℤ) (c : Uuid) (rows : List Balance)
    → rows_affected c (adjust id p q rows) ≡ rows_affected c rows
unfolding rows_affected adjust
rows_affected-adjust id p q c [] = refl
rows_affected-adjust id p q c (b ∷ rows) = ground (arith, rows_affected-adjust id p q c rows)
