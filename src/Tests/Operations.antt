-- ===== src/Tests/Operations.antt =====
-- The theorems on single operations at the runs of Funds.
use peikonpurekkusu_account.Prelude.{List, ◌≤◌, ◌≡◌, ◌∷◌, [], ◌-◌, ◌↔◌, arith, ◌+◌, some, ◌≢◌, refl}
use peikonpurekkusu_account.Sql.Holds.{find_hold}
use peikonpurekkusu_account.Ledger.Posting.{
  validate_balanced, count_entries, Entry, count_entry, sum_of, put_sum, all_zero,
}
use peikonpurekkusu_account.Ledger.Posting.Balanced.{
  leg, validate_balanced_wraps, IsPosting, validate_balanced_iff, validate_balanced_exact,
}
use peikonpurekkusu_account.Ledger.Posting.Sums.{total}
use peikonpurekkusu_account.Sql.Balances.{find_balance}
use peikonpurekkusu_account.Tests.Seed.{process}
use peikonpurekkusu_account.Prelude.Word.{max_int64, full_range, sub64, add64, wrap64}
use peikonpurekkusu_account.Tx.{ok}
use peikonpurekkusu_account.Prelude.Int.{pos, ◌-ℤ◌, ◌+ℤ◌}
use peikonpurekkusu_account.Tests.Funds.{
  freed, placed, row, result, the_hold, funded, placed_hold, ten_minutes, funded_user, placed_user,
  runs_release, runs_hold,
}
use peikonpurekkusu_account.Ledger.Operations.Closing.{release-hold, release_moves}
use peikonpurekkusu_account.Schema.{Uuid, HoldStatus}
use peikonpurekkusu_account.Ledger.Operations.Holding.{hold_moves}

hold_moves_example :
    (200 ≤ 500)
    × (find_balance 1 placed.balances ≡ some (row 1 300 200 2))
    × (result.available_after ≡ pos 300)
    × ((c : Uuid) → c ≢ 1 → find_balance c placed.balances ≡ find_balance c funded.balances)
hold_moves_example =
    hold_moves process 1 7 200 "USD" ten_minutes funded (row 1 500 0 1) funded_user (omega arith)
      runs_hold

release_moves_example :
    (find_balance 1 freed.balances ≡ some (row 1 500 0 3))
    × (find_hold 1001 freed.holds ≡ some (record the_hold { status = HoldStatus.released }))
    × ((c : Uuid) → c ≢ 1 → find_balance c freed.balances ≡ find_balance c placed.balances)
release_moves_example =
    release_moves process 1001 "compensation" placed the_hold (row 1 300 200 2) placed_hold
      (omega arith) placed_user runs_release

release-hold_example :
    (find_balance 1 freed.balances ≡ some (row 1 500 0 3))
    × ((c : Uuid) → c ≢ 1 → find_balance c freed.balances ≡ find_balance c funded.balances)
release-hold_example =
    release-hold process 1 7 200 "USD" "compensation" ten_minutes funded (row 1 500 0 1) funded_user
      (omega arith) runs_hold runs_release

validate_balanced_iff_example :
    (validate_balanced (leg 1 "debit" 5 "USD" ∷ leg 0xd001 "credit" 5 "USD" ∷ []) ≡ ok tt)
    ↔ IsPosting (leg 1 "debit" 5 "USD" ∷ leg 0xd001 "credit" 5 "USD" ∷ [])
validate_balanced_iff_example =
    validate_balanced_iff (leg 1 "debit" 5 "USD" ∷ leg 0xd001 "credit" 5 "USD" ∷ [])

validate_balanced_exact_example :
    total "debit" "USD" (leg 1 "debit" 5 "USD" ∷ leg 0xd001 "credit" 5 "USD" ∷ [])
    ≡ total "credit" "USD" (leg 1 "debit" 5 "USD" ∷ leg 0xd001 "credit" 5 "USD" ∷ [])
unfolding total validate_balanced count_entries count_entry sum_of put_sum all_zero add64 sub64
    wrap64 ◌-ℤ◌ ◌+ℤ◌
validate_balanced_exact_example =
    validate_balanced_exact (leg 1 "debit" 5 "USD" ∷ leg 0xd001 "credit" 5 "USD" ∷ []) "USD" refl
      (omega arith) (omega arith)

abbrev three_debits : List Entry
three_debits =
    leg 1 "debit" max_int64 "USD"
    ∷ leg 2 "debit" max_int64 "USD"
    ∷ leg 3 "debit" (full_range - (max_int64 + max_int64)) "USD"
    ∷ []

validate_balanced_wraps_example :
    (validate_balanced three_debits ≡ ok tt)
    × (total "credit" "USD" three_debits ≡ 0)
    × (total "debit" "USD" three_debits ≡ full_range)
validate_balanced_wraps_example =
    validate_balanced_wraps 1 2 3 max_int64 max_int64 "USD" (omega arith) (omega arith)
      (omega arith)
