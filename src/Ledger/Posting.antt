-- ===== src/Ledger/Posting.antt =====
-- `Entry`, the system accounts and `post` of internal/ledger/ledger.go, and `ValidateBalanced` of
-- internal/ledger/validate.go.
pub mod Sums
pub mod Balanced
use peikonpurekkusu_account.Prelude.{
  ⊤, String, str_eq, Bool, true, false, Option, none, some, List, [], ◌∷◌, ltb, if◌then◌else◌, ◌&&◌,
}
use peikonpurekkusu_account.Prelude.Int.{ℤ, pos, negsuc, leb_ℤ}
use peikonpurekkusu_account.Prelude.Word.{add64, sub64}
use peikonpurekkusu_account.Prelude.Lists.{length}
use peikonpurekkusu_account.Schema.{Uuid, TransactionKind}
use peikonpurekkusu_account.Sql.Journal.{insert_transaction, insert_entry}
use peikonpurekkusu_account.Tx.{
  Result, ok, err, too_few_entries, non_positive_amount, invalid_direction, unbalanced, Tx, pure,
  raise, ◌>>◌,
}

unfoldable pub settlement_account : String → Option Uuid
settlement_account currency =
    if str_eq currency "USD"
    then some 0xc001
    else if str_eq currency "EUR"
    then some 0xc002
    else if str_eq currency "GBP"
    then some 0xc003
    else if str_eq currency "JPY"
    then some 0xc004
    else none

unfoldable pub merchant_payable_account : String → Option Uuid
merchant_payable_account currency =
    if str_eq currency "USD"
    then some 0xd001
    else if str_eq currency "EUR"
    then some 0xd002
    else if str_eq currency "GBP"
    then some 0xd003
    else if str_eq currency "JPY"
    then some 0xd004
    else none

pub record Entry : Type 0 where
  pub account_id : Uuid
  pub direction : String
  pub amount : ℤ
  pub currency : String

-- The Go map from a currency to debits minus credits; a missing key reads as 0.
abbrev pub Sums : Type 0
Sums = List (String × ℤ)

unfoldable pub sum_of : String → Sums → ℤ
sum_of currency [] = pos 0
sum_of currency ((c, n) ∷ sums) = if str_eq c currency then n else sum_of currency sums

unfoldable pub put_sum : String → ℤ → Sums → Sums
put_sum currency n [] = (currency, n) ∷ []
put_sum currency n ((c, m) ∷ sums) =
    if str_eq c currency then (c, n) ∷ sums else (c, m) ∷ put_sum currency n sums

-- One round of the loop over the entries.
unfoldable pub count_entry : Entry → Sums → Result Sums
unfolding sum_of put_sum
count_entry e sums =
    if leb_ℤ e.amount (pos 0)
    then err non_positive_amount
    else if str_eq e.direction "debit"
    then ok (put_sum e.currency (add64 (sum_of e.currency sums) e.amount) sums)
    else if str_eq e.direction "credit"
    then ok (put_sum e.currency (sub64 (sum_of e.currency sums) e.amount) sums)
    else err invalid_direction

unfoldable pub count_entries : List Entry → Sums → Result Sums
unfolding count_entry
count_entries [] sums = ok sums
count_entries (e ∷ rest) sums = elim (count_entry e sums) [
  | err x ↦ err x
  | ok sums' ↦ count_entries rest sums'
]

abbrev pub is_zero : ℤ → Bool
is_zero (pos n) = if ltb 0 n then false else true
is_zero (negsuc n) = false

unfoldable pub all_zero : Sums → Bool
all_zero [] = true
all_zero ((c, n) ∷ sums) = is_zero n && all_zero sums

unfoldable pub validate_balanced : List Entry → Result ⊤
unfolding count_entries all_zero
validate_balanced entries =
    if ltb (length entries) 2 then err too_few_entries else elim (count_entries entries []) [
      | err x ↦ err x
      | ok sums ↦ if all_zero sums then ok tt else err unbalanced
    ]

abbrev pub or_return : Result ⊤ → Tx ⊤
or_return (ok _) = pure tt
or_return (err e) = raise e

unfoldable pub insert_entries : Uuid → List Entry → Tx ⊤
insert_entries txn [] = pure tt
insert_entries txn (e ∷ rest) = do
  insert_entry txn e.account_id e.direction e.amount e.currency
  insert_entries txn rest

unfoldable pub post : Uuid → TransactionKind → Option Uuid → Option String → List Entry → Tx ⊤
unfolding insert_entries
post txn kind payment key entries = do
  or_return (validate_balanced entries)
  insert_transaction txn key kind payment
  insert_entries txn entries
