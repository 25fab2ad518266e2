-- ===== src/Ledger/Books/Preserve.antt =====
-- Every operation of the facade keeps the books consistent.
use peikonpurekkusu_account.Prelude.{
  ⊤, ◌≤◌, ◌≡◌, String, refl, true, false, none, some, List, arith, Option-cases,
}
use peikonpurekkusu_account.Prelude.Int.{ℤ, negsuc, pos}
use peikonpurekkusu_account.Schema.{Uuid, Account, Store, Runtime, captured}
use peikonpurekkusu_account.Tx.{ok}
use peikonpurekkusu_account.Sql.Journal.{find_account, amount_error, to_amount, account_exists}
use peikonpurekkusu_account.Sql.Holds.{hold_exists, hold_error, is_active}
use peikonpurekkusu_account.Ledger.Operations.{
  HoldResult, hold, release, released_status, add_duration, capture, deposit,
}
use peikonpurekkusu_account.Ledger.Reconcile.{is_debit_normal}
use peikonpurekkusu_account.Ledger.Effects.{hold-eq-ok, release-eq-ok, deposit-eq-ok, capture-eq-ok}
use peikonpurekkusu_account.Ledger.Books.{IsConsistent, inl, inr, find_hold-HasAmount}
use peikonpurekkusu_account.Ledger.Books.Rows.{amount_error-positive}
use peikonpurekkusu_account.Ledger.Books.Steps.{
  open_hold-Consistent, close_hold-Consistent, move_in-Consistent, two_legs-Posted,
  capture_step-Consistent,
}
use peikonpurekkusu_account.Prelude.Word.{sub64-pos}

pub hold_error-none :
    (id account payment : Uuid) (amount : ℤ) (s : Store)
    → hold_error id account payment amount s ≡ none
    → (amount_error amount ≡ none)
      × (hold_exists id s.holds ≡ false)
      × (account_exists account s.accounts ≡ true)
unfolding hold_error
hold_error-none id account payment amount s e = ground arith

module _ (x : Runtime) (account payment : Uuid) (amount : ℤ) (currency : String) (ttl : ℤ)
    (s : Store) {r : HoldResult} {t : Store} where
  -- A hold that succeeds on an account that is not debit-normal keeps the books consistent.
  pub hold-IsConsistent :
      IsConsistent s
      → ((a : Account) → find_account account s.accounts ≡ some a → is_debit_normal a.type ≡ false)
      → hold x account payment amount currency ttl s ≡ ok (r, t)
      → IsConsistent t
  hold-IsConsistent books normal e =
      let (b, a, d) = hold-eq-ok x account payment amount currency ttl s e in
      let (accepted, new, _) =
        hold_error-none (x.fresh s.drawn) account payment amount s d.inserts in
      let (positive, small, same) = amount_error-positive amount accepted in
      rw (d.accounts, d.entries, d.balances, d.holds)
        (rw same (
          open_hold-Consistent s.accounts s.entries s.balances s.holds books (x.fresh s.drawn)
            account payment (to_amount amount) currency (add_duration s.clock ttl) a new positive
            small d.account_found (normal a d.account_found) (rw (← same) d.adjusts)))

released_status-closes : (reason : String) → is_active (released_status reason) ≡ false
released_status-closes reason = ground arith

module _ (x : Runtime) (id : Uuid) (reason : String) (s : Store) {t : Store} {u : ⊤} where
  -- A release that succeeds keeps the books consistent.
  pub release-IsConsistent : IsConsistent s → release x id reason s ≡ ok (u, t) → IsConsistent t
  release-IsConsistent books e =
      let (h, d) = release-eq-ok x id reason s e in
      rw (d.accounts, d.entries, d.balances, d.holds)
        (close_hold-Consistent s.accounts s.entries s.balances s.holds books id h
          (released_status reason) d.found d.was_active (released_status-closes reason) d.adjusts)

pub account_exists-find :
    (id : Uuid) (accounts : List Account)
    → account_exists id accounts ≡ true
    → (a : Account) × (find_account id accounts ≡ some a)
unfolding account_exists
account_exists-find id accounts h = elim (Option-cases (find_account id accounts)) [
  | inl absent ↦ absurd (ground arith)
  | inr found ↦ found
]

-- A capture that succeeds keeps the books consistent.
pub capture-IsConsistent :
    (x : Runtime) (id : Uuid) (amount : ℤ) (s : Store) {txn : Uuid} {t : Store}
    → IsConsistent s
    → capture x id amount s ≡ ok (txn, t)
    → IsConsistent t
capture-IsConsistent x id (negsuc n) s books e =
    let (h, p, d) = capture-eq-ok x id (negsuc n) s e in absurd (ground (arith, d.positive))
capture-IsConsistent x id (pos n) s {txn} books e =
    let (h, p, d) = capture-eq-ok x id (pos n) s e in
    let (b, eb, normal) = books.payable_type h.currency p d.payable in
    let wide = (find_hold-HasAmount id s.holds h books.amounts d.found).1 in
    let part : n ≤ h.amount = ground (arith, d.covered) in
    let rest = sub64-pos h.amount n wide part in
    rw (d.accounts, d.entries, d.balances, d.holds)
      (rw rest (
        capture_step-Consistent s.accounts s.entries _ s.balances s.holds books h.account_id p n
          (two_legs-Posted txn h.account_id p n h.currency s) id h captured b refl d.found
          d.was_active refl part (ground (arith, d.positive)) eb normal
          (rw (← rest) d.payer_adjusts) (rw (← rest) d.payable_adjusts)))

-- A deposit that succeeds on an account that is not debit-normal keeps the books consistent.
pub deposit-IsConsistent :
    (x : Runtime) (account : Uuid) (amount : ℤ) (currency key : String) (s : Store) {t : Store}
    {u : ⊤}
    → IsConsistent s
    → ((a : Account) → find_account account s.accounts ≡ some a → is_debit_normal a.type ≡ false)
    → deposit x account amount currency key s ≡ ok (u, t)
    → IsConsistent t
deposit-IsConsistent x account (negsuc n) currency key s books normal e =
    let (f, d) = deposit-eq-ok x account (negsuc n) currency key s e in
    absurd (unfold amount_error in ground (arith, d.accepted))
deposit-IsConsistent x account (pos n) currency key s books normal e =
    let (f, d) = deposit-eq-ok x account (pos n) currency key s e in
    let (a, ea, debit_normal) = books.settlement_type currency f d.settlement in
    let (b, eb) = account_exists-find account s.accounts d.account_found in
    rw (d.accounts, d.entries, d.balances, d.holds)
      (move_in-Consistent s.accounts s.entries _ s.balances s.holds books f account n
        (two_legs-Posted (x.fresh s.drawn) f account n currency s) a b ea debit_normal eb
        (normal b eb) d.settlement_adjusts d.account_adjusts)
