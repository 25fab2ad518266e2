-- ===== src/Ledger/Books.antt =====
-- The invariant of the money tables: what the reconciliation checks of every account, and what
-- keeps it true.
pub mod Rows
pub mod Steps
pub mod Preserve
pub mod Clean
pub mod Closing
use peikonpurekkusu_account.Prelude.{
  ℕ, ◌+◌, ◌≤◌, ◌<◌, ◌≡◌, String, Bool, true, false, some, List, [], ◌∷◌, arith, ◌==◌, if◌then◌else◌,
  Bool-cases, inl, inr,
}
use peikonpurekkusu_account.Prelude.Lists.{All}
use peikonpurekkusu_account.Prelude.Word.{max_int64}
use peikonpurekkusu_account.Schema.{
  Uuid, Account, Balance, HoldRecord, HoldStatus, Store, LedgerEntry,
}
use peikonpurekkusu_account.Sql.Journal.{find_account, account_exists}
use peikonpurekkusu_account.Sql.Balances.{find_balance}
use peikonpurekkusu_account.Sql.Holds.{find_hold, is_active, with_status}
use peikonpurekkusu_account.Sql.Holds.Laws.{UniqueIds, with_status_absent}
use peikonpurekkusu_account.Ledger.Posting.{settlement_account, merchant_payable_account}
use peikonpurekkusu_account.Ledger.Reconcile.{debits, credits, active_held, is_debit_normal}

-- The available amount of a debit-normal account (true) is debits less credits; that of any other
-- is credits less debits and less the active holds.
abbrev pub Agrees : Bool → ℕ → ℕ → ℕ → ℕ → Type 0
Agrees true available debits credits active_held = available + credits ≡ debits
Agrees false available debits credits active_held = available + debits + active_held ≡ credits

-- A hold's amount is positive and of type bigint.
abbrev pub HasAmount : HoldRecord → Type 0
HasAmount h = (0 < h.amount) × (h.amount ≤ max_int64)

abbrev pub UniqueAccounts : List Account → Type 0
UniqueAccounts [] = Unit
UniqueAccounts (a ∷ rest) = (account_exists a.id rest ≡ false) × UniqueAccounts rest

pub record Consistent (accounts : List Account) (entries : List LedgerEntry)
    (balances : List Balance) (holds : List HoldRecord) : Type 0 where
  pub unique_accounts : UniqueAccounts accounts
  pub unique_holds : UniqueIds holds
  pub amounts : All HasAmount holds
  pub held_agrees :
      (c : Uuid) (b : Balance) → find_balance c balances ≡ some b → b.held ≡ active_held c holds
  pub available_agrees :
      (c : Uuid) (b : Balance) (a : Account)
      → find_balance c balances ≡ some b
      → find_account c accounts ≡ some a
      → Agrees
          (is_debit_normal a.type)
          b.available
          (debits c entries)
          (credits c entries)
          (active_held c holds)
  -- No debit-normal account has an active hold.
  pub no_asset_holds :
      (c : Uuid) (a : Account)
      → find_account c accounts ≡ some a
      → is_debit_normal a.type ≡ true
      → active_held c holds ≡ 0
  pub settlement_type :
      (currency : String) (c : Uuid)
      → settlement_account currency ≡ some c
      → (a : Account) × (find_account c accounts ≡ some a) × (is_debit_normal a.type ≡ true)
  pub payable_type :
      (currency : String) (c : Uuid)
      → merchant_payable_account currency ≡ some c
      → (a : Account) × (find_account c accounts ≡ some a) × (is_debit_normal a.type ≡ false)
  -- What no account has, no row refers to.
  pub no_orphans :
      (c : Uuid)
      → account_exists c accounts ≡ false
      → (debits c entries ≡ 0) × (credits c entries ≡ 0) × (active_held c holds ≡ 0)

abbrev pub IsConsistent : Store → Type 0
IsConsistent s = Consistent s.accounts s.entries s.balances s.holds

module _ (c id : Uuid) (status : HoldStatus) where
  -- A hold that leaves the active state takes its amount from the active holds of its account.
  pub active_held-with_status :
      (rows : List HoldRecord) (h : HoldRecord)
      → UniqueIds rows
      → find_hold id rows ≡ some h
      → is_active h.status ≡ true
      → is_active status ≡ false
      → active_held c rows
        ≡ (if h.account_id == c then h.amount else 0) + active_held c (with_status id status rows)
  unfolding active_held with_status find_hold
  active_held-with_status [] h u e p q = cc
  active_held-with_status (r ∷ rows) h u e p q = elim (Bool-cases (r.id == id)) [
    | inl same ↦ ground (arith, with_status_absent id status rows)
    | inr differ ↦ ground (arith, active_held-with_status rows h)
  ]

-- An active hold counts towards its account.
pub amount-le-active_held :
    (id : Uuid) (rows : List HoldRecord) (h : HoldRecord)
    → find_hold id rows ≡ some h
    → is_active h.status ≡ true
    → h.amount ≤ active_held h.account_id rows
unfolding active_held find_hold
amount-le-active_held id [] h e p = cc
amount-le-active_held id (r ∷ rows) h e p = ground (arith, amount-le-active_held id rows h)

pub find_hold-HasAmount :
    (id : Uuid) (rows : List HoldRecord) (h : HoldRecord)
    → All HasAmount rows
    → find_hold id rows ≡ some h
    → HasAmount h
unfolding find_hold
find_hold-HasAmount id [] h all e = cc
find_hold-HasAmount id (r ∷ rows) h all e = ground (arith, find_hold-HasAmount id rows h)

pub with_status-HasAmount :
    (id : Uuid) (status : HoldStatus) (rows : List HoldRecord)
    → All HasAmount rows
    → All HasAmount (with_status id status rows)
unfolding with_status
with_status-HasAmount id status [] all = tt
with_status-HasAmount id status (r ∷ rows) all =
    ground (arith, with_status-HasAmount id status rows)
