-- ===== src/Ledger/Books/Steps.antt =====
-- The moves of money keep the books consistent.
use peikonpurekkusu_account.Prelude.{
  ℕ, ◌+◌, ◌≤◌, ◌<◌, ◌≡◌, String, true, false, none, some, List, ◌∷◌, arith, ◌==◌, if◌then◌else◌,
  ◌-◌,
}
use peikonpurekkusu_account.Prelude.Int.{pos}
use peikonpurekkusu_account.Prelude.Word.{max_int64, neg64, neg64-pos}
use peikonpurekkusu_account.Schema.{
  Uuid, Time, Account, HoldStatus, HoldRecord, Balance, LedgerEntry,
}
use peikonpurekkusu_account.Sql.Journal.{find_account, account_exists}
use peikonpurekkusu_account.Sql.Balances.{rows_error, adjust}
use peikonpurekkusu_account.Sql.Holds.{active_row, hold_exists, find_hold, is_active, with_status}
use peikonpurekkusu_account.Sql.Holds.Laws.{with_status-UniqueIds}
use peikonpurekkusu_account.Ledger.Reconcile.{active_held, debits, credits, is_debit_normal}
use peikonpurekkusu_account.Ledger.Effects.{two_legs}
use peikonpurekkusu_account.Ledger.Books.{
  Consistent, active_held-with_status, find_hold-HasAmount, with_status-HasAmount, debits,
  amount-le-active_held, credits, Store,
}
use peikonpurekkusu_account.Ledger.Books.Rows.{adjusted_row}

active_held-active_row :
    (c id account payment : Uuid) (n : ℕ) (currency : String) (expires_at : Time)
    (rows : List HoldRecord)
    → active_held c (active_row id account payment (pos n) currency expires_at ∷ rows)
      ≡ (if account == c then n else 0) + active_held c rows
unfolding active_held
active_held-active_row c id account payment n currency expires_at rows = ground arith

module _ (accounts : List Account) (entries : List LedgerEntry) (balances : List Balance)
    (holds : List HoldRecord) (books : Consistent accounts entries balances holds) where
  -- Funds of an account that is not debit-normal move from available to held under a new hold.
  pub open_hold-Consistent :
      (id account payment : Uuid) (n : ℕ) (currency : String) (expires_at : Time) (a : Account)
      → hold_exists id holds ≡ false
      → 0 < n
      → n ≤ max_int64
      → find_account account accounts ≡ some a
      → is_debit_normal a.type ≡ false
      → rows_error account (neg64 (pos n)) (pos n) balances ≡ none
      → Consistent accounts entries
          (adjust account (neg64 (pos n)) (pos n) balances)
          (active_row id account payment (pos n) currency expires_at ∷ holds)
  unfolding account_exists
  open_hold-Consistent id account payment n currency expires_at a new positive small found normal
        fits =
      record {
        unique_accounts = books.unique_accounts;
        unique_holds = (new, books.unique_holds);
        amounts = ((positive, small), books.amounts);
        held_agrees = λ c b' e.
            let (b, eb, m) = adjusted_row account (neg64 (pos n)) (pos n) balances c b' fits e in
            ground (
              arith,
              m.held,
              books.held_agrees c b eb,
              active_held-active_row c id account payment n currency expires_at holds,
            );
        available_agrees = λ c b' a' e ea.
            let (b, eb, m) = adjusted_row account (neg64 (pos n)) (pos n) balances c b' fits e in
            ground (
              arith,
              m.available,
              neg64-pos n,
              books.available_agrees c b a' eb ea,
              active_held-active_row c id account payment n currency expires_at holds,
            );
        no_asset_holds = λ c a' ea normal'. ground (
          arith,
          books.no_asset_holds c a' ea normal',
          active_held-active_row c id account payment n currency expires_at holds,
        );
        settlement_type = books.settlement_type;
        payable_type = books.payable_type;
        no_orphans = λ c absent. ground (
          arith,
          books.no_orphans c absent,
          active_held-active_row c id account payment n currency expires_at holds,
        );
      }

  -- The same funds move back when the hold leaves the active state.
  pub close_hold-Consistent :
      (id : Uuid) (h : HoldRecord) (status : HoldStatus)
      → find_hold id holds ≡ some h
      → is_active h.status ≡ true
      → is_active status ≡ false
      → rows_error h.account_id (pos h.amount) (neg64 (pos h.amount)) balances ≡ none
      → Consistent accounts entries
          (adjust h.account_id (pos h.amount) (neg64 (pos h.amount)) balances)
          (with_status id status holds)
  close_hold-Consistent id h status found is_open closes fits = record {
    unique_accounts = books.unique_accounts;
    unique_holds = with_status-UniqueIds id status holds books.unique_holds;
    amounts = with_status-HasAmount id status holds books.amounts;
    held_agrees = λ c b' e.
        let (b, eb, m) =
          adjusted_row h.account_id (pos h.amount) (neg64 (pos h.amount)) balances c b' fits e in
        ground (
          arith,
          m.held,
          neg64-pos h.amount,
          (find_hold-HasAmount id holds h books.amounts found).1,
          books.held_agrees c b eb,
          active_held-with_status c id status holds h books.unique_holds found is_open closes,
        );
    available_agrees = λ c b' a e ea.
        let (b, eb, m) =
          adjusted_row h.account_id (pos h.amount) (neg64 (pos h.amount)) balances c b' fits e in
        ground (
          arith,
          m.available,
          books.available_agrees c b a eb ea,
          books.no_asset_holds c a ea,
          active_held-with_status c id status holds h books.unique_holds found is_open closes,
        );
    no_asset_holds = λ c a ea normal. ground (
      arith,
      books.no_asset_holds c a ea normal,
      active_held-with_status c id status holds h books.unique_holds found is_open closes,
    );
    settlement_type = books.settlement_type;
    payable_type = books.payable_type;
    no_orphans = λ c absent. ground (
      arith,
      books.no_orphans c absent,
      active_held-with_status c id status holds h books.unique_holds found is_open closes,
    );
  }

-- `entries'` is `entries` with a debit of one account and a credit of another.
pub record Posted (from to : Uuid) (n : ℕ) (entries entries' : List LedgerEntry) : Type 0 where
  pub debited : (c : Uuid) → debits c entries' ≡ (if from == c then n else 0) + debits c entries
  pub credited : (c : Uuid) → credits c entries' ≡ (if to == c then n else 0) + credits c entries

pub two_legs-Posted :
    (txn from to : Uuid) (n : ℕ) (currency : String) (s : Store)
    → Posted from to n s.entries (two_legs txn from to n currency s)
unfolding debits credits
two_legs-Posted txn from to n currency s = record {
  debited = λ c. ground arith;
  credited = λ c. ground arith;
}

module _ (accounts : List Account) (entries entries' : List LedgerEntry) (balances : List Balance)
    (holds : List HoldRecord) (books : Consistent accounts entries balances holds) (from to : Uuid)
    (n : ℕ) (posted : Posted from to n entries entries') where
  -- Money that comes in: both accounts gain the amount.
  pub move_in-Consistent :
      (a b : Account)
      → find_account from accounts ≡ some a
      → is_debit_normal a.type ≡ true
      → find_account to accounts ≡ some b
      → is_debit_normal b.type ≡ false
      → rows_error from (pos n) (pos 0) balances ≡ none
      → rows_error to (pos n) (pos 0) (adjust from (pos n) (pos 0) balances) ≡ none
      → Consistent accounts entries'
          (adjust to (pos n) (pos 0) (adjust from (pos n) (pos 0) balances))
          holds
  unfolding account_exists
  move_in-Consistent a b from_found debit_normal to_found credit_normal fits₁ fits₂ = record {
    unique_accounts = books.unique_accounts;
    unique_holds = books.unique_holds;
    amounts = books.amounts;
    held_agrees = λ c r e.
        let (r₁, e₁, m₁) =
          adjusted_row to (pos n) (pos 0) (adjust from (pos n) (pos 0) balances) c r fits₂ e in
        let (r₂, e₂, m₂) = adjusted_row from (pos n) (pos 0) balances c r₁ fits₁ e₁ in
        ground (arith, m₁.held, m₂.held, books.held_agrees c r₂ e₂);
    available_agrees = λ c r d e ed.
        let (r₁, e₁, m₁) =
          adjusted_row to (pos n) (pos 0) (adjust from (pos n) (pos 0) balances) c r fits₂ e in
        let (r₂, e₂, m₂) = adjusted_row from (pos n) (pos 0) balances c r₁ fits₁ e₁ in
        ground (
          arith,
          m₁.available,
          m₂.available,
          posted.debited c,
          posted.credited c,
          books.available_agrees c r₂ d e₂ ed,
        );
    no_asset_holds = books.no_asset_holds;
    settlement_type = books.settlement_type;
    payable_type = books.payable_type;
    no_orphans =
        λ c absent. ground (arith, books.no_orphans c absent, posted.debited c, posted.credited c);
  }

  -- A captured hold: its account gives up the whole hold and gets the rest back, the payable
  -- account gains the amount, and the hold is closed.
  pub capture_step-Consistent :
      (id : Uuid) (h : HoldRecord) (status : HoldStatus) (b : Account)
      → from ≡ h.account_id
      → find_hold id holds ≡ some h
      → is_active h.status ≡ true
      → is_active status ≡ false
      → n ≤ h.amount
      → 0 < n
      → find_account to accounts ≡ some b
      → is_debit_normal b.type ≡ false
      → rows_error from (pos (h.amount - n)) (neg64 (pos h.amount)) balances ≡ none
      → rows_error to
          (pos n)
          (pos 0)
          (adjust from (pos (h.amount - n)) (neg64 (pos h.amount)) balances)
        ≡ none
      → Consistent accounts entries'
          (adjust to
            (pos n)
            (pos 0)
            (adjust from (pos (h.amount - n)) (neg64 (pos h.amount)) balances))
          (with_status id status holds)
  unfolding account_exists
  capture_step-Consistent id h status b same found is_open closes part positive to_found
        credit_normal fits₁ fits₂ =
      let taken = λ (c : Uuid).
        active_held-with_status c id status holds h books.unique_holds found is_open closes in
      let wide = neg64-pos h.amount (find_hold-HasAmount id holds h books.amounts found).1 in
      record {
        unique_accounts = books.unique_accounts;
        unique_holds = with_status-UniqueIds id status holds books.unique_holds;
        amounts = with_status-HasAmount id status holds books.amounts;
        held_agrees = λ c r e.
            let (r₁, e₁, m₁) =
              adjusted_row to (pos n) (pos 0)
                (adjust from (pos (h.amount - n)) (neg64 (pos h.amount)) balances) c r fits₂ e in
            let (r₂, e₂, m₂) =
              adjusted_row from (pos (h.amount - n)) (neg64 (pos h.amount)) balances c r₁ fits₁
                e₁ in
            ground (arith, m₁.held, m₂.held, books.held_agrees c r₂ e₂, taken c, wide);
        available_agrees = λ c r d e ed.
            let (r₁, e₁, m₁) =
              adjusted_row to (pos n) (pos 0)
                (adjust from (pos (h.amount - n)) (neg64 (pos h.amount)) balances) c r fits₂ e in
            let (r₂, e₂, m₂) =
              adjusted_row from (pos (h.amount - n)) (neg64 (pos h.amount)) balances c r₁ fits₁
                e₁ in
            ground (
              arith,
              m₁.available,
              m₂.available,
              posted.debited c,
              posted.credited c,
              books.available_agrees c r₂ d e₂ ed,
              taken c,
              books.no_asset_holds c d ed,
              amount-le-active_held id holds h found is_open,
            );
        no_asset_holds =
            λ c a ea normal. ground (arith, books.no_asset_holds c a ea normal, taken c);
        settlement_type = books.settlement_type;
        payable_type = books.payable_type;
        no_orphans = λ c absent. ground (
          arith,
          books.no_orphans c absent,
          posted.debited c,
          posted.credited c,
          taken c,
          amount-le-active_held id holds h found is_open,
        );
      }
