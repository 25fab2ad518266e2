-- ===== src/Ledger/Operations.antt =====
-- The methods of `Facade` that run inside a transaction: internal/ledger/operations.go.
pub mod Holding
pub mod Closing
pub mod Sweeping
use peikonpurekkusu_account.Prelude.{
  ⊤, ℕ, suc, zero, ◌+◌, ◌-◌, String, ◌<>◌, str_eq, Bool, true, false, not, Option, none, some, List,
  [], ◌∷◌, ltb, ◌||◌, ◌&&◌, if◌then◌else◌,
}
use peikonpurekkusu_account.Prelude.Int.{ℤ, pos, pos_part, neg_part, ltb_ℤ, leb_ℤ}
use peikonpurekkusu_account.Prelude.Word.{sub64, neg64}
use peikonpurekkusu_account.Schema.{
  Uuid, Time, TransactionKind, HoldStatus, HoldRecord, captured, released, expired, Payload, text,
  number, Runtime,
}
use peikonpurekkusu_account.Sql.Journal.{write}
use peikonpurekkusu_account.Sql.Balances.{lock_balance, bump_balance}
use peikonpurekkusu_account.Sql.Holds.{
  is_active, insert_hold, lock_hold, update_hold_status, active_hold_of,
}
use peikonpurekkusu_account.Ledger.Posting.{
  Entry, settlement_account, merchant_payable_account, post,
}
use peikonpurekkusu_account.Tx.{
  Tx, insufficient_funds, hold_not_active, currency_mismatch, amount_exceeds_hold,
  no_payable_account, no_settlement_account, pure, raise_if, gets, or_raise, new_uuid, ◌>>=◌, ◌>>◌,
}

-- `t.Add(d)`. Times before the epoch are not told apart from it.
abbrev pub add_duration : Time → ℤ → Time
add_duration t d = t + pos_part d - neg_part d

-- `HoldResult`; its status is always "active".
pub record HoldResult : Type 0 where
  pub hold_id : Uuid
  pub status : HoldStatus
  pub available_after : ℤ
  pub currency : String

abbrev pub capture_entries : HoldRecord → Uuid → ℤ → List Entry
capture_entries h payable amount =
    record {
      account_id = h.account_id;
      direction = "debit";
      amount = amount;
      currency = h.currency;
    }
    ∷ record { account_id = payable; direction = "credit"; amount = amount; currency = h.currency }
    ∷ []

abbrev pub released_status : String → HoldStatus
released_status reason = if str_eq reason "expiry" then expired else released

abbrev pub deposit_entries : Uuid → Uuid → ℤ → String → List Entry
deposit_entries settlement account amount currency =
    record { account_id = settlement; direction = "debit"; amount = amount; currency = currency }
    ∷ record { account_id = account; direction = "credit"; amount = amount; currency = currency }
    ∷ []

-- The rows that `select id from holds where status='active' and expires_at < now() for update
-- skip locked limit …` returns; `locked` is what other transactions hold.
unfoldable pub expired_holds : (Uuid → Bool) → ℕ → Time → List HoldRecord → List Uuid
expired_holds locked n now [] = []
expired_holds locked zero now (h ∷ rest) = []
expired_holds locked (suc n) now (h ∷ rest) =
    elim (is_active h.status && ltb h.expires_at now && not (locked h.id)) [
      | true ↦ h.id ∷ expired_holds locked n now rest
      | false ↦ expired_holds locked (suc n) now rest
    ]

module _ (x : Runtime) where
  unfoldable pub held_payload : Uuid → Uuid → Uuid → ℤ → String → Time → Payload
  held_payload hold_id account payment amount currency expires_at =
      ("hold_id", text (x.uuid_string hold_id))
      ∷ ("account_id", text (x.uuid_string account))
      ∷ ("payment_id", text (x.uuid_string payment))
      ∷ ("amount_minor_units", number amount)
      ∷ ("currency_code", text currency)
      ∷ ("expires_at", text (x.rfc3339 expires_at))
      ∷ []

  unfoldable pub hold : Uuid → Uuid → ℤ → String → ℤ → Tx HoldResult
  unfolding held_payload
  hold account payment amount currency ttl = do
    b ← lock_balance account
    raise_if (not (str_eq b.currency currency)) currency_mismatch
    raise_if (ltb_ℤ (pos b.available) amount) insufficient_funds
    hold_id ← new_uuid x
    now ← gets (λ s. s.clock)
    let expires_at = add_duration now ttl
    insert_hold hold_id account payment amount currency expires_at
    bump_balance account (neg64 amount) amount
    write x "accounts.funds.held.v1" "account" (x.uuid_string account)
        (held_payload hold_id account payment amount currency expires_at)
    pure (record {
      hold_id = hold_id;
      status = HoldStatus.active;
      available_after = sub64 (pos b.available) amount;
      currency = currency;
    })

  unfoldable pub captured_payload : Uuid → Uuid → Uuid → ℤ → String → Payload
  captured_payload hold_id account txn amount currency =
      ("hold_id", text (x.uuid_string hold_id))
      ∷ ("account_id", text (x.uuid_string account))
      ∷ ("ledger_transaction_id", text (x.uuid_string txn))
      ∷ ("amount_minor_units", number amount)
      ∷ ("currency_code", text currency)
      ∷ []

  unfoldable pub released_payload : Uuid → Uuid → ℤ → String → String → Payload
  released_payload hold_id account amount currency reason =
      ("hold_id", text (x.uuid_string hold_id))
      ∷ ("account_id", text (x.uuid_string account))
      ∷ ("amount_minor_units", number amount)
      ∷ ("currency_code", text currency)
      ∷ ("reason", text reason)
      ∷ []

  -- `if remainder > 0`
  unfoldable pub write_remainder : Uuid → HoldRecord → ℤ → Tx ⊤
  unfolding released_payload
  write_remainder id h remainder =
      if ltb_ℤ (pos 0) remainder
      then write x "accounts.funds.released.v1" "account" (x.uuid_string h.account_id)
          (released_payload id h.account_id remainder h.currency "partial_capture_remainder")
      else pure tt

  -- The part of `Capture` behind its guards.
  unfoldable pub settle : Uuid → HoldRecord → Uuid → ℤ → Tx Uuid
  unfolding write_remainder captured_payload
  settle id h payable amount = do
    txn ← new_uuid x
    post txn TransactionKind.capture (some h.payment_id) (some ("capture:" <> x.uuid_string id))
        (capture_entries h payable amount)
    let remainder = sub64 (pos h.amount) amount
    bump_balance h.account_id remainder (neg64 (pos h.amount))
    bump_balance payable amount (pos 0)
    update_hold_status id captured
    write x "accounts.funds.captured.v1" "account" (x.uuid_string h.account_id)
        (captured_payload id h.account_id txn amount h.currency)
    write_remainder id h remainder
    pure txn

  unfoldable pub capture : Uuid → ℤ → Tx Uuid
  unfolding settle
  capture id amount = do
    h ← lock_hold id
    raise_if (not (is_active h.status)) hold_not_active
    raise_if (leb_ℤ amount (pos 0) || ltb_ℤ (pos h.amount) amount) amount_exceeds_hold
    payable ← or_raise (merchant_payable_account h.currency) no_payable_account
    settle id h payable amount

  unfoldable pub release : Uuid → String → Tx ⊤
  unfolding released_payload
  release id reason = do
    h ← lock_hold id
    raise_if (not (is_active h.status)) hold_not_active
    bump_balance h.account_id (pos h.amount) (neg64 (pos h.amount))
    update_hold_status id (released_status reason)
    write x "accounts.funds.released.v1" "account" (x.uuid_string h.account_id)
        (released_payload id h.account_id (pos h.amount) h.currency reason)

  abbrev pub release_found : Option Uuid → String → Tx Bool
  release_found none reason = pure false
  release_found (some id) reason = do release id reason; pure true

  unfoldable pub release_by_payment : Uuid → String → Tx Bool
  release_by_payment payment reason = do
    found ← gets (λ s. active_hold_of payment s.holds)
    release_found found reason

  unfoldable pub deposit : Uuid → ℤ → String → String → Tx ⊤
  deposit account amount currency key = do
    settlement ← or_raise (settlement_account currency) no_settlement_account
    txn ← new_uuid x
    post txn TransactionKind.deposit none (some key)
        (deposit_entries settlement account amount currency)
    bump_balance settlement amount (pos 0)
    bump_balance account amount (pos 0)

  unfoldable pub release_all : List Uuid → ℕ → Tx ℕ
  release_all [] count = pure count
  release_all (id ∷ rest) count = do release id "expiry"; release_all rest (count + 1)

  -- The transaction of `SweepExpiredHolds`.
  unfoldable pub sweep : (Uuid → Bool) → Tx ℕ
  unfolding expired_holds release_all
  sweep locked = do ids ← gets (λ s. expired_holds locked 100 s.clock s.holds); release_all ids 0
