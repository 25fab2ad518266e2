-- ===== src/Sql/Holds.antt =====
-- The statements on holds (internal/ledger/operations.go).
pub mod Laws
use peikonpurekkusu_account.Prelude.{
  ⊤, ℕ, suc, ◌+◌, String, Bool, true, false, ◌&&◌, ◌||◌, Option, none, some, List, [], ◌∷◌, ◌==◌,
  ltb, if◌then◌else◌, zero,
}
use peikonpurekkusu_account.Prelude.Int.{ℤ}
use peikonpurekkusu_account.Schema.{Uuid, Time, HoldRecord, HoldStatus, active, Store}
use peikonpurekkusu_account.Sql.Journal.{amount_error, to_amount, account_exists}
use peikonpurekkusu_account.Tx.{
  SqlState, unique_violation, foreign_key_violation, not_found, Tx, check, gets, modify, or_raise,
  ◌>>=◌, ◌>>◌,
}

abbrev pub is_active : HoldStatus → Bool
is_active HoldStatus.active = true
is_active _ = false

unfoldable pub find_hold : Uuid → List HoldRecord → Option HoldRecord
find_hold id [] = none
find_hold id (h ∷ rest) = if h.id == id then some h else find_hold id rest

unfoldable pub hold_exists : Uuid → List HoldRecord → Bool
hold_exists id [] = false
hold_exists id (h ∷ rest) = h.id == id || hold_exists id rest

-- The first row of `where payment_id = $1 and status = 'active'`, by its id.
unfoldable pub active_hold_of : Uuid → List HoldRecord → Option Uuid
active_hold_of payment [] = none
active_hold_of payment (h ∷ rest) =
    if h.payment_id == payment && is_active h.status then some h.id else active_hold_of payment rest

abbrev pub is_none : Option Uuid → Bool
is_none none = true
is_none (some _) = false

-- The CHECK, the primary key, the partial unique index on active payments, the foreign key.
unfoldable pub hold_error : Uuid → Uuid → Uuid → ℤ → Store → Option SqlState
unfolding amount_error hold_exists active_hold_of account_exists
hold_error id account payment amount s = elim (amount_error amount) [
  | some e ↦ some e
  | none ↦
      if hold_exists id s.holds
      then some unique_violation
      else if is_none (active_hold_of payment s.holds)
      then (if account_exists account s.accounts then none else some foreign_key_violation)
      else some unique_violation
]

abbrev pub active_row : Uuid → Uuid → Uuid → ℤ → String → Time → HoldRecord
active_row id account payment amount currency expires_at = record {
  id = id;
  account_id = account;
  payment_id = payment;
  amount = to_amount amount;
  currency = currency;
  status = HoldStatus.active;
  expires_at = expires_at;
}

unfoldable pub insert_hold : Uuid → Uuid → Uuid → ℤ → String → Time → Tx ⊤
unfolding hold_error
insert_hold id account payment amount currency expires_at s =
    (do
      check (hold_error id account payment amount s)
      modify (λ t. record t {
        holds = active_row id account payment amount currency expires_at ∷ t.holds;
      }))
      s

-- `lockHold`
unfoldable pub lock_hold : Uuid → Tx HoldRecord
unfolding find_hold
lock_hold id s = or_raise (find_hold id s.holds) not_found s

unfoldable pub with_status : Uuid → HoldStatus → List HoldRecord → List HoldRecord
with_status id status [] = []
with_status id status (h ∷ rest) =
    (if h.id == id then record h { status = status } else h) ∷ with_status id status rest

-- `update holds set status = … where id = …`
unfoldable pub update_hold_status : Uuid → HoldStatus → Tx ⊤
unfolding with_status
update_hold_status id status = modify (λ s. record s { holds = with_status id status s.holds })
