-- ===== src/Consumer/Handlers.antt =====
-- The transaction of `handle`: the idempotency gate and the two handlers.
use peikonpurekkusu_account.Prelude.{
  ⊤, String, ◌<>◌, str_eq, Bool, true, false, ◌||◌, Option, none, some, List, [], ◌∷◌, ◌==◌,
  if◌then◌else◌,
}
use peikonpurekkusu_account.Prelude.Int.{ℤ, pos, ltb_ℤ}
use peikonpurekkusu_account.Schema.{
  Uuid, Payload, Value, text, number, float, AccountStatus, liability, Balance, Runtime,
}
use peikonpurekkusu_account.Tx.{
  Tx, unique_violation, bad_payload, pure, check, gets, modify, or_raise, new_uuid, ◌>>=◌, ◌>>◌,
}
use peikonpurekkusu_account.Sql.Journal.{account_exists}
use peikonpurekkusu_account.Sql.Balances.{find_balance}
use peikonpurekkusu_account.Ledger.Operations.{deposit, release_by_payment}
use peikonpurekkusu_account.Events.Framing.{Envelope}

-- `str`: the text of a value, or "" if it is no text.
abbrev pub str : Value → String
str (text s) = s
str (number _) = ""
str (float _) = ""

-- `str(env.Payload[key])`; a missing key reads as nil, which is no text.
unfoldable pub payload_text : String → Payload → String
payload_text key [] = ""
payload_text key ((k, v) ∷ rest) = if str_eq k key then str v else payload_text key rest

unfoldable pub seen : Uuid → List Uuid → Bool
seen id [] = false
seen id (e ∷ rest) = e == id || seen id rest

-- `insert into accounts …, 'liability'`; the other columns have their defaults.
unfoldable pub insert_account : Uuid → Uuid → String → Tx ⊤
insert_account id user currency s =
    (do
      check (if account_exists id s.accounts then some unique_violation else none)
      modify (λ t. record t {
        accounts =
            record {
              id = id;
              user_id = user;
              currency = currency;
              type = liability;
              status = AccountStatus.active;
              created_at = t.clock;
            }
            ∷ t.accounts;
      }))
      s

abbrev pub has_balance : Option Balance → Bool
has_balance none = false
has_balance (some _) = true

-- `insert into account_balances`; the numbers default to 0.
unfoldable pub insert_balance : Uuid → Tx ⊤
insert_balance id s =
    (do
      check (if has_balance (find_balance id s.balances) then some unique_violation else none)
      modify (λ t. record t {
        balances = record { account_id = id; available = 0; held = 0; version = 0 } ∷ t.balances;
      }))
      s

abbrev pub default_currency : String
default_currency = "USD"

abbrev pub topic_registered : String
topic_registered = "identity.user.registered.v1"

abbrev pub topic_pay_failed : String
topic_pay_failed = "payments.payment.failed.v1"

module _ (x : Runtime) where
  -- `onUserRegistered` behind the parse of the user's id.
  unfoldable pub provision : ℤ → Uuid → Tx ⊤
  provision seed user = do
    account ← new_uuid x
    insert_account account user default_currency
    insert_balance account
    if ltb_ℤ (pos 0) seed
        then deposit x account seed default_currency ("welcome:" <> x.uuid_string user)
        else pure tt

  unfoldable pub on_user_registered : ℤ → Envelope → Tx ⊤
  unfolding provision payload_text
  on_user_registered seed env = do
    user ← or_raise (x.uuid_parse (payload_text "user_id" env.payload)) bad_payload
    provision seed user

  unfoldable pub on_payment_failed : Envelope → Tx ⊤
  unfolding payload_text
  on_payment_failed env = do
    payment ← or_raise (x.uuid_parse (payload_text "payment_id" env.payload)) bad_payload
    released ← release_by_payment x payment "compensation"
    pure tt

  unfoldable pub dispatch : ℤ → Envelope → Tx ⊤
  dispatch seed env =
      if str_eq env.event_type topic_registered
      then on_user_registered seed env
      else if str_eq env.event_type topic_pay_failed
      then on_payment_failed env
      else pure tt

  -- The gate: `on conflict do nothing`, and a seen event is left alone.
  unfoldable pub handle_event : ℤ → Uuid → Envelope → Tx ⊤
  unfolding seen
  handle_event seed event_id env = do
    old ← gets (λ s. seen event_id s.processed_events)
    if old then pure tt else (do
      modify (λ s. record s { processed_events = event_id ∷ s.processed_events })
      dispatch seed env)
