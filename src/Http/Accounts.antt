-- ===== src/Http/Accounts.antt =====
-- `listAccounts`
pub mod Listing
use peikonpurekkusu_account.Prelude.{none, some, [], ◌∷◌, List, if◌then◌else◌, Option, leb, ◌==◌}
use peikonpurekkusu_account.Http.{
  Body, AccountView, caller_id, Fetch, Response, Request, http_error, failed, fetch, write_json,
}
use peikonpurekkusu_account.Schema.{Time, Runtime, Account, Uuid, Store, Balance}
use peikonpurekkusu_account.Sql.Balances.{find_balance}

abbrev pub view : Runtime → Account → Balance → AccountView
view x a b = record {
  account_id = x.uuid_string a.id;
  currency_code = a.currency;
  type = a.type;
  status = a.status;
  created_at = a.created_at;
  available_minor_units = b.available;
  held_minor_units = b.held;
}

abbrev pub with_balance : Runtime → Account → Option Balance → List AccountView → List AccountView
with_balance x a none rest = rest
with_balance x a (some b) rest = view x a b ∷ rest

-- `accounts a join account_balances b … where a.user_id = $1`, in the order of the table.
unfoldable pub owned_accounts : Runtime → Uuid → List Balance → List Account → List AccountView
unfolding find_balance
owned_accounts x user balances [] = []
owned_accounts x user balances (a ∷ rest) =
    let others = owned_accounts x user balances rest in
    if a.user_id == user then with_balance x a (find_balance a.id balances) others else others

-- `order by a.created_at`; accounts of one time keep the order of the table.
unfoldable pub insert_view : AccountView → List AccountView → List AccountView
insert_view v [] = v ∷ []
insert_view v (w ∷ rest) =
    if leb v.created_at w.created_at then v ∷ w ∷ rest else w ∷ insert_view v rest

unfoldable pub order_by_created : List AccountView → List AccountView
unfolding insert_view
order_by_created [] = []
order_by_created (v ∷ rest) = insert_view v (order_by_created rest)

abbrev pub accounts_reply : Time → Option (List AccountView) → Response
accounts_reply now none = failed
accounts_reply now (some rows) = write_json (Body.accounts rows now)

abbrev pub accounts_of : Runtime → Fetch → Option Uuid → Store → Response
accounts_of x f none s = http_error 401 "missing identity"
accounts_of x f (some user) s =
    accounts_reply s.clock
      (fetch f (order_by_created (owned_accounts x user s.balances s.accounts)))

unfoldable pub list_accounts : Runtime → Fetch → Request → Store → Response
unfolding caller_id owned_accounts order_by_created
list_accounts x f r s = accounts_of x f (caller_id x r) s
