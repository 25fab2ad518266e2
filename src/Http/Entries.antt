-- ===== src/Http/Entries.antt =====
-- `listEntries`: the entries of an account in pages of 50, the newest first.
pub mod Order
pub mod Pages
use peikonpurekkusu_account.Prelude.{
  ℕ, none, some, [], ◌∷◌, List, Option, Bool, if◌then◌else◌, ltb, ◌==◌, false, ◌&&◌, String, ◌||◌,
  not,
}
use peikonpurekkusu_account.Schema.{Runtime, Uuid, Account, LedgerTransaction, Store, LedgerEntry}
use peikonpurekkusu_account.Prelude.Decimal.{print_nat, parse_int64}
use peikonpurekkusu_account.Http.{
  caller_id, EntryView, Response, failed, Fetch, Request, write_json, http_error, Body, fetch,
}
use peikonpurekkusu_account.Prelude.Int.{ℤ, pos, ltb_ℤ}
use peikonpurekkusu_account.Prelude.Lists.{take, length}

-- `select exists(select 1 from accounts where id = $1 and user_id = $2)`
unfoldable pub is_owned : Uuid → Uuid → List Account → Bool
is_owned id user [] = false
is_owned id user (a ∷ rest) = (a.id == id && a.user_id == user) || is_owned id user rest

abbrev pub default_cursor : ℤ
default_cursor = pos 4611686018427387903

abbrev pub or_default : Option ℤ → ℤ
or_default none = default_cursor
or_default (some n) = n

unfoldable pub read_cursor : List ℕ → ℤ
unfolding parse_int64
read_cursor [] = default_cursor
read_cursor (c ∷ cs) = or_default (parse_int64 (c ∷ cs))

unfoldable pub find_transaction : Uuid → List LedgerTransaction → Option LedgerTransaction
find_transaction id [] = none
find_transaction id (t ∷ rest) = if t.id == id then some t else find_transaction id rest

abbrev pub entry_view : Runtime → LedgerEntry → LedgerTransaction → EntryView
entry_view x e t = record {
  id = e.id;
  transaction_id = x.uuid_string e.transaction_id;
  kind = t.kind;
  direction = e.direction;
  amount_minor_units = e.amount;
  currency_code = e.currency;
  created_at = e.created_at;
}

abbrev pub with_transaction :
    Runtime → LedgerEntry → Option LedgerTransaction → List EntryView → List EntryView
with_transaction x e none rest = rest
with_transaction x e (some t) rest = entry_view x e t ∷ rest

-- `ledger_entries e join ledger_transactions t … where e.account_id = $1 and e.id < $2`
unfoldable pub entries_before :
    Runtime → Uuid → ℤ → List LedgerTransaction → List LedgerEntry → List EntryView
unfolding find_transaction
entries_before x account cursor txns [] = []
entries_before x account cursor txns (e ∷ rest) =
    let others = entries_before x account cursor txns rest in
    if e.account_id == account && ltb_ℤ (pos e.id) cursor
    then with_transaction x e (find_transaction e.transaction_id txns) others
    else others

-- `order by e.id desc`
unfoldable pub insert_newest : EntryView → List EntryView → List EntryView
insert_newest v [] = v ∷ []
insert_newest v (w ∷ rest) = if ltb v.id w.id then w ∷ insert_newest v rest else v ∷ w ∷ rest

unfoldable pub newest_first : List EntryView → List EntryView
unfolding insert_newest
newest_first [] = []
newest_first (v ∷ rest) = insert_newest v (newest_first rest)

abbrev pub page_size : ℕ
page_size = 50

abbrev pub last_id : ℕ → List EntryView → ℕ
last_id id [] = id
last_id id (v ∷ rest) = last_id v.id rest

unfoldable pub next_cursor : List EntryView → List ℕ
unfolding print_nat
next_cursor page = if length page == page_size then print_nat (last_id 0 page) else []

abbrev pub entries_reply : Option (List EntryView) → Response
entries_reply none = failed
entries_reply (some page) = write_json (Body.entries page (next_cursor page))

abbrev pub page_of : Runtime → Uuid → ℤ → Store → List EntryView
page_of x account cursor s =
    take page_size (newest_first (entries_before x account cursor s.transactions s.entries))

-- `exists_fails`: the query for the owner is refused, which counts as a missing account.
abbrev pub entries_for :
    Runtime → Bool → Fetch → List ℕ → Option Uuid → Option Uuid → Store → Response
entries_for x exists_fails f cursor none account s = http_error 401 "missing identity"
entries_for x exists_fails f cursor (some user) none s = http_error 400 "invalid account id"
entries_for x exists_fails f cursor (some user) (some account) s =
    if exists_fails || not (is_owned account user s.accounts)
    then http_error 404 "account not found"
    else entries_reply (fetch f (page_of x account (read_cursor cursor) s))

unfoldable pub list_entries : Runtime → Bool → Fetch → Request → String → Store → Response
unfolding caller_id is_owned entries_before newest_first next_cursor read_cursor
list_entries x exists_fails f r text s =
    entries_for x exists_fails f r.cursor (caller_id x r) (x.uuid_parse text) s
