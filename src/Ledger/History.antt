-- ===== src/Ledger/History.antt =====
-- The histories of the money tables: the steps that the service takes, and what stays true along
-- any sequence of them.
pub mod Accounts
pub mod Lifecycle
pub mod Closed
pub mod AppendOnly
use peikonpurekkusu_account.Prelude.{ℕ, ◌≡◌, String, Bool, false, some}
use peikonpurekkusu_account.Prelude.Int.{ℤ}
use peikonpurekkusu_account.Schema.{Uuid, Account, Store, Runtime}
use peikonpurekkusu_account.Tx.{ok}
use peikonpurekkusu_account.Sql.Journal.{find_account}
use peikonpurekkusu_account.Ledger.Operations.{
  HoldResult, hold, capture, release, release_by_payment, deposit, sweep,
}
use peikonpurekkusu_account.Ledger.Reconcile.{is_debit_normal, reconcile}
use peikonpurekkusu_account.Ledger.Reconcile.Exact.{RowsInRange}
use peikonpurekkusu_account.Ledger.Effects.{SameMoney}
use peikonpurekkusu_account.Ledger.Books.{IsConsistent}
use peikonpurekkusu_account.Ledger.Books.Preserve.{
  hold-IsConsistent, release-IsConsistent, capture-IsConsistent, deposit-IsConsistent,
}
use peikonpurekkusu_account.Ledger.Books.Closing.{
  release_by_payment-IsConsistent, sweep-IsConsistent,
}
use peikonpurekkusu_account.Ledger.Books.Clean.{reconcile-IsConsistent}
use peikonpurekkusu_account.Consumer.Handlers.{provision}
use peikonpurekkusu_account.Consumer.Provision.{provision-IsConsistent}
use peikonpurekkusu_account.Sql.Fetch.{Fetch, breaks}

-- The account is no asset or expense account, if it is there.
abbrev pub IsCreditNormal : Uuid → Store → Type 0
IsCreditNormal account s =
    (a : Account) → find_account account s.accounts ≡ some a → is_debit_normal a.type ≡ false

-- A committed transaction, or a change that leaves the money tables alone (the clock, an id drawn,
-- a stored response, a processed event, an outbox row). Holds and deposits are on accounts that
-- are credit-normal.
pub data Step (x : Runtime) (s : Store) (t : Store) : Type 0 where
  held :
      (account payment : Uuid) (amount : ℤ) (currency : String) (ttl : ℤ) (r : HoldResult)
      → IsCreditNormal account s
      → hold x account payment amount currency ttl s ≡ ok (r, t)
      → Step x s t
  captured :
      (id : Uuid) (amount : ℤ) (txn : Uuid) → capture x id amount s ≡ ok (txn, t) → Step x s t
  released : (id : Uuid) (reason : String) → release x id reason s ≡ ok (tt, t) → Step x s t
  compensated :
      (payment : Uuid) (reason : String) (r : Bool)
      → release_by_payment x payment reason s ≡ ok (r, t)
      → Step x s t
  deposited :
      (account : Uuid) (amount : ℤ) (currency key : String)
      → IsCreditNormal account s
      → deposit x account amount currency key s ≡ ok (tt, t)
      → Step x s t
  swept : (locked : Uuid → Bool) (n : ℕ) → sweep x locked s ≡ ok (n, t) → Step x s t
  provisioned : (seed : ℤ) (user : Uuid) → provision x seed user s ≡ ok (tt, t) → Step x s t
  elsewhere : SameMoney s t → Step x s t

pub data Reach (x : Runtime) (s : Store) : Store → Type 0 where
  here : Reach x s s
  next : {t u : Store} → Reach x s t → Step x t u → Reach x s u

SameMoney-IsConsistent : (s t : Store) → SameMoney s t → IsConsistent s → IsConsistent t
SameMoney-IsConsistent s t m books = rw (m.accounts, m.entries, m.balances, m.holds) books

module _ (x : Runtime) where
  pub Step-IsConsistent : (s t : Store) → Step x s t → IsConsistent s → IsConsistent t
  Step-IsConsistent s t (held account payment amount currency ttl r normal e) books =
      hold-IsConsistent x account payment amount currency ttl s books normal e
  Step-IsConsistent s t (captured id amount txn e) books =
      capture-IsConsistent x id amount s books e
  Step-IsConsistent s t (released id reason e) books = release-IsConsistent x id reason s books e
  Step-IsConsistent s t (compensated payment reason r e) books =
      release_by_payment-IsConsistent x payment reason s books e
  Step-IsConsistent s t (deposited account amount currency key normal e) books =
      deposit-IsConsistent x account amount currency key s books normal e
  Step-IsConsistent s t (swept locked n e) books = sweep-IsConsistent x locked s books e
  Step-IsConsistent s t (provisioned seed user e) books =
      provision-IsConsistent x seed user s books e
  Step-IsConsistent s t (elsewhere m) books = SameMoney-IsConsistent s t m books

  pub Reach-IsConsistent : (s t : Store) → IsConsistent s → Reach x s t → IsConsistent t
  Reach-IsConsistent s t books here = books
  Reach-IsConsistent s t books (next {t = mid} r st) =
      Step-IsConsistent mid t st (Reach-IsConsistent s mid books r)

  -- After any sequence of holds, captures, releases, compensations, deposits, sweeps,
  -- provisionings and changes outside the money tables that starts from consistent books, with the
  -- holds and deposits on accounts that are not debit-normal, a reconciliation whose sums fit an
  -- int64 reports no drift, whatever comes of its query, and an error exactly if the query is
  -- refused or breaks.
  pub Reach-reconcile :
      (f : Fetch) (s t : Store)
      → IsConsistent s
      → Reach x s t
      → RowsInRange t t.accounts
      → reconcile f t ≡ record { drifted = 0; failed = breaks f }
  Reach-reconcile f s t books r range =
      reconcile-IsConsistent t (Reach-IsConsistent s t books r) f range
