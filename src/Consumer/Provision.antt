-- ===== src/Consumer/Provision.antt =====
-- A new account keeps the books consistent.
use mathlib.Core.Path.{subst, sym, ap}
use peikonpurekkusu_account.Prelude.{
  ◌≡◌, false, List, ◌∷◌, arith, ⊤, inl, ◌+◌, refl, true, ◌<>◌, ◌⊎◌, inr, sym, ap,
}
use peikonpurekkusu_account.Schema.{
  Account, Balance, HoldRecord, LedgerEntry, Runtime, Uuid, Store, liability, AccountStatus,
}
use peikonpurekkusu_account.Sql.Journal.{find_account, account_exists}
use peikonpurekkusu_account.Sql.Balances.{find_balance}
use peikonpurekkusu_account.Ledger.Books.{Consistent, IsConsistent}
use peikonpurekkusu_account.Ledger.Reconcile.{is_debit_normal}
use peikonpurekkusu_account.Prelude.Int.{ℤ, ltb_ℤ, pos}
use peikonpurekkusu_account.Consumer.Handlers.{
  default_currency, provision, insert_account, insert_balance,
}
use peikonpurekkusu_account.Tx.{ok}
use peikonpurekkusu_account.Ledger.Books.Preserve.{deposit-IsConsistent}
use peikonpurekkusu_account.Ledger.Operations.{deposit}
use peikonpurekkusu_account.Ledger.Effects.{deposit-eq-ok, DepositDone}

module _ (accounts : List Account) (entries : List LedgerEntry) (balances : List Balance)
    (holds : List HoldRecord) (books : Consistent accounts entries balances holds) where
  add_account-Consistent :
      (a : Account)
      → account_exists a.id accounts ≡ false
      → is_debit_normal a.type ≡ false
      → Consistent
          (a ∷ accounts)
          entries
          (record { account_id = a.id; available = 0; held = 0; version = 0 } ∷ balances)
          holds
  unfolding account_exists find_account find_balance
  add_account-Consistent a new normal = record {
    unique_accounts = (new, books.unique_accounts);
    unique_holds = books.unique_holds;
    amounts = books.amounts;
    held_agrees = λ c b e. ground (arith, books.no_orphans a.id new, books.held_agrees c b);
    available_agrees =
        λ c b d e ed. ground (arith, books.no_orphans a.id new, books.available_agrees c b d);
    no_asset_holds = λ c d ed debit_normal. ground (arith, books.no_asset_holds c d);
    settlement_type = λ currency c e.
        let (d, ed, debit_normal) = books.settlement_type currency c e in
        (d, ground arith, debit_normal);
    payable_type = λ currency c e.
        let (d, ed, credit_normal) = books.payable_type currency c e in
        (d, ground arith, credit_normal);
    no_orphans = λ c absent. ground (arith, books.no_orphans c);
  }

abbrev pub new_account : Runtime → Uuid → Store → Account
new_account x user s = record {
  id = x.fresh s.drawn;
  user_id = user;
  currency = default_currency;
  type = liability;
  status = AccountStatus.active;
  created_at = s.clock;
}

-- The store before the welcome deposit.
abbrev pub with_account : Runtime → Uuid → Store → Store
with_account x user s = record s {
  accounts = new_account x user s ∷ s.accounts;
  balances =
      record { account_id = x.fresh s.drawn; available = 0; held = 0; version = 0 } ∷ s.balances;
  drawn = s.drawn + 1;
}

module _ (x : Runtime) (seed : ℤ) (user : Uuid) (s : Store) where
  pub provision-eq-ok :
      {u : ⊤} {t : Store}
      → provision x seed user s ≡ ok (u, t)
      → (account_exists (x.fresh s.drawn) s.accounts ≡ false)
        × ((ltb_ℤ (pos 0) seed ≡ true)
              × (deposit x
                    (x.fresh s.drawn)
                    seed
                    default_currency
                    ("welcome:" <> x.uuid_string user)
                    (with_account x user s)
                  ≡ ok (u, t))
            ⊎ (ltb_ℤ (pos 0) seed ≡ false) × (t ≡ with_account x user s))
  unfolding provision insert_account insert_balance
  provision-eq-ok e = ground arith

  with_account-IsConsistent :
      IsConsistent s
      → account_exists (x.fresh s.drawn) s.accounts ≡ false
      → IsConsistent (with_account x user s)
  with_account-IsConsistent books new =
      add_account-Consistent s.accounts s.entries s.balances s.holds books (new_account x user s)
        new refl

  -- A new account with its welcome deposit keeps the books consistent.
  pub provision-IsConsistent :
      {u : ⊤} {t : Store} → IsConsistent s → provision x seed user s ≡ ok (u, t) → IsConsistent t
  provision-IsConsistent books e =
      let (new, cases) = provision-eq-ok e in
      let books' = with_account-IsConsistent books new in
      elim cases [
        | inl (paid, d) ↦
            deposit-IsConsistent x (x.fresh s.drawn) seed default_currency _ (with_account x user s)
              books' (λ a ea. unfold find_account in ground arith) d
        | inr (unpaid, same) ↦ subst IsConsistent (sym same) books'
      ]

  pub holds-provision :
      {u : ⊤} {t : Store} → provision x seed user s ≡ ok (u, t) → t.holds ≡ s.holds
  holds-provision e =
      let (new, cases) = provision-eq-ok e in
      elim cases [
        | inl (paid, d) ↦
            (deposit-eq-ok x (x.fresh s.drawn) seed default_currency _ (with_account x user s)
              d).1.holds
        | inr (unpaid, same) ↦ ap (λ (r : Store). r.holds) same
      ]

  pub journal-provision :
      {u : ⊤} {t : Store}
      → provision x seed user s ≡ ok (u, t)
      → ((f : Uuid) × DepositDone x
            (x.fresh s.drawn)
            seed
            default_currency
            ("welcome:" <> x.uuid_string user)
            (with_account x user s)
            t
            f)
        ⊎ ((t.entries ≡ s.entries) × (t.transactions ≡ s.transactions))
  journal-provision e =
      let (new, cases) = provision-eq-ok e in
      elim cases [
        | inl (paid, d) ↦
            inl
              (deposit-eq-ok x (x.fresh s.drawn) seed default_currency _ (with_account x user s) d)
        | inr (unpaid, same) ↦
            inr (ap (λ (r : Store). r.entries) same, ap (λ (r : Store). r.transactions) same)
      ]
