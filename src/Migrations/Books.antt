-- ===== src/Migrations/Books.antt =====
-- The books of a database that has just been migrated.
use mathlib.Core.Path.{subst}
use peikonpurekkusu_account.Schema.{Store, Uuid, Account, Balance, Time}
use peikonpurekkusu_account.Migrations.{migrated, opening_balances}
use peikonpurekkusu_account.Sql.Balances.{find_balance}
use peikonpurekkusu_account.Ledger.Reconcile.{active_held, debits, credits, is_debit_normal}
use peikonpurekkusu_account.Prelude.{
  List, Bool, ℕ, String, ◌≡◌, true, some, ◌⊎◌, [], arith, ◌∷◌, inl, false, refl, inr,
}
use peikonpurekkusu_account.Ledger.Posting.{settlement_account, merchant_payable_account}
use peikonpurekkusu_account.Sql.Journal.{find_account, account_exists}
use peikonpurekkusu_account.Ledger.Books.{IsConsistent, UniqueAccounts, Agrees, Consistent}
use peikonpurekkusu_account.Prelude.Lists.{All}

find_balance-zero :
    (c : Uuid) (rows : List Balance) (b : Balance)
    → All (λ r. (r.available ≡ 0) × (r.held ≡ 0)) rows
    → find_balance c rows ≡ some b
    → (b.available ≡ 0) × (b.held ≡ 0)
unfolding find_balance
find_balance-zero c [] b all e = cc
find_balance-zero c (r ∷ rows) b all e = ground (arith, find_balance-zero c rows b)

zero_rows :
    (accounts : List Account)
    → All (λ (r : Balance). (r.available ≡ 0) × (r.held ≡ 0)) (opening_balances accounts)
zero_rows [] = tt
zero_rows (a ∷ accounts) = ((refl, refl), zero_rows accounts)

Agrees-zero : (debit_normal : Bool) (n : ℕ) → n ≡ 0 → Agrees debit_normal n 0 0 0
Agrees-zero true n e = omega (arith, e)
Agrees-zero false n e = omega (arith, e)

settlement-cases :
    (currency : String) (c : Uuid)
    → settlement_account currency ≡ some c
    → (0xc001 ≡ c) ⊎ ((0xc002 ≡ c) ⊎ ((0xc003 ≡ c) ⊎ (0xc004 ≡ c)))
unfolding settlement_account
settlement-cases currency c e = ground arith

payable-cases :
    (currency : String) (c : Uuid)
    → merchant_payable_account currency ≡ some c
    → (0xd001 ≡ c) ⊎ ((0xd002 ≡ c) ⊎ ((0xd003 ≡ c) ⊎ (0xd004 ≡ c)))
unfolding merchant_payable_account
payable-cases currency c e = ground arith

-- The system accounts are found where they are looked for.
abbrev HasType : Bool → List Account → Uuid → Type 0
HasType debit_normal accounts c =
    (a : Account) × (find_account c accounts ≡ some a) × (is_debit_normal a.type ≡ debit_normal)

abbrev Has : Bool → List Account → Uuid → Uuid → Uuid → Uuid → Type 0
Has debit_normal accounts c₁ c₂ c₃ c₄ =
    HasType debit_normal accounts c₁
    × HasType debit_normal accounts c₂
    × HasType debit_normal accounts c₃
    × HasType debit_normal accounts c₄

Has-any :
    (debit_normal : Bool) (accounts : List Account) (c₁ c₂ c₃ c₄ c : Uuid)
    → Has debit_normal accounts c₁ c₂ c₃ c₄
    → (c₁ ≡ c) ⊎ ((c₂ ≡ c) ⊎ ((c₃ ≡ c) ⊎ (c₄ ≡ c)))
    → HasType debit_normal accounts c
Has-any d accounts c₁ c₂ c₃ c₄ c h (inl e) = subst (HasType d accounts) e h.0
Has-any d accounts c₁ c₂ c₃ c₄ c h (inr (inl e)) = subst (HasType d accounts) e h.1
Has-any d accounts c₁ c₂ c₃ c₄ c h (inr (inr (inl e))) = subst (HasType d accounts) e h.2
Has-any d accounts c₁ c₂ c₃ c₄ c h (inr (inr (inr e))) = subst (HasType d accounts) e h.3

-- Accounts of which nothing has moved yet.
abbrev pub Untouched : Store → Type 0
Untouched s =
    UniqueAccounts s.accounts
    × (s.balances ≡ opening_balances s.accounts)
    × (s.holds ≡ [])
    × (s.entries ≡ [])
    × Has true s.accounts 0xc001 0xc002 0xc003 0xc004
    × Has false s.accounts 0xd001 0xd002 0xd003 0xd004

blank-Consistent :
    (accounts : List Account)
    → UniqueAccounts accounts
    → Has true accounts 0xc001 0xc002 0xc003 0xc004
    → Has false accounts 0xd001 0xd002 0xd003 0xd004
    → Consistent accounts [] (opening_balances accounts) []
unfolding active_held debits credits
blank-Consistent accounts unique settlement payable = record {
  unique_accounts = unique;
  unique_holds = tt;
  amounts = tt;
  held_agrees =
      λ c b e. (find_balance-zero c (opening_balances accounts) b (zero_rows accounts) e).1;
  available_agrees = λ c b a e f.
      Agrees-zero (is_debit_normal a.type) b.available
        (find_balance-zero c (opening_balances accounts) b (zero_rows accounts) e).0;
  no_asset_holds = λ c a e f. refl;
  settlement_type = λ currency c e.
      Has-any true accounts 0xc001 0xc002 0xc003 0xc004 c settlement
        (settlement-cases currency c e);
  payable_type = λ currency c e.
      Has-any false accounts 0xd001 0xd002 0xd003 0xd004 c payable (payable-cases currency c e);
  no_orphans = λ c e. (refl, refl, refl);
}

pub Untouched-IsConsistent : (s : Store) → Untouched s → IsConsistent s
Untouched-IsConsistent s (unique, balances, holds, entries, settlement, payable) =
    rw (balances, holds, entries) (blank-Consistent s.accounts unique settlement payable)

pub migrated-IsConsistent : (now : Time) → IsConsistent (migrated now)
unfolding migrated find_account account_exists
migrated-IsConsistent now = Untouched-IsConsistent (migrated now) (
  (refl, (refl, (refl, (refl, (refl, (refl, (refl, (refl, tt)))))))),
  refl,
  refl,
  refl,
  ((_, refl, refl), (_, refl, refl), (_, refl, refl), (_, refl, refl)),
  ((_, refl, refl), (_, refl, refl), (_, refl, refl), (_, refl, refl)),
)
