-- ===== src/Ledger/History/Accounts.antt =====
-- What a history does to the accounts: it opens credit-normal ones, and changes none.
use peikonpurekkusu_account.Prelude.{
  ℕ, some, [], ◌∷◌, List, ◌≡◌, String, inl, Bool, ap, inr, ◌⊎◌, Option-cases, sym, ◌∙◌, arith,
  false, ◌+◌, refl, Bool-cases, ◌==◌,
}
use peikonpurekkusu_account.Schema.{Store, Runtime, Uuid, Account}
use peikonpurekkusu_account.Ledger.Operations.{release_all, sweep, release_by_payment, release}
use peikonpurekkusu_account.Ledger.History.{
  Step, Reach, IsCreditNormal, next, here, compensated, held, captured, released, deposited, swept,
  provisioned, elsewhere,
}
use peikonpurekkusu_account.Prelude.Int.{ℤ}
use peikonpurekkusu_account.Consumer.Handlers.{provision, default_currency}
use peikonpurekkusu_account.Tx.{ok, Result, err, >>=-eq-ok, Result-cases}
use peikonpurekkusu_account.Ledger.Effects.{hold-eq-ok, capture-eq-ok, deposit-eq-ok, release-eq-ok}
use peikonpurekkusu_account.Sql.Journal.{find_account}
use peikonpurekkusu_account.Consumer.Provision.{new_account, provision-eq-ok, with_account}
use peikonpurekkusu_account.Sql.Holds.{active_hold_of}
use peikonpurekkusu_account.Ledger.Reconcile.{is_debit_normal}
use mathlib.Core.Path.{subst}

pub Reach-trans : (x : Runtime) (s t u : Store) → Reach x s t → Reach x t u → Reach x s u
Reach-trans x s t u r here = r
Reach-trans x s t u r (next {t = mid} q st) = next (Reach-trans x s t mid r q) st

pub Reach-step : (x : Runtime) (s t : Store) → Step x s t → Reach x s t
Reach-step x s t st = next here st

-- The accounts that `t` has beside those of `s`.
abbrev Opens : Store → Store → Type 0
Opens s t =
    (c : Uuid) (a : Account)
    → find_account c t.accounts ≡ some a
    → (find_account c s.accounts ≡ some a) ⊎ (is_debit_normal a.type ≡ false)

find_account-new :
    (c : Uuid) (a new : Account) (rest : List Account)
    → is_debit_normal new.type ≡ false
    → find_account c (new ∷ rest) ≡ some a
    → (find_account c rest ≡ some a) ⊎ (is_debit_normal a.type ≡ false)
unfolding find_account
find_account-new c a new rest normal e = elim (Bool-cases (new.id == c)) [
  | inl same ↦
      let found : new ≡ a = ground arith in
      inr (subst (λ (b : Account). is_debit_normal b.type ≡ false) found normal)
  | inr differ ↦ inl (ground arith)
]

Opens-same : (s t : Store) → t.accounts ≡ s.accounts → Opens s t
Opens-same s t same c a e = inl (ap (find_account c) (sym same) ∙ e)

module _ (x : Runtime) where
  release_all-accounts :
      (ids : List Uuid) (n m : ℕ) (s t : Store)
      → release_all x ids n s ≡ ok (m, t)
      → t.accounts ≡ s.accounts
  unfolding release_all
  release_all-accounts [] n m s t e =
      ap (λ (q : Result (ℕ × Store)). elim q [ ok p ↦ p.1.accounts | err f ↦ s.accounts ]) (sym e)
  release_all-accounts (id ∷ ids) n m s t e =
      let (u, mid, done, rest) =
        >>=-eq-ok (release x id "expiry") (λ _. release_all x ids (n + 1)) s e in
      let (h, d) = release-eq-ok x id "expiry" s done in
      release_all-accounts ids (n + 1) m mid t rest ∙ d.accounts

  release_by_payment-accounts :
      (payment : Uuid) (reason : String) (r : Bool) (s t : Store)
      → release_by_payment x payment reason s ≡ ok (r, t)
      → t.accounts ≡ s.accounts
  unfolding release_by_payment
  release_by_payment-accounts payment reason r s t e =
      elim (Option-cases (active_hold_of payment s.holds)) [
        | inl nothing ↦ let same : s ≡ t = ground arith in ap (λ (q : Store). q.accounts) (sym same)
        | inr (id, found) ↦ elim (Result-cases (release x id reason s)) [
          | inl ((u, t'), done) ↦
              let same : t' ≡ t = ground arith in
              let (h, d) = release-eq-ok x id reason s done in
              ap (λ (q : Store). q.accounts) (sym same) ∙ d.accounts
          | inr (f, failed) ↦ absurd (ground arith)
        ]
      ]

  accounts-provision :
      (seed : ℤ) (user : Uuid) (s t : Store)
      → provision x seed user s ≡ ok (tt, t)
      → t.accounts ≡ new_account x user s ∷ s.accounts
  accounts-provision seed user s t e =
      let (new, cases) = provision-eq-ok x seed user s e in
      elim cases [
        | inl (paid, d) ↦
            (deposit-eq-ok x (x.fresh s.drawn) seed default_currency _ (with_account x user s)
              d).1.accounts
        | inr (unpaid, same) ↦ ap (λ (r : Store). r.accounts) same
      ]

  Step-Opens : (s t : Store) → Step x s t → Opens s t
  unfolding sweep
  Step-Opens s t (held account payment amount currency ttl r normal e) =
      let (b, a, d) = hold-eq-ok x account payment amount currency ttl s e in
      Opens-same s t d.accounts
  Step-Opens s t (captured id amount txn e) =
      let (h, p, d) = capture-eq-ok x id amount s e in Opens-same s t d.accounts
  Step-Opens s t (released id reason e) =
      let (h, d) = release-eq-ok x id reason s e in Opens-same s t d.accounts
  Step-Opens s t (compensated payment reason r e) =
      Opens-same s t (release_by_payment-accounts payment reason r s t e)
  Step-Opens s t (deposited account amount currency key normal e) =
      let (f, d) = deposit-eq-ok x account amount currency key s e in Opens-same s t d.accounts
  Step-Opens s t (swept locked n e) = Opens-same s t (release_all-accounts _ 0 n s t e)
  Step-Opens s t (provisioned seed user e) = λ c a f.
      find_account-new c a (new_account x user s) s.accounts refl
        (ap (find_account c) (sym (accounts-provision seed user s t e)) ∙ f)
  Step-Opens s t (elsewhere m) = Opens-same s t m.accounts

  -- An account that is no debit-normal one, or is not there, never becomes a debit-normal one.
  pub Reach-IsCreditNormal :
      (c : Uuid) (s t : Store) → Reach x s t → IsCreditNormal c s → IsCreditNormal c t
  Reach-IsCreditNormal c s t here normal = normal
  Reach-IsCreditNormal c s t (next {t = mid} r st) normal = λ a e.
      elim (Step-Opens mid t st c a e) [
        | inl old ↦ Reach-IsCreditNormal c s mid r normal a old
        | inr credit ↦ credit
      ]
