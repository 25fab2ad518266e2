-- ===== src/Ledger/History/AppendOnly.antt =====
-- The journal only grows, and what is added to it balances in every currency.
use mathlib.Core.Path.{subst}
use mathlib.Core.List.{append_assoc}
use peikonpurekkusu_account.Prelude.{
  ℕ, ◌+◌, ◌≡◌, inl, inr, refl, sym, ap, ◌∙◌, Bool, true, false, List, [], ◌∷◌, ◌++◌, arith, str_eq,
  Option-cases, if◌then◌else◌, String,
}
use peikonpurekkusu_account.Schema.{
  Uuid, LedgerEntry, LedgerTransaction, Store, Runtime, credit, debit,
}
use peikonpurekkusu_account.Tx.{ok, >>=-eq-ok, Result-cases}
use peikonpurekkusu_account.Sql.Holds.{active_hold_of}
use peikonpurekkusu_account.Ledger.Operations.{release, release_all, sweep, release_by_payment}
use peikonpurekkusu_account.Ledger.Effects.{
  hold-eq-ok, release-eq-ok, capture-eq-ok, deposit-eq-ok, two_legs, entry_row,
}
use peikonpurekkusu_account.Ledger.Reconcile.{is_debit}
use peikonpurekkusu_account.Consumer.Provision.{journal-provision}
use peikonpurekkusu_account.Ledger.History.{
  Step, Reach, held, captured, released, compensated, deposited, swept, provisioned, elsewhere,
  here, next,
}

-- The amounts that journal rows debit (true) or credit (false) in a currency.
unfoldable pub volume : Bool → String → List LedgerEntry → ℕ
volume side currency [] = 0
volume side currency (e ∷ rest) =
    (if str_eq e.currency currency
      then (if is_debit e.direction
          then (if side then e.amount else 0)
          else (if side then 0 else e.amount))
      else 0)
    + volume side currency rest

-- The journal of `t` is that of `s` with rows in front whose debits and credits agree.
pub record Appends (s t : Store) : Type 0 where
  pub entries : List LedgerEntry
  pub transactions : List LedgerTransaction
  pub entries_eq : t.entries ≡ entries ++ s.entries
  pub transactions_eq : t.transactions ≡ transactions ++ s.transactions
  pub balanced : (currency : String) → volume true currency entries ≡ volume false currency entries

volume-append :
    (side : Bool) (currency : String) (xs ys : List LedgerEntry)
    → volume side currency (xs ++ ys) ≡ volume side currency xs + volume side currency ys
unfolding volume
volume-append side currency [] ys = omega arith
volume-append side currency (x ∷ xs) ys = omega (arith, volume-append side currency xs ys)

Appends-same : (s t : Store) → t.entries ≡ s.entries → t.transactions ≡ s.transactions → Appends s t
unfolding volume
Appends-same s t e f = record {
  entries = [];
  transactions = [];
  entries_eq = e;
  transactions_eq = f;
  balanced = λ c. refl;
}

-- A journal that was empty balances whatever was appended.
pub Appends-empty :
    (s t : Store)
    → s.entries ≡ []
    → Appends s t
    → (currency : String) → volume true currency t.entries ≡ volume false currency t.entries
unfolding volume
Appends-empty s t e p c =
    let same : t.entries ≡ p.entries ++ [] = p.entries_eq ∙ ap (λ l. p.entries ++ l) e in
    rw same (
      omega (
        arith,
        volume-append true c p.entries [],
        volume-append false c p.entries [],
        p.balanced c,
      ))

Appends-trans : (a b c : Store) → Appends a b → Appends b c → Appends a c
Appends-trans a b c p q = record {
  entries = q.entries ++ p.entries;
  transactions = q.transactions ++ p.transactions;
  entries_eq =
      q.entries_eq
      ∙ ap (λ l. q.entries ++ l) p.entries_eq
      ∙ sym (append_assoc q.entries p.entries a.entries);
  transactions_eq =
      q.transactions_eq
      ∙ ap (λ l. q.transactions ++ l) p.transactions_eq
      ∙ sym (append_assoc q.transactions p.transactions a.transactions);
  balanced = λ k. omega (
    arith,
    volume-append true k q.entries p.entries,
    volume-append false k q.entries p.entries,
    p.balanced k,
    q.balanced k,
  );
}

-- A posting of two legs.
Appends-two_legs :
    (txn from to : Uuid) (n : ℕ) (currency : String) (r : LedgerTransaction) (s t : Store)
    → t.entries ≡ two_legs txn from to n currency s
    → t.transactions ≡ r ∷ s.transactions
    → Appends s t
unfolding volume
Appends-two_legs txn from to n currency r s t e f = record {
  entries =
      entry_row txn to credit n currency s
        (entry_row txn from debit n currency s s.entries ∷ s.entries)
      ∷ entry_row txn from debit n currency s s.entries
      ∷ [];
  transactions = r ∷ [];
  entries_eq = e;
  transactions_eq = f;
  balanced = λ k. ground arith;
}

module _ (x : Runtime) where
  release-Appends :
      (id : Uuid) (reason : String) (s t : Store) → release x id reason s ≡ ok (tt, t) → Appends s t
  release-Appends id reason s t e =
      let (h, d) = release-eq-ok x id reason s e in Appends-same s t d.entries d.transactions

  release_all-Appends :
      (ids : List Uuid) (n m : ℕ) (s t : Store) → release_all x ids n s ≡ ok (m, t) → Appends s t
  unfolding release_all
  release_all-Appends [] n m s t e =
      let same : s ≡ t = ground arith in
      Appends-same s t (ap (λ (r : Store). r.entries) (sym same))
        (ap (λ (r : Store). r.transactions) (sym same))
  release_all-Appends (id ∷ ids) n m s t e =
      let (u, mid, done, rest) =
        >>=-eq-ok (release x id "expiry") (λ _. release_all x ids (n + 1)) s e in
      Appends-trans s mid t (release-Appends id "expiry" s mid done)
        (release_all-Appends ids (n + 1) m mid t rest)

  release_by_payment-Appends :
      (payment : Uuid) (reason : String) (r : Bool) (s t : Store)
      → release_by_payment x payment reason s ≡ ok (r, t)
      → Appends s t
  unfolding release_by_payment
  release_by_payment-Appends payment reason r s t e =
      elim (Option-cases (active_hold_of payment s.holds)) [
        | inl nothing ↦
            let same : s ≡ t = ground arith in
            Appends-same s t (ap (λ (q : Store). q.entries) (sym same))
              (ap (λ (q : Store). q.transactions) (sym same))
        | inr (id, found) ↦ elim (Result-cases (release x id reason s)) [
          | inl ((u, t'), done) ↦
              let same : t' ≡ t = ground arith in
              subst (Appends s) same (release-Appends id reason s t' done)
          | inr (f, failed) ↦ absurd (ground arith)
        ]
      ]

  Step-Appends : (s t : Store) → Step x s t → Appends s t
  unfolding sweep
  Step-Appends s t (held account payment amount currency ttl r normal e) =
      let (b, a, d) = hold-eq-ok x account payment amount currency ttl s e in
      Appends-same s t d.entries d.transactions
  Step-Appends s t (captured id amount txn e) =
      let (h, p, d) = capture-eq-ok x id amount s e in
      Appends-two_legs _ _ _ _ _ _ s t d.entries d.transactions
  Step-Appends s t (released id reason e) = release-Appends id reason s t e
  Step-Appends s t (compensated payment reason r e) =
      release_by_payment-Appends payment reason r s t e
  Step-Appends s t (deposited account amount currency key normal e) =
      let (f, d) = deposit-eq-ok x account amount currency key s e in
      Appends-two_legs _ _ _ _ _ _ s t d.entries d.transactions
  Step-Appends s t (swept locked n e) = release_all-Appends _ 0 n s t e
  Step-Appends s t (provisioned seed user e) = elim (journal-provision x seed user s e) [
    | inl (f, d) ↦ Appends-two_legs _ _ _ _ _ _ s t d.entries d.transactions
    | inr (same, same') ↦ Appends-same s t same same'
  ]
  Step-Appends s t (elsewhere m) = Appends-same s t m.entries m.transactions

  -- Along any history the journal keeps every row that it had, and the rows that it gains have the
  -- same debits and credits in every currency.
  pub Reach-Appends : (s t : Store) → Reach x s t → Appends s t
  Reach-Appends s t here = Appends-same s s refl refl
  Reach-Appends s t (next {t = mid} r st) =
      Appends-trans s mid t (Reach-Appends s mid r) (Step-Appends mid t st)
