-- ===== src/Ledger/History/Lifecycle.antt =====
-- The life of a hold: what a step can change of it.
use peikonpurekkusu_account.Prelude.{
  ℕ, ◌+◌, ◌≡◌, ◌⊎◌, inl, inr, refl, Bool, true, false, none, some, List, [], ◌∷◌, arith, ◌==◌,
  Bool-cases, Option-cases, String,
}
use peikonpurekkusu_account.Schema.{Uuid, HoldStatus, HoldRecord, Store, Runtime}
use peikonpurekkusu_account.Tx.{ok, >>=-eq-ok, Result-cases}
use peikonpurekkusu_account.Sql.Holds.{
  find_hold, hold_exists, is_active, with_status, active_hold_of,
}
use peikonpurekkusu_account.Sql.Holds.Laws.{find_hold-with_status}
use peikonpurekkusu_account.Ledger.Operations.{
  release, release_all, sweep, release_by_payment, released_status,
}
use peikonpurekkusu_account.Ledger.Effects.{hold-eq-ok, release-eq-ok, capture-eq-ok, deposit-eq-ok}
use peikonpurekkusu_account.Ledger.Books.Preserve.{hold_error-none}
use peikonpurekkusu_account.Consumer.Provision.{holds-provision}
use peikonpurekkusu_account.Ledger.History.{
  Step, Reach, held, captured, released, compensated, deposited, swept, provisioned, elsewhere,
  here, next,
}

-- `h'` is `h` at a later time: only the status may differ, and only if `h` was active.
pub record Later (h h' : HoldRecord) : Type 0 where
  pub same : h' ≡ record h { status = h'.status }
  pub status : (h'.status ≡ h.status) ⊎ (is_active h.status ≡ true)

abbrev pub Evolves : List HoldRecord → List HoldRecord → Type 0
Evolves rows rows' =
    (id : Uuid) (h : HoldRecord)
    → find_hold id rows ≡ some h
    → (h' : HoldRecord) × (find_hold id rows' ≡ some h') × Later h h'

Evolves-refl : (rows : List HoldRecord) → Evolves rows rows
Evolves-refl rows id h e = (h, e, record { same = refl; status = inl refl })

Evolves-trans : (a b c : List HoldRecord) → Evolves a b → Evolves b c → Evolves a c
Evolves-trans a b c f g id h e =
    let (h₁, e₁, l₁) = f id h e in
    let (h₂, e₂, l₂) = g id h₁ e₁ in
    (h₂, e₂, ground (arith, l₁.same, l₁.status, l₂.same, l₂.status))

hold_exists-find :
    (id : Uuid) (rows : List HoldRecord) → hold_exists id rows ≡ false → find_hold id rows ≡ none
unfolding hold_exists find_hold
hold_exists-find id [] e = refl
hold_exists-find id (r ∷ rows) e = ground (arith, hold_exists-find id rows)

insert-Evolves :
    (r : HoldRecord) (rows : List HoldRecord)
    → hold_exists r.id rows ≡ false
    → Evolves rows (r ∷ rows)
unfolding find_hold
insert-Evolves r rows new id h e =
    (h, ground (arith, hold_exists-find r.id rows new), record { same = refl; status = inl refl })

with_status-Evolves :
    (id : Uuid) (status : HoldStatus) (r : HoldRecord) (rows : List HoldRecord)
    → find_hold id rows ≡ some r
    → is_active r.status ≡ true
    → Evolves rows (with_status id status rows)
with_status-Evolves id status r rows found is_open c h e = elim (Bool-cases (c == id)) [
  | inl same ↦ (
    record h { status = status },
    ground (arith, find_hold-with_status id status c rows),
    ground arith,
  )
  | inr differ ↦ (
    h,
    ground (arith, find_hold-with_status id status c rows),
    record { same = refl; status = inl refl },
  )
]

module _ (x : Runtime) where
  release-Evolves :
      (id : Uuid) (reason : String) (s t : Store)
      → release x id reason s ≡ ok (tt, t)
      → Evolves s.holds t.holds
  release-Evolves id reason s t e =
      let (h, d) = release-eq-ok x id reason s e in
      rw d.holds (with_status-Evolves id (released_status reason) h s.holds d.found d.was_active)

  release_all-Evolves :
      (ids : List Uuid) (n m : ℕ) (s t : Store)
      → release_all x ids n s ≡ ok (m, t)
      → Evolves s.holds t.holds
  unfolding release_all
  release_all-Evolves [] n m s t e =
      let same : s ≡ t = ground arith in rw same (Evolves-refl t.holds)
  release_all-Evolves (id ∷ ids) n m s t e =
      let (u, mid, done, rest) =
        >>=-eq-ok (release x id "expiry") (λ _. release_all x ids (n + 1)) s e in
      Evolves-trans s.holds mid.holds t.holds (release-Evolves id "expiry" s mid done)
        (release_all-Evolves ids (n + 1) m mid t rest)

  release_by_payment-Evolves :
      (payment : Uuid) (reason : String) (r : Bool) (s t : Store)
      → release_by_payment x payment reason s ≡ ok (r, t)
      → Evolves s.holds t.holds
  unfolding release_by_payment
  release_by_payment-Evolves payment reason r s t e =
      elim (Option-cases (active_hold_of payment s.holds)) [
        | inl nothing ↦ let same : s ≡ t = ground arith in rw same (Evolves-refl t.holds)
        | inr (id, found) ↦ elim (Result-cases (release x id reason s)) [
          | inl ((u, t'), done) ↦
              let same : t' ≡ t = ground arith in rw (← same) (release-Evolves id reason s t' done)
          | inr (f, failed) ↦ absurd (ground arith)
        ]
      ]

  Step-Evolves : (s t : Store) → Step x s t → Evolves s.holds t.holds
  unfolding sweep
  Step-Evolves s t (held account payment amount currency ttl r normal e) =
      let (b, a, d) = hold-eq-ok x account payment amount currency ttl s e in
      rw d.holds (
        insert-Evolves _ s.holds
          ((hold_error-none (x.fresh s.drawn) account payment amount s d.inserts).1))
  Step-Evolves s t (captured id amount txn e) =
      let (h, p, d) = capture-eq-ok x id amount s e in
      rw d.holds (with_status-Evolves id _ h s.holds d.found d.was_active)
  Step-Evolves s t (released id reason e) = release-Evolves id reason s t e
  Step-Evolves s t (compensated payment reason r e) =
      release_by_payment-Evolves payment reason r s t e
  Step-Evolves s t (deposited account amount currency key normal e) =
      let (f, d) = deposit-eq-ok x account amount currency key s e in
      rw d.holds (Evolves-refl s.holds)
  Step-Evolves s t (swept locked n e) = release_all-Evolves _ 0 n s t e
  Step-Evolves s t (provisioned seed user e) =
      rw (holds-provision x seed user s e) (Evolves-refl s.holds)
  Step-Evolves s t (elsewhere m) = rw m.holds (Evolves-refl s.holds)

  -- A hold never disappears, its account, payment, amount, currency and expiry never change, and
  -- its status changes only while it is active.
  pub Reach-Evolves :
      (s t : Store) (id : Uuid) (h : HoldRecord)
      → Reach x s t
      → find_hold id s.holds ≡ some h
      → (h' : HoldRecord) × (find_hold id t.holds ≡ some h') × Later h h'
  Reach-Evolves s t id h here e = Evolves-refl s.holds id h e
  Reach-Evolves s t id h (next {t = mid} r st) e =
      let (h₁, e₁, l₁) = Reach-Evolves s mid id h r e in
      let (h₂, e₂, l₂) = Step-Evolves mid t st id h₁ e₁ in
      (h₂, e₂, ground (arith, l₁.same, l₁.status, l₂.same, l₂.status))
