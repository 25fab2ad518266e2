-- ===== src/Ledger/Operations/Sweeping.antt =====
-- internal/ledger/operations.go: which holds a sweep closes.
use peikonpurekkusu_account.Prelude.{
  ◌≡◌, refl, true, false, Bool, ℕ, suc, zero, List, [], ◌∷◌, arith, ◌==◌, if◌then◌else◌, some, none,
  Bool-cases, inl, inr, ◌+◌, ◌≤◌, Option, ◌||◌, ◌&&◌, ◌∙◌, ltb, not, ap, sym,
}
use peikonpurekkusu_account.Schema.{Runtime, Uuid, HoldStatus, Time, HoldRecord, Store}
use peikonpurekkusu_account.Ledger.Operations.{release_all, sweep, expired_holds, release}
use peikonpurekkusu_account.Sql.Holds.{is_active, with_status, find_hold, hold_exists}
use peikonpurekkusu_account.Sql.Holds.Laws.{set_found, find_hold-with_status, UniqueIds}
use peikonpurekkusu_account.Tx.{ok, >>=-eq-ok}
use peikonpurekkusu_account.Prelude.Lists.{length}
use peikonpurekkusu_account.Ledger.Effects.{release-eq-ok}
use mathlib.Core.Path.{subst}

-- An active hold that is past its expiry and not locked by another transaction.
abbrev pub is_due : (Uuid → Bool) → Time → HoldRecord → Bool
is_due locked now h = is_active h.status && ltb h.expires_at now && not (locked h.id)

unfoldable pub due_count : (Uuid → Bool) → Time → List HoldRecord → ℕ
due_count locked now [] = 0
due_count locked now (h ∷ rest) = (if is_due locked now h then 1 else 0) + due_count locked now rest

unfoldable listed : Uuid → List Uuid → Bool
listed c [] = false
listed c (id ∷ ids) = c == id || listed c ids

-- The table with the status of some rows set to expired.
unfoldable expire : List Uuid → List HoldRecord → List HoldRecord
expire [] rows = rows
expire (id ∷ ids) rows = expire ids (with_status id HoldStatus.expired rows)

set_found-twice :
    (status : HoldStatus) (h : Option HoldRecord)
    → set_found status (set_found status h) ≡ set_found status h
set_found-twice status none = refl
set_found-twice status (some h) = refl

find_hold-expire :
    (c : Uuid) (ids : List Uuid) (rows : List HoldRecord)
    → find_hold c (expire ids rows)
      ≡ (if listed c ids then set_found HoldStatus.expired (find_hold c rows) else find_hold c rows)
unfolding listed expire
find_hold-expire c [] rows = refl
find_hold-expire c (id ∷ ids) rows = ground (
  arith,
  find_hold-expire c ids (with_status id HoldStatus.expired rows),
  find_hold-with_status id HoldStatus.expired c rows,
  set_found-twice HoldStatus.expired (find_hold c rows),
)

module _ (locked : Uuid → Bool) (now : Time) where
  listed-absent :
      (c : Uuid) (n : ℕ) (rows : List HoldRecord)
      → hold_exists c rows ≡ false
      → listed c (expired_holds locked n now rows) ≡ false
  unfolding listed expired_holds hold_exists
  listed-absent c n [] e = refl
  listed-absent c zero (r ∷ rows) e = refl
  listed-absent c (suc n) (r ∷ rows) e = elim (Bool-cases (is_due locked now r)) [
    | inl due ↦ ground (arith, listed-absent c n rows)
    | inr other ↦ ground (arith, listed-absent c (suc n) rows)
  ]

  due_count-found :
      (c : Uuid) (rows : List HoldRecord) (h : HoldRecord)
      → find_hold c rows ≡ some h
      → is_due locked now h ≡ true
      → 1 ≤ due_count locked now rows
  unfolding find_hold due_count
  due_count-found c [] h e due = absurd (ground (arith, e))
  due_count-found c (r ∷ rows) h e due = elim (Bool-cases (r.id == c)) [
    | inl here ↦ ground (arith, e)
    | inr there ↦ omega (arith, due_count-found c rows h (ground (arith, e)) due)
  ]

  length-expired_holds :
      (n : ℕ) (rows : List HoldRecord)
      → due_count locked now rows ≤ n
      → length (expired_holds locked n now rows) ≡ due_count locked now rows
  unfolding due_count expired_holds
  length-expired_holds n [] few = refl
  length-expired_holds zero (r ∷ rows) few = omega (arith, few)
  length-expired_holds (suc n) (r ∷ rows) few = elim (Bool-cases (is_due locked now r)) [
    | inl due ↦ ground (arith, length-expired_holds n rows)
    | inr other ↦ ground (arith, length-expired_holds (suc n) rows)
  ]

  listed-expired_holds :
      (c : Uuid) (n : ℕ) (rows : List HoldRecord) (h : HoldRecord)
      → UniqueIds rows
      → due_count locked now rows ≤ n
      → find_hold c rows ≡ some h
      → listed c (expired_holds locked n now rows) ≡ is_due locked now h
  unfolding listed expired_holds due_count find_hold
  listed-expired_holds c n [] h unique few e = absurd (ground (arith, e))
  listed-expired_holds c zero (r ∷ rows) h unique few e = elim (Bool-cases (is_due locked now h)) [
    | inl due ↦ absurd (omega (arith, due_count-found c (r ∷ rows) h e due, few))
    | inr other ↦ sym other
  ]
  listed-expired_holds c (suc n) (r ∷ rows) h unique few e = elim (Bool-cases (r.id == c)) [
    | inl here ↦
        let same : r ≡ h = ground arith in
        let at : r.id ≡ c = ground arith in
        elim (Bool-cases (is_due locked now r)) [
          | inl due ↦ ground arith
          | inr other ↦
              let absent : hold_exists c rows ≡ false =
                subst (λ i. hold_exists i rows ≡ false) at unique.0 in
              ground (arith, listed-absent c (suc n) rows)
        ]
    | inr there ↦ elim (Bool-cases (is_due locked now r)) [
      | inl due ↦ ground (arith, listed-expired_holds c n rows h unique.1)
      | inr other ↦ ground (arith, listed-expired_holds c (suc n) rows h unique.1)
    ]
  ]

closed_row :
    (chosen due : Bool) (row : Option HoldRecord) (h : HoldRecord)
    → chosen ≡ due
    → row ≡ some h
    → (if chosen then set_found HoldStatus.expired row else row)
      ≡ some (if due then record h { status = HoldStatus.expired } else h)
closed_row true due row h e f = rw (← e, f) refl
closed_row false due row h e f = rw (← e, f) refl

module _ (x : Runtime) where
  release_all-holds :
      (ids : List Uuid) (n m : ℕ) (s t : Store)
      → release_all x ids n s ≡ ok (m, t)
      → (m ≡ n + length ids) × (t.holds ≡ expire ids s.holds)
  unfolding release_all expire
  release_all-holds [] n m s t e = (ground (arith, e), ground (arith, e))
  release_all-holds (id ∷ ids) n m s t e =
      let (u, mid, done, rest) =
        >>=-eq-ok (release x id "expiry") (λ _. release_all x ids (n + 1)) s e in
      let (h, d) = release-eq-ok x id "expiry" s done in
      let (count, holds) = release_all-holds ids (n + 1) m mid t rest in
      (omega (arith, count), holds ∙ ap (λ rows. expire ids rows) d.holds)

  -- A sweep that succeeds with at most 100 holds due closes exactly these: it reports their number,
  -- and a hold is expired afterwards if it was active, past its expiry and not locked, and as it
  -- was if not. The ids of the holds are distinct.
  pub sweep-due_count :
      (locked : Uuid → Bool) (n : ℕ) (s t : Store) (id : Uuid) (h : HoldRecord)
      → UniqueIds s.holds
      → due_count locked s.clock s.holds ≤ 100
      → sweep x locked s ≡ ok (n, t)
      → find_hold id s.holds ≡ some h
      → (n ≡ due_count locked s.clock s.holds)
        × (find_hold id t.holds
            ≡ some
                (if is_due locked s.clock h then record h { status = HoldStatus.expired } else h))
  unfolding sweep
  sweep-due_count locked n s t id h unique few e found =
      let ids = expired_holds locked 100 s.clock s.holds in
      let (count, holds) = release_all-holds ids 0 n s t e in
      (
        omega (arith, count, length-expired_holds locked s.clock 100 s.holds few),
        ap (λ rows. find_hold id rows) holds
            ∙ find_hold-expire id ids s.holds
            ∙ closed_row (listed id ids) (is_due locked s.clock h) (find_hold id s.holds) h
                (listed-expired_holds locked s.clock id 100 s.holds h unique few found) found,
      )
