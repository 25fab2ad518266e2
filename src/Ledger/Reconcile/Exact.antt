-- ===== src/Ledger/Reconcile/Exact.antt =====
-- The reconciliation against a count in natural numbers of the accounts that disagree.
use peikonpurekkusu_account.Prelude.{
  ℕ, suc, ◌+◌, ◌≡◌, Bool, false, not, none, some, List, [], ◌∷◌, arith, inl, inr, Option-cases, leb,
  true, ◌&&◌, map, refl, ap, zero,
}
use peikonpurekkusu_account.Prelude.Lists.{All, take}
use peikonpurekkusu_account.Prelude.Word.{max_int64}
use peikonpurekkusu_account.Schema.{
  Account, Balance, Store, credit, Direction, AccountType, Uuid, HoldStatus, HoldRecord,
  LedgerEntry, debit,
}
use peikonpurekkusu_account.Sql.Balances.{find_balance}
use peikonpurekkusu_account.Ledger.Reconcile.{
  Row, is_debit_normal, query_row, reconcile_rows, reconcile, query_rows, debits, active_held,
  credits, is_debit,
}
use peikonpurekkusu_account.Sql.Fetch.{Fetch, broken_after, refused, whole}
use peikonpurekkusu_account.Sql.Holds.{is_active}
use peikonpurekkusu_account.Ledger.Reconcile.Drift.{InRange, disagrees, drifts-eq-disagrees}
use peikonpurekkusu_account.Ledger.Reconcile.Expected.{
  tally, same_side, posted, reserves, reserved, grows_by_debits, is_off, audited, off_count,
  expected_report,
}

abbrev pub RowsInRange : Store → List Account → Type 0
RowsInRange s =
    All (λ a. (b : Balance) → find_balance a.id s.balances ≡ some b → InRange (query_row s a b))

is_debit-same_side : (d : Direction) → is_debit d ≡ same_side debit d
is_debit-same_side debit = refl
is_debit-same_side credit = refl

not-same_side : (d : Direction) → not (is_debit d) ≡ same_side credit d
not-same_side debit = refl
not-same_side credit = refl

is_active-reserves : (h : HoldStatus) → is_active h ≡ reserves h
is_active-reserves HoldStatus.active = refl
is_active-reserves HoldStatus.captured = refl
is_active-reserves HoldStatus.released = refl
is_active-reserves HoldStatus.expired = refl

is_debit_normal-grows : (t : AccountType) → is_debit_normal t ≡ grows_by_debits t
is_debit_normal-grows AccountType.asset = refl
is_debit_normal-grows AccountType.expense = refl
is_debit_normal-grows AccountType.liability = refl
is_debit_normal-grows AccountType.revenue = refl
is_debit_normal-grows AccountType.equity = refl

debits-posted :
    (id : Uuid) (entries : List LedgerEntry) → debits id entries ≡ posted debit id entries
unfolding debits tally
debits-posted id [] = refl
debits-posted id (e ∷ rest) = rw (is_debit-same_side e.direction, debits-posted id rest) refl

credits-posted :
    (id : Uuid) (entries : List LedgerEntry) → credits id entries ≡ posted credit id entries
unfolding credits tally
credits-posted id [] = refl
credits-posted id (e ∷ rest) = rw (not-same_side e.direction, credits-posted id rest) refl

active_held-reserved :
    (id : Uuid) (holds : List HoldRecord) → active_held id holds ≡ reserved id holds
unfolding active_held tally
active_held-reserved id [] = refl
active_held-reserved id (h ∷ rest) =
    rw (is_active-reserves h.status, active_held-reserved id rest) refl

module _ (s : Store) where
  -- The code's row of an account disagrees exactly if the account is off.
  pub disagrees-is_off : (a : Account) (b : Balance) → disagrees (query_row s a b) ≡ is_off s (a, b)
  unfolding disagrees query_row
  disagrees-is_off a b =
      rw
        (
          debits-posted a.id s.entries,
          credits-posted a.id s.entries,
          active_held-reserved a.id s.holds,
          is_debit_normal-grows a.type,
        )
        refl

  abbrev row_of : Account × Balance → Row
  row_of (a, b) = query_row s a b

  query_rows-audited :
      (accounts : List Account) → query_rows s accounts ≡ map row_of (audited s accounts)
  unfolding query_rows audited
  query_rows-audited [] = refl
  query_rows-audited (a ∷ rest) = elim (Option-cases (find_balance a.id s.balances)) [
    | inl absent ↦ ground (arith, absent, query_rows-audited rest)
    | inr (b, found) ↦ ground (arith, found, query_rows-audited rest)
  ]

  audited-InRange :
      (accounts : List Account)
      → RowsInRange s accounts
      → All (λ r. InRange (row_of r)) (audited s accounts)
  unfolding audited
  audited-InRange [] range = tt
  audited-InRange (a ∷ rest) range = elim (Option-cases (find_balance a.id s.balances)) [
    | inl absent ↦ rw (absent, audited) (audited-InRange rest range.1)
    | inr (b, found) ↦ rw (found, audited) (range.0 b found, audited-InRange rest range.1)
  ]

  reconcile_rows-off_count :
      (broken : Bool) (rows : List (Account × Balance)) (n : ℕ)
      → All (λ r. InRange (row_of r)) rows
      → reconcile_rows broken (map row_of rows) n
        ≡ record { drifted = n + off_count s rows; failed = broken }
  unfolding reconcile_rows tally
  reconcile_rows-off_count broken [] n range = ground arith
  reconcile_rows-off_count broken ((a, b) ∷ rest) n range = ground (
    arith,
    range.0,
    drifts-eq-disagrees (query_row s a b) range.0,
    disagrees-is_off a b,
    reconcile_rows-off_count broken rest n range.1,
    reconcile_rows-off_count broken rest (suc n) range.1,
  )

  counted :
      (broken : Bool) (rows : List (Account × Balance))
      → All (λ r. InRange (row_of r)) rows
      → reconcile_rows broken (map row_of rows) 0
        ≡ record { drifted = off_count s rows; failed = broken }
  counted broken rows range = ground (arith, reconcile_rows-off_count broken rows 0 range)

take-map : {A B : Type 0} (f : A → B) (n : ℕ) (xs : List A) → take n (map f xs) ≡ map f (take n xs)
take-map f zero xs = refl
take-map f (suc n) [] = refl
take-map f (suc n) (x ∷ xs) = ap (λ l. f x ∷ l) (take-map f n xs)

pub All-take : {A : Type 0} (P : A → Type 0) (n : ℕ) (xs : List A) → All P xs → All P (take n xs)
All-take P zero xs each = tt
All-take P (suc n) [] each = tt
All-take P (suc n) (x ∷ xs) each = (each.0, All-take P n xs each.1)

-- Where the sums of every row are small enough for int64, a reconciliation reports exactly the
-- number of accounts, among those whose rows the query gives, whose balance is not what the journal
-- and the active holds say; and an error exactly if the query is refused or breaks.
pub reconcile-count :
    (f : Fetch) (s : Store) → RowsInRange s s.accounts → reconcile f s ≡ expected_report f s
unfolding reconcile
reconcile-count refused s range = refl
reconcile-count whole s range =
    rw (query_rows-audited s s.accounts)
      (counted s false (audited s s.accounts) (audited-InRange s s.accounts range))
reconcile-count (broken_after n) s range =
    rw (query_rows-audited s s.accounts, take-map (row_of s) n (audited s s.accounts))
      (counted s true (take n (audited s s.accounts))
        (All-take _ n (audited s s.accounts) (audited-InRange s s.accounts range)))

-- The same, to be evaluated on a store.
abbrev in_range : Row → Bool
in_range r =
    leb (r.debits + r.active_held) max_int64
    && (leb r.credits max_int64 && leb r.available max_int64)

unfoldable pub rows_in_range : Store → List Account → Bool
rows_in_range s [] = true
rows_in_range s (a ∷ rest) =
    let later = rows_in_range s rest in
    elim (find_balance a.id s.balances) [
      | none ↦ later
      | some b ↦ in_range (query_row s a b) && later
    ]

in_range-InRange : (r : Row) → in_range r ≡ true → InRange r
in_range-InRange r e = ground arith

pub rows_in_range-RowsInRange :
    (s : Store) (accounts : List Account) → rows_in_range s accounts ≡ true → RowsInRange s accounts
unfolding rows_in_range
rows_in_range-RowsInRange s [] e = tt
rows_in_range-RowsInRange s (a ∷ rest) e = (
  λ b f. in_range-InRange (query_row s a b) (ground (arith, e, f)),
  rows_in_range-RowsInRange s rest (elim (Option-cases (find_balance a.id s.balances)) [
    | inl absent ↦ ground (arith, e, absent)
    | inr (b, found) ↦ ground (arith, e, found)
  ]),
)
