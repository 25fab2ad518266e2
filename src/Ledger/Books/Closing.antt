-- ===== src/Ledger/Books/Closing.antt =====
-- The release by payment and the sweep keep the books consistent.
use mathlib.Core.Path.{subst}
use peikonpurekkusu_account.Prelude.{
  ℕ, ◌+◌, ◌≡◌, String, Bool, List, [], ◌∷◌, arith, Option-cases, inl, inr,
}
use peikonpurekkusu_account.Schema.{Uuid, Store, Runtime}
use peikonpurekkusu_account.Tx.{ok, Result-cases, >>=-eq-ok}
use peikonpurekkusu_account.Sql.Holds.{active_hold_of}
use peikonpurekkusu_account.Ledger.Operations.{release, release_by_payment, release_all, sweep}
use peikonpurekkusu_account.Ledger.Books.{IsConsistent}
use peikonpurekkusu_account.Ledger.Books.Preserve.{release-IsConsistent}

module _ (x : Runtime) where
  -- The release of a payment's hold keeps the books consistent.
  pub release_by_payment-IsConsistent :
      (payment : Uuid) (reason : String) (s : Store) {r : Bool} {t : Store}
      → IsConsistent s
      → release_by_payment x payment reason s ≡ ok (r, t)
      → IsConsistent t
  unfolding release_by_payment
  release_by_payment-IsConsistent payment reason s {t} books e =
      elim (Option-cases (active_hold_of payment s.holds)) [
        | inl nothing ↦ let same : s ≡ t = ground arith in subst IsConsistent same books
        | inr (id, found) ↦ elim (Result-cases (release x id reason s)) [
          | inl ((u, t'), done) ↦
              let same : t' ≡ t = ground arith in
              subst IsConsistent same (release-IsConsistent x id reason s {t = t'} books done)
          | inr (f, failed) ↦ absurd (ground arith)
        ]
      ]

  release_all-IsConsistent :
      (ids : List Uuid) (n : ℕ) (s : Store) {r : ℕ} {t : Store}
      → IsConsistent s
      → release_all x ids n s ≡ ok (r, t)
      → IsConsistent t
  unfolding release_all
  release_all-IsConsistent [] n s {t} books e =
      let same : s ≡ t = ground arith in subst IsConsistent same books
  release_all-IsConsistent (id ∷ ids) n s books e =
      let (u, mid, done, rest) =
        >>=-eq-ok (release x id "expiry") (λ _. release_all x ids (n + 1)) s e in
      release_all-IsConsistent ids (n + 1) mid (release-IsConsistent x id "expiry" s books done)
        rest

  -- The sweep of the expired holds keeps the books consistent.
  pub sweep-IsConsistent :
      (locked : Uuid → Bool) (s : Store) {n : ℕ} {t : Store}
      → IsConsistent s
      → sweep x locked s ≡ ok (n, t)
      → IsConsistent t
  unfolding sweep
  sweep-IsConsistent locked s books e = release_all-IsConsistent _ 0 s books e
