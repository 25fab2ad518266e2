-- ===== src/Ledger/History/Closed.antt =====
-- A hold that was captured or released, at any later time.
use peikonpurekkusu_account.Prelude.{◌≡◌, ◌⊎◌, inl, inr, false, some, arith, String, refl}
use peikonpurekkusu_account.Prelude.Int.{ℤ}
use peikonpurekkusu_account.Schema.{Uuid, HoldRecord, HoldStatus, Store, Runtime}
use peikonpurekkusu_account.Tx.{ok, err, hold_not_active}
use peikonpurekkusu_account.Sql.Holds.{find_hold, is_active, lock_hold}
use peikonpurekkusu_account.Sql.Holds.Laws.{find_hold-with_status}
use peikonpurekkusu_account.Ledger.Operations.{capture, release, released_status}
use peikonpurekkusu_account.Ledger.Effects.{capture-eq-ok, release-eq-ok}
use peikonpurekkusu_account.Ledger.History.{Reach}
use peikonpurekkusu_account.Ledger.History.Lifecycle.{Reach-Evolves}

module _ (x : Runtime) (id : Uuid) where
  -- The hold is captured, or released, from one store to the next.
  abbrev pub Settles : Store → Store → Type 0
  Settles s t =
      ((amount : ℤ) × (txn : Uuid) × (capture x id amount s ≡ ok (txn, t)))
      ⊎ ((reason : String) × (release x id reason s ≡ ok (tt, t)))

  abbrev IsClosed : Store → Type 0
  IsClosed s = (h : HoldRecord) × (find_hold id s.holds ≡ some h) × (is_active h.status ≡ false)

  released_status-closed : (reason : String) → is_active (released_status reason) ≡ false
  released_status-closed reason = ground arith

  Settles-IsClosed : (s t : Store) → Settles s t → IsClosed t
  Settles-IsClosed s t (inl (amount, txn, e)) =
      let (h, p, d) = capture-eq-ok x id amount s e in
      (
        record h { status = HoldStatus.captured },
        rw d.holds
            (ground (arith, d.found, find_hold-with_status id HoldStatus.captured id s.holds)),
        refl,
      )
  Settles-IsClosed s t (inr (reason, e)) =
      let (h, d) = release-eq-ok x id reason s e in
      (
        record h { status = released_status reason },
        rw d.holds
            (ground (arith, d.found, find_hold-with_status id (released_status reason) id s.holds)),
        released_status-closed reason,
      )

  refused_when_closed :
      (s : Store) (amount : ℤ) (reason : String)
      → IsClosed s
      → (capture x id amount s ≡ err hold_not_active)
        × (release x id reason s ≡ err hold_not_active)
  unfolding capture release lock_hold
  refused_when_closed s amount reason (h, found, closed) = (ground arith, ground arith)

  -- Once a hold was captured or released, no capture of any amount and no release for any reason
  -- succeeds at any later time: after any further sequence of holds, captures, releases,
  -- compensations, deposits, sweeps, provisionings and changes outside the money tables they fail
  -- with the error that the hold is not active.
  pub Reach-refused :
      (s t u : Store)
      → Settles s t
      → Reach x t u
      → (amount : ℤ) (reason : String)
      → (capture x id amount u ≡ err hold_not_active)
        × (release x id reason u ≡ err hold_not_active)
  Reach-refused s t u settled r amount reason =
      let (h, found, closed) = Settles-IsClosed s t settled in
      let (h', found', later) = Reach-Evolves x t u id h r found in
      refused_when_closed u amount reason (h', found', ground (arith, later.status, closed))
