-- ===== src/Service/Migrated.antt =====
-- The service on a database that has just been migrated.
use peikonpurekkusu_account.Prelude.{refl, ◌≡◌, true, false, List, String, arith, leb, ◌&&◌}
use peikonpurekkusu_account.Service.{Parts, Action, State, run_service}
use peikonpurekkusu_account.Schema.{Time, Uuid}
use peikonpurekkusu_account.Migrations.{migrated}
use peikonpurekkusu_account.Sql.Journal.{find_account}
use peikonpurekkusu_account.Prelude.Lists.{All}
use peikonpurekkusu_account.Service.Refines.{IsProper, run_service-Reach, Reach-same}
use peikonpurekkusu_account.Ledger.History.{IsCreditNormal, here, Reach-reconcile}
use peikonpurekkusu_account.Ledger.Reconcile.Exact.{RowsInRange}
use peikonpurekkusu_account.Ledger.Reconcile.{reconcile}
use peikonpurekkusu_account.Ledger.History.AppendOnly.{volume, Reach-Appends, Appends-empty}
use peikonpurekkusu_account.Migrations.Books.{migrated-IsConsistent}
use peikonpurekkusu_account.Sql.Fetch.{Fetch, breaks}

module _ {Doc Schema : Type 0} (p : Parts Doc Schema) (now : Time) where
  -- Only the four settlement accounts of the migration are debit-normal.
  pub user-IsCreditNormal :
      (c : Uuid) → (leb 0xc001 c && leb c 0xc004) ≡ false → IsCreditNormal c (migrated now)
  unfolding migrated find_account
  user-IsCreditNormal c other a e = ground arith

  -- Whatever is asked of a service that starts on a freshly migrated database, if no HoldFunds
  -- names a debit-normal account of the migration and the other transactions are the service's own:
  -- the debits and credits of the whole journal agree in every currency, and a reconciliation whose
  -- sums fit an int64 reports no drift, whatever comes of its query, and an error exactly if the
  -- query is refused or breaks.
  pub run_service-migrated :
      (f : Fetch) (actions : List Action) (st : State p)
      → st.world.state ≡ migrated now
      → All (IsProper p (migrated now)) actions
      → RowsInRange
          (run_service p actions st).world.state
          (run_service p actions st).world.state.accounts
      → (reconcile f (run_service p actions st).world.state
          ≡ record { drifted = 0; failed = breaks f })
        × ((currency : String)
            → volume true currency (run_service p actions st).world.state.entries
              ≡ volume false currency (run_service p actions st).world.state.entries)
  unfolding migrated
  run_service-migrated f actions st e proper range =
      let end = (run_service p actions st).world.state in
      let r =
        run_service-Reach p (migrated now) actions st proper
          (Reach-same p.runtime (migrated now) (migrated now) st.world.state e here) in
      (
        Reach-reconcile p.runtime f (migrated now) end (migrated-IsConsistent now) r range,
        Appends-empty (migrated now) end refl (Reach-Appends p.runtime (migrated now) end r),
      )
