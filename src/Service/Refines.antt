-- ===== src/Service/Refines.antt =====
-- The service, whatever it is asked to do, is a history of the ledger.
use peikonpurekkusu_account.Service.Actions
use peikonpurekkusu_account.Prelude.{List, ◌≡◌, sym, ℕ, refl, ◌∷◌}
use peikonpurekkusu_account.Service.{Parts, Action, State, run_service}
use peikonpurekkusu_account.Schema.{Store, Runtime, StoredResponse, OutboxRow, Uuid}
use peikonpurekkusu_account.Service.Laws.{Laws}
use peikonpurekkusu_account.Ledger.History.{
  Reach, IsCreditNormal, next, swept, held, captured, released, compensated, elsewhere, provisioned,
}
use peikonpurekkusu_account.Prelude.Lists.{All}
use peikonpurekkusu_account.Service.Actions.{run_service_kept}
use peikonpurekkusu_account.Ledger.History.Accounts.{Reach-IsCreditNormal}
use mathlib.Core.Path.{subst}

module _ (x : Runtime) (start : Store) where
  pub Reach-same : (s t : Store) → t ≡ s → Reach x start s → Reach x start t
  Reach-same s t same r = subst (Reach x start) (sym same) r

  -- What the money tables do not hold may be anything.
  Reach-beside :
      (s : Store) (idempotency : List StoredResponse) (outbox : List OutboxRow)
      (processed_events : List Uuid) (clock drawn : ℕ)
      → Reach x start s
      → Reach x start (record s {
        idempotency = idempotency;
        outbox = outbox;
        processed_events = processed_events;
        clock = clock;
        drawn = drawn;
      })
  Reach-beside s idempotency outbox processed_events clock drawn r = next r (
      elsewhere (record {
        accounts = refl;
        transactions = refl;
        entries = refl;
        balances = refl;
        holds = refl;
      }))

  history_laws : Laws x (Reach x start) (λ account. IsCreditNormal account start)
  history_laws = record {
    hold_kept = λ account payment amount currency ttl normal s t r q e. next q (
        held account payment amount currency ttl r (Reach-IsCreditNormal x account start s q normal)
          e);
    capture_kept = λ id amount s t txn q e. next q (captured id amount txn e);
    release_kept = λ id reason s t u q e. next q (released id reason e);
    compensation_kept = λ payment reason s t r q e. next q (compensated payment reason r e);
    provision_kept = λ seed user s t u q e. next q (provisioned seed user e);
    sweep_kept = λ locked s t n q e. next q (swept locked n e);
    response_kept = λ s row fresh q. Reach-beside s (row ∷ s.idempotency) _ _ _ _ q;
    event_kept = λ s id q. Reach-beside s _ _ (id ∷ s.processed_events) _ _ q;
    outbox_kept = λ s outbox q. Reach-beside s _ outbox _ _ _ q;
    time_kept = λ s now q. Reach-beside s _ _ _ now _ q;
  }

module _ {Doc Schema : Type 0} (p : Parts Doc Schema) (start : Store) where
  -- What is asked of an action: the other transactions are steps of the ledger, and a hold is not
  -- on a debit-normal account of the start.
  abbrev pub IsProper : Action → Type 0
  IsProper = Actions.IsProper p (Reach p.runtime start) (λ account. IsCreditNormal account start)

  -- Whatever calls, records, rounds and pauses come, in any order and with any interleaving of the
  -- service's own transactions: the store of the service is reached from the first by the steps of
  -- the ledger, if no HoldFunds names an account that was debit-normal at the start.
  pub run_service-Reach :
      (actions : List Action) (st : State p)
      → All IsProper actions
      → Reach p.runtime start st.world.state
      → Reach p.runtime start (run_service p actions st).world.state
  run_service-Reach actions st proper r =
      run_service_kept p (Reach p.runtime start) (λ account. IsCreditNormal account start)
        (history_laws p.runtime start) actions st proper r
