-- ===== src/Service/Records.antt =====
-- Stored responses and the record of the events stay, whatever the service does.
use peikonpurekkusu_account.Service.Actions
use peikonpurekkusu_account.Prelude.{
  ℕ, ◌≡◌, List, refl, true, some, String, ◌∷◌, ⊤, Bool, none, Option-cases, arith, eq_iff, inl, ◌+◌,
  ◌∙◌, inr, [], sym, ap,
}
use peikonpurekkusu_account.Schema.{Store, Runtime, Uuid, Bytes, StoredResponse}
use peikonpurekkusu_account.Service.{Parts, Action, State, run_service}
use peikonpurekkusu_account.Consumer.Handlers.{seen, provision, default_currency}
use peikonpurekkusu_account.Ledger.Operations.{release_by_payment, sweep, release_all, release}
use peikonpurekkusu_account.Prelude.Int.{ℤ}
use peikonpurekkusu_account.Grpc.{find_response}
use peikonpurekkusu_account.Tx.{ok, >>=-eq-ok, Result-cases}
use peikonpurekkusu_account.Service.Laws.{Laws}
use peikonpurekkusu_account.Ledger.Effects.{hold-eq-ok, release-eq-ok, capture-eq-ok, deposit-eq-ok}
use peikonpurekkusu_account.Prelude.Lists.{All}
use peikonpurekkusu_account.Consumer.Provision.{provision-eq-ok, with_account}
use peikonpurekkusu_account.Sql.Holds.{active_hold_of}
use peikonpurekkusu_account.Service.Actions.{run_service_kept}
use mathlib.Core.Path.{subst}

-- What the tables grpc_idempotency and processed_events of `s` say is in those of `t`.
pub record Retained (s t : Store) : Type 0 where
  pub responses :
      (request_id : String) (body : Bytes)
      → find_response request_id s.idempotency ≡ some body
      → find_response request_id t.idempotency ≡ some body
  pub events : (id : Uuid) → seen id s.processed_events ≡ true → seen id t.processed_events ≡ true

abbrev SameRecords : Store → Store → Type 0
SameRecords s t = (t.processed_events ≡ s.processed_events) × (t.idempotency ≡ s.idempotency)

abbrev Anywhere : Uuid → Type 0
Anywhere account = Unit

module _ (x : Runtime) where
  provision-SameRecords :
      (seed : ℤ) (user : Uuid) (s t : Store) (u : ⊤)
      → provision x seed user s ≡ ok (u, t)
      → SameRecords s t
  provision-SameRecords seed user s t u e =
      let (new, cases) = provision-eq-ok x seed user s e in
      elim cases [
        | inl (paid, d) ↦
            let (f, done) =
              deposit-eq-ok x (x.fresh s.drawn) seed default_currency _ (with_account x user s) d in
            (done.processed, done.responses)
        | inr (unpaid, same) ↦
            (ap (λ (r : Store). r.processed_events) same, ap (λ (r : Store). r.idempotency) same)
      ]

  release-SameRecords :
      (id : Uuid) (reason : String) (s t : Store) (u : ⊤)
      → release x id reason s ≡ ok (u, t)
      → SameRecords s t
  release-SameRecords id reason s t u e =
      let (h, d) = release-eq-ok x id reason s e in (d.processed, d.responses)

  release_by_payment-SameRecords :
      (payment : Uuid) (reason : String) (s t : Store) (r : Bool)
      → release_by_payment x payment reason s ≡ ok (r, t)
      → SameRecords s t
  unfolding release_by_payment
  release_by_payment-SameRecords payment reason s t r e =
      elim (Option-cases (active_hold_of payment s.holds)) [
        | inl nothing ↦ ground arith
        | inr (id, found) ↦ elim (Result-cases (release x id reason s)) [
          | inl ((u, t'), done) ↦
              let (processed, responses) = release-SameRecords id reason s t' u done in
              ground (arith, processed, responses)
          | inr (f, failed) ↦ absurd (ground arith)
        ]
      ]

  release_all-SameRecords :
      (ids : List Uuid) (n m : ℕ) (s t : Store)
      → release_all x ids n s ≡ ok (m, t)
      → SameRecords s t
  unfolding release_all
  release_all-SameRecords [] n m s t e = ground (arith, e)
  release_all-SameRecords (id ∷ ids) n m s t e =
      let (u, mid, done, rest) =
        >>=-eq-ok (release x id "expiry") (λ _. release_all x ids (n + 1)) s e in
      let (processed, responses) = release-SameRecords id "expiry" s mid u done in
      let (processed', responses') = release_all-SameRecords ids (n + 1) m mid t rest in
      (processed' ∙ processed, responses' ∙ responses)

  module _ (start : Store) where
    same-Retained : (s t : Store) → SameRecords s t → Retained start s → Retained start t
    same-Retained s t (processed, responses) q = record {
      responses = λ request_id body e. rw responses (q.responses request_id body e);
      events = λ id e. rw processed (q.events id e);
    }

    response-Retained :
        (s : Store) (row : StoredResponse)
        → find_response row.request_id s.idempotency ≡ none
        → Retained start s
        → Retained start (record s { idempotency = row ∷ s.idempotency })
    unfolding find_response
    response-Retained s row fresh q = record {
      responses = λ request_id body e.
          ground (arith, q.responses request_id body e, eq_iff row.request_id request_id, fresh);
      events = q.events;
    }

    event-Retained :
        (s : Store) (id : Uuid)
        → Retained start s
        → Retained start (record s { processed_events = id ∷ s.processed_events })
    unfolding seen
    event-Retained s id q = record {
      responses = q.responses;
      events = λ other e. ground (arith, q.events other e);
    }

    records_laws : Laws x (Retained start) Anywhere
    unfolding sweep
    records_laws = record {
      hold_kept = λ account payment amount currency ttl free s t r q e.
          let (b, a, d) = hold-eq-ok x account payment amount currency ttl s e in
          same-Retained s t (d.processed, d.responses) q;
      capture_kept = λ id amount s t txn q e.
          let (h, payable, d) = capture-eq-ok x id amount s e in
          same-Retained s t (d.processed, d.responses) q;
      release_kept =
          λ id reason s t u q e. same-Retained s t (release-SameRecords id reason s t u e) q;
      compensation_kept = λ payment reason s t r q e.
          same-Retained s t (release_by_payment-SameRecords payment reason s t r e) q;
      provision_kept =
          λ seed user s t u q e. same-Retained s t (provision-SameRecords seed user s t u e) q;
      sweep_kept = λ locked s t n q e. same-Retained s t (release_all-SameRecords _ 0 n s t e) q;
      response_kept = response-Retained;
      event_kept = event-Retained;
      outbox_kept = λ s outbox q. same-Retained s _ (refl, refl) q;
      time_kept = λ s now q. same-Retained s _ (refl, refl) q;
    }

module _ {Doc Schema : Type 0} (p : Parts Doc Schema) (start : Store) where
  -- What is asked of an action: the other transactions keep the records.
  abbrev pub IsRetaining : Action → Type 0
  IsRetaining = Actions.IsProper p (Retained start) Anywhere

  pub run_service-Retained :
      (actions : List Action) (st : State p)
      → All IsRetaining actions
      → st.world.state ≡ start
      → Retained start (run_service p actions st).world.state
  run_service-Retained actions st proper e =
      run_service_kept p (Retained start) Anywhere (records_laws p.runtime start) actions st proper
        (subst (Retained start) (sym e)
          (record { responses = λ request_id body f. f; events = λ id f. f }))
