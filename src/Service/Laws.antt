-- ===== src/Service/Laws.antt =====
-- What is asked of a predicate on the store for every action of the service to keep it.
use peikonpurekkusu_account.Prelude.{ℕ, ◌≡◌, String, List, Bool, none, ◌∷◌}
use peikonpurekkusu_account.Schema.{Store, Uuid, OutboxRow, Runtime, StoredResponse}
use peikonpurekkusu_account.Tx.{Tx, ok}
use peikonpurekkusu_account.Ledger.Retry.{Database, in_tx}
use peikonpurekkusu_account.Grpc.{find_response}
use peikonpurekkusu_account.Prelude.Int.{ℤ}
use peikonpurekkusu_account.Ledger.Retry.Atomic.{in_tx-preserves}
use peikonpurekkusu_account.Consumer.Handlers.{provision}
use peikonpurekkusu_account.Ledger.Operations.{sweep, hold, release, release_by_payment, capture}

module _ (P : Store → Type 0) where
  -- Where the predicate holds, a body that succeeds leaves it true.
  abbrev pub Continues : {A : Type 0} → Tx A → Type 0
  Continues {A} body = (s t : Store) (a : A) → P s → body s ≡ ok (a, t) → P t

  -- The other transactions of a database keep the predicate.
  abbrev pub IsOwn : Database → Type 0
  IsOwn d = (k : ℕ) (s : Store) → P s → P (d.others k s)

  pub in_tx-Continues :
      {A : Type 0} (d : Database) (body : Tx A) (s : Store)
      → IsOwn d
      → Continues body
      → P s
      → P (in_tx d body s).1
  in_tx-Continues d body s own goes r =
      in_tx-preserves d body {P = P} (λ k t q. own k t q) (λ t u a q e. goes t u a q e) s r

-- Each step of the ledger and each row of the other tables keeps the predicate; `Free` says on
-- which accounts holds may be.
pub record Laws (x : Runtime) (P : Store → Type 0) (Free : Uuid → Type 0) : Type 0 where
  pub hold_kept :
      (account payment : Uuid) (amount : ℤ) (currency : String) (ttl : ℤ)
      → Free account
      → Continues P (hold x account payment amount currency ttl)
  pub capture_kept : (id : Uuid) (amount : ℤ) → Continues P (capture x id amount)
  pub release_kept : (id : Uuid) (reason : String) → Continues P (release x id reason)
  pub compensation_kept :
      (payment : Uuid) (reason : String) → Continues P (release_by_payment x payment reason)
  pub provision_kept : (seed : ℤ) (user : Uuid) → Continues P (provision x seed user)
  pub sweep_kept : (locked : Uuid → Bool) → Continues P (sweep x locked)
  pub response_kept :
      (s : Store) (row : StoredResponse)
      → find_response row.request_id s.idempotency ≡ none
      → P s
      → P (record s { idempotency = row ∷ s.idempotency })
  pub event_kept :
      (s : Store) (id : Uuid) → P s → P (record s { processed_events = id ∷ s.processed_events })
  pub outbox_kept : (s : Store) (outbox : List OutboxRow) → P s → P (record s { outbox = outbox })
  pub time_kept : (s : Store) (now : ℕ) → P s → P (record s { clock = now })
