-- ===== src/Grpc/Errors.antt =====
-- internal/grpcapi/server.go: what an error of a handler leaves behind.
use mathlib.Core.Path.{sym}
use peikonpurekkusu_account.Prelude.{
  if◌then◌else◌, none, some, true, false, Bool, ℕ, ◌≡◌, arith, ◌≤◌, sym, Option, str_eq, ◌∙◌,
}
use peikonpurekkusu_account.Schema.{Runtime, Store, Uuid}
use peikonpurekkusu_account.Ledger.Retry.{Database, in_tx}
use peikonpurekkusu_account.Ledger.Retry.Atomic.{seen_by, Settled, in_tx-Settled}
use peikonpurekkusu_account.Tx.{Tx, Result}
use peikonpurekkusu_account.Grpc.{
  Code, Reply, release_funds, ℕ, hold_funds, Codec, to_reply, capture_funds, CaptureFundsResponse,
  in_tx, status_error, ReleaseFundsResponse, HoldFundsResponse, CaptureFundsRequest,
  ReleaseFundsRequest, Result, ℤ, HoldFundsRequest, Option, Money, str_eq, hold_guarded, Uuid,
  invalid_argument, capture_guarded, release_parsed, some, hold_parsed, capture_parsed, idempotent,
  capture_action, hold_action, release_action, choose_ttl, ok, err,
}
use peikonpurekkusu_account.Prelude.Int.{ℤ}

-- The store is what the other transactions have made of it in at most five attempts.
abbrev pub Unaffected : Database → Store → Store → Type 0
Unaffected d s t = (n : ℕ) × (n ≤ 5) × (t ≡ seen_by d n 0 s)

Unaffected-same : (d : Database) (s t : Store) → s ≡ t → Unaffected d s t
unfolding seen_by
Unaffected-same d s t e = (0, omega arith, sym e)

reply-Unaffected :
    {R : Type 0} (d : Database) (body : Tx R) (s t : Store) (c : Code)
    → to_reply (in_tx d body s) ≡ (status_error c, t)
    → Unaffected d s t
reply-Unaffected {R} d body s t c = go (in_tx d body s) (in_tx-Settled d body s)
  where
    go :
        (q : Result R × Store)
        → Settled d body 5 0 s q
        → to_reply q ≡ (status_error c, t)
        → Unaffected d s t
    go (ok r, u) settled e = absurd (ground (arith, e))
    go (err x, u) settled e =
        let same : u ≡ t = ground (arith, e) in
        (settled.attempts, settled.bound, sym same ∙ settled.untouched)

guard-Unaffected :
    {R : Type 0} (b : Bool) (d : Database) (e c : Code) (s t : Store) (q : Reply R × Store)
    → (q ≡ (status_error c, t) → Unaffected d s t)
    → (if b then (status_error e, s) else q) ≡ (status_error c, t)
    → Unaffected d s t
guard-Unaffected true d e c s t q f h = Unaffected-same d s t (ground (arith, h))
guard-Unaffected false d e c s t q f h = f h

module _ (x : Runtime) (d : Database) (s t : Store) (code : Code) where
  hold_parsed-Unaffected :
      (c : Codec HoldFundsResponse) (ttl : ℤ) (req : HoldFundsRequest) (amount : Money)
      (account payment : Option Uuid)
      → hold_parsed x d c ttl req amount account payment s ≡ (status_error code, t)
      → Unaffected d s t
  hold_parsed-Unaffected c ttl req amount none payment e = Unaffected-same d s t (ground (arith, e))
  hold_parsed-Unaffected c ttl req amount (some account) none e =
      Unaffected-same d s t (ground (arith, e))
  hold_parsed-Unaffected c ttl req amount (some account) (some payment) e =
      reply-Unaffected d
        (idempotent c req.request_id "HoldFunds"
          (hold_action x d account payment amount (choose_ttl ttl req.expires_in_seconds)))
        s t code e

  hold_guarded-Unaffected :
      (c : Codec HoldFundsResponse) (ttl : ℤ) (req : HoldFundsRequest) (amount : Option Money)
      → hold_guarded x d c ttl req amount s ≡ (status_error code, t)
      → Unaffected d s t
  hold_guarded-Unaffected c ttl req none e = Unaffected-same d s t (ground (arith, e))
  hold_guarded-Unaffected c ttl req (some amount) e =
      let account = x.uuid_parse req.account_id in
      let payment = x.uuid_parse req.payment_id in
      guard-Unaffected (str_eq req.request_id "") d invalid_argument code s t
        (hold_parsed x d c ttl req amount account payment s)
        (hold_parsed-Unaffected c ttl req amount account payment) e

  -- A HoldFunds that is answered with an error has no effect: the store is what the other
  -- transactions have made of it.
  pub hold_funds-Unaffected :
      (c : Codec HoldFundsResponse) (ttl : ℤ) (req : HoldFundsRequest)
      → hold_funds x d c ttl req s ≡ (status_error code, t)
      → Unaffected d s t
  unfolding hold_funds
  hold_funds-Unaffected c ttl req e = hold_guarded-Unaffected c ttl req req.amount e

  capture_parsed-Unaffected :
      (c : Codec CaptureFundsResponse) (req : CaptureFundsRequest) (amount : Money)
      (hold : Option Uuid)
      → capture_parsed x d c req amount hold s ≡ (status_error code, t)
      → Unaffected d s t
  capture_parsed-Unaffected c req amount none e = Unaffected-same d s t (ground (arith, e))
  capture_parsed-Unaffected c req amount (some hold) e =
      reply-Unaffected d
        (idempotent c req.request_id "CaptureFunds" (capture_action x d hold amount.minor_units)) s
        t code e

  capture_guarded-Unaffected :
      (c : Codec CaptureFundsResponse) (req : CaptureFundsRequest) (amount : Option Money)
      → capture_guarded x d c req amount s ≡ (status_error code, t)
      → Unaffected d s t
  capture_guarded-Unaffected c req none e = Unaffected-same d s t (ground (arith, e))
  capture_guarded-Unaffected c req (some amount) e =
      let hold = x.uuid_parse req.hold_id in
      guard-Unaffected (str_eq req.request_id "") d invalid_argument code s t
        (capture_parsed x d c req amount hold s) (capture_parsed-Unaffected c req amount hold) e

  -- A CaptureFunds that is answered with an error has no effect: the store is what the other
  -- transactions have made of it.
  pub capture_funds-Unaffected :
      (c : Codec CaptureFundsResponse) (req : CaptureFundsRequest)
      → capture_funds x d c req s ≡ (status_error code, t)
      → Unaffected d s t
  unfolding capture_funds
  capture_funds-Unaffected c req e = capture_guarded-Unaffected c req req.amount e

  release_parsed-Unaffected :
      (c : Codec ReleaseFundsResponse) (req : ReleaseFundsRequest) (hold : Option Uuid)
      → release_parsed x d c req hold s ≡ (status_error code, t)
      → Unaffected d s t
  release_parsed-Unaffected c req none e = Unaffected-same d s t (ground (arith, e))
  release_parsed-Unaffected c req (some hold) e =
      reply-Unaffected d
        (idempotent c req.request_id "ReleaseFunds" (release_action x d hold req.reason)) s t code e

  -- A ReleaseFunds that is answered with an error has no effect: the store is what the other
  -- transactions have made of it.
  pub release_funds-Unaffected :
      (c : Codec ReleaseFundsResponse) (req : ReleaseFundsRequest)
      → release_funds x d c req s ≡ (status_error code, t)
      → Unaffected d s t
  unfolding release_funds
  release_funds-Unaffected c req e =
      let hold = x.uuid_parse req.hold_id in
      guard-Unaffected (str_eq req.request_id "") d invalid_argument code s t
        (release_parsed x d c req hold s) (release_parsed-Unaffected c req hold) e
