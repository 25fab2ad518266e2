-- ===== src/Grpc/Kept.antt =====
-- internal/grpcapi/server.go: a call that was answered has its response stored.
use peikonpurekkusu_account.Prelude.{
  ◌≡◌, true, false, some, none, arith, Option, Bool, if◌then◌else◌, String, str_eq,
}
use peikonpurekkusu_account.Grpc.Retried.{to_reply-eq-response}
use peikonpurekkusu_account.Schema.{Runtime, Store, Bytes, Uuid}
use peikonpurekkusu_account.Grpc.{
  Codec, Code, CaptureFundsResponse, Reply, ReleaseFundsResponse, HoldFundsResponse, status_error,
  ReleaseFundsRequest, CaptureFundsRequest, find_response, hold_funds, response, Money,
  HoldFundsRequest, to_reply, capture_funds, release_parsed, hold_parsed, capture_guarded,
  hold_guarded, release_funds, capture_parsed, release_action, idempotent, capture_action,
  hold_action, invalid_argument, choose_ttl,
}
use peikonpurekkusu_account.Ledger.Retry.{Database, in_tx}
use peikonpurekkusu_account.Grpc.Calls.{
  answer_call, MoneyCall, MoneyResponse, IsFaithfulCall, request_id_of, hold_call,
  map_reply-response, capture_call, release_call,
}
use peikonpurekkusu_account.Tx.{Tx}
use peikonpurekkusu_account.Prelude.Int.{ℤ}
use peikonpurekkusu_account.Grpc.Replay.{IsFaithful, in_tx-Stored}

-- Some response is stored for the request id.
abbrev pub IsStored : String → Store → Type 0
IsStored request_id t = (body : Bytes) × (find_response request_id t.idempotency ≡ some body)

guarded-response :
    {R : Type 0} (b : Bool) (c : Code) (s : Store) (q : Reply R × Store) {r : R} {t : Store}
    → (if b then (status_error c, s) else q) ≡ (response r, t)
    → q ≡ (response r, t)
guarded-response true c s q e = absurd (ground (arith, e))
guarded-response false c s q e = e

reply-IsStored :
    {R : Type 0} (c : Codec R) (request_id method : String) (d : Database) (act : Tx R)
    (s t : Store) (r : R)
    → IsFaithful c
    → to_reply (in_tx d (idempotent c request_id method act) s) ≡ (response r, t)
    → IsStored request_id t
reply-IsStored c request_id method d act s t r faithful e =
    let h = in_tx-Stored c faithful request_id method d act s t r (to_reply-eq-response _ e) in
    (h.body, h.found)

module _ (x : Runtime) (d : Database) (s t : Store) where
  hold_parsed-IsStored :
      (c : Codec HoldFundsResponse) (ttl : ℤ) (req : HoldFundsRequest) (r : HoldFundsResponse)
      (amount : Money) (account payment : Option Uuid)
      → IsFaithful c
      → hold_parsed x d c ttl req amount account payment s ≡ (response r, t)
      → IsStored req.request_id t
  hold_parsed-IsStored c ttl req r amount none payment f e = absurd (ground (arith, e))
  hold_parsed-IsStored c ttl req r amount (some account) none f e = absurd (ground (arith, e))
  hold_parsed-IsStored c ttl req r amount (some account) (some payment) f e =
      reply-IsStored c req.request_id "HoldFunds" d
        (hold_action x d account payment amount (choose_ttl ttl req.expires_in_seconds)) s t r f e

  hold_guarded-IsStored :
      (c : Codec HoldFundsResponse) (ttl : ℤ) (req : HoldFundsRequest) (r : HoldFundsResponse)
      (amount : Option Money)
      → IsFaithful c
      → hold_guarded x d c ttl req amount s ≡ (response r, t)
      → IsStored req.request_id t
  hold_guarded-IsStored c ttl req r none f e = absurd (ground (arith, e))
  hold_guarded-IsStored c ttl req r (some amount) f e =
      hold_parsed-IsStored c ttl req r amount (x.uuid_parse req.account_id)
        (x.uuid_parse req.payment_id) f
        (guarded-response (str_eq req.request_id "") invalid_argument s _ e)

  capture_parsed-IsStored :
      (c : Codec CaptureFundsResponse) (req : CaptureFundsRequest) (r : CaptureFundsResponse)
      (amount : Money) (hold : Option Uuid)
      → IsFaithful c
      → capture_parsed x d c req amount hold s ≡ (response r, t)
      → IsStored req.request_id t
  capture_parsed-IsStored c req r amount none f e = absurd (ground (arith, e))
  capture_parsed-IsStored c req r amount (some hold) f e =
      reply-IsStored c req.request_id "CaptureFunds" d (capture_action x d hold amount.minor_units)
        s t r f e

  capture_guarded-IsStored :
      (c : Codec CaptureFundsResponse) (req : CaptureFundsRequest) (r : CaptureFundsResponse)
      (amount : Option Money)
      → IsFaithful c
      → capture_guarded x d c req amount s ≡ (response r, t)
      → IsStored req.request_id t
  capture_guarded-IsStored c req r none f e = absurd (ground (arith, e))
  capture_guarded-IsStored c req r (some amount) f e =
      capture_parsed-IsStored c req r amount (x.uuid_parse req.hold_id) f
        (guarded-response (str_eq req.request_id "") invalid_argument s _ e)

  release_parsed-IsStored :
      (c : Codec ReleaseFundsResponse) (req : ReleaseFundsRequest) (r : ReleaseFundsResponse)
      (hold : Option Uuid)
      → IsFaithful c
      → release_parsed x d c req hold s ≡ (response r, t)
      → IsStored req.request_id t
  release_parsed-IsStored c req r none f e = absurd (ground (arith, e))
  release_parsed-IsStored c req r (some hold) f e =
      reply-IsStored c req.request_id "ReleaseFunds" d (release_action x d hold req.reason) s t r f
        e

  -- A call that was answered has its response stored.
  pub answer_call-IsStored :
      (ttl : ℤ) (call : MoneyCall) (a : MoneyResponse)
      → IsFaithfulCall call
      → answer_call x ttl call d s ≡ (response a, t)
      → IsStored (request_id_of call) t
  unfolding answer_call hold_funds capture_funds release_funds
  answer_call-IsStored ttl (hold_call c req) a f e =
      let (r, ran, same) =
        map_reply-response MoneyResponse.held (hold_funds x d c ttl req s) a t e in
      hold_guarded-IsStored c ttl req r req.amount f ran
  answer_call-IsStored ttl (capture_call c req) a f e =
      let (r, ran, same) =
        map_reply-response MoneyResponse.captured (capture_funds x d c req s) a t e in
      capture_guarded-IsStored c req r req.amount f ran
  answer_call-IsStored ttl (release_call c req) a f e =
      let (r, ran, same) =
        map_reply-response MoneyResponse.released (release_funds x d c req s) a t e in
      release_parsed-IsStored c req r (x.uuid_parse req.hold_id) f
        (guarded-response (str_eq req.request_id "") invalid_argument s _ ran)
