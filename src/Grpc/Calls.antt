-- ===== src/Grpc/Calls.antt =====
-- The three calls that move money, as one service (internal/grpcapi/server.go).
use peikonpurekkusu_account.Prelude.{ap, none, ◌≡◌, String, arith, ◌∙◌}
use peikonpurekkusu_account.Grpc.{
  HoldFundsResponse, Reply, Codec, CaptureFundsResponse, HoldFundsRequest, Code,
  ReleaseFundsResponse, response, CaptureFundsRequest, ReleaseFundsRequest, hold_funds,
  status_error, capture_funds, release_funds,
}
use peikonpurekkusu_account.Schema.{Runtime, Store}
use peikonpurekkusu_account.Grpc.Replay.{IsFaithful, Keeps}
use peikonpurekkusu_account.Prelude.Int.{ℤ}
use peikonpurekkusu_account.Ledger.Retry.{Database}
use peikonpurekkusu_account.Grpc.Retried.{
  hold_funds_replays, capture_funds_replays, release_funds_replays,
}
use peikonpurekkusu_account.Grpc.Errors.{
  Unaffected, hold_funds-Unaffected, capture_funds-Unaffected, release_funds-Unaffected,
}

pub data MoneyCall : Type 0 where
  hold_call : Codec HoldFundsResponse → HoldFundsRequest → MoneyCall
  capture_call : Codec CaptureFundsResponse → CaptureFundsRequest → MoneyCall
  release_call : Codec ReleaseFundsResponse → ReleaseFundsRequest → MoneyCall

pub data MoneyResponse : Type 0 where
  held : HoldFundsResponse → MoneyResponse
  captured : CaptureFundsResponse → MoneyResponse
  released : ReleaseFundsResponse → MoneyResponse

abbrev pub map_reply : {R S : Type 0} → (R → S) → Reply R × Store → Reply S × Store
map_reply f (response r, s) = (response (f r), s)
map_reply f (status_error c, s) = (status_error c, s)

abbrev pub request_id_of : MoneyCall → String
request_id_of (hold_call c req) = req.request_id
request_id_of (capture_call c req) = req.request_id
request_id_of (release_call c req) = req.request_id

-- The stored response of the call's kind is read back as it was written.
abbrev pub IsFaithfulCall : MoneyCall → Type 0
IsFaithfulCall (hold_call c req) = IsFaithful c
IsFaithfulCall (capture_call c req) = IsFaithful c
IsFaithfulCall (release_call c req) = IsFaithful c

-- A server with a default lifetime of holds.
unfoldable pub answer_call :
    Runtime → ℤ → MoneyCall → Database → Store → Reply MoneyResponse × Store
answer_call x ttl (hold_call c req) d s = map_reply held (hold_funds x d c ttl req s)
answer_call x ttl (capture_call c req) d s = map_reply captured (capture_funds x d c req s)
answer_call x ttl (release_call c req) d s = map_reply released (release_funds x d c req s)

pub map_reply-response :
    {R S : Type 0} (f : R → S) (q : Reply R × Store) (a : S) (t : Store)
    → map_reply f q ≡ (response a, t)
    → (r : R) × (q ≡ (response r, t)) × (f r ≡ a)
map_reply-response f (response r, s) a t e = (r, ground (arith, e), ground (arith, e))
map_reply-response f (status_error c, s) a t e = absurd (ground (arith, e))

map_reply-error :
    {R S : Type 0} (f : R → S) (q : Reply R × Store) (c : Code) (t : Store)
    → map_reply f q ≡ (status_error c, t)
    → q ≡ (status_error c, t)
map_reply-error f (response r, s) c t e = absurd (ground (arith, e))
map_reply-error f (status_error c', s) c t e = ground (arith, e)

-- Once it has answered a HoldFunds, a CaptureFunds or a ReleaseFunds, the service answers the same
-- request with the same response and writes nothing, if the stored response is still there,
-- marshalled messages are read back, and the first attempt of the transaction is not
-- interrupted, whatever the server's hold lifetime is by then.
pub answer_call_replays :
    (x : Runtime) (ttl ttl' : ℤ) (call : MoneyCall) (d d' : Database) (s t u : Store)
    (a : MoneyResponse)
    → IsFaithfulCall call
    → d'.strike 0 ≡ none
    → Keeps (request_id_of call) t (d'.others 0 u)
    → answer_call x ttl call d s ≡ (response a, t)
    → answer_call x ttl' call d' u ≡ (response a, d'.others 0 u)
unfolding answer_call
answer_call_replays x ttl ttl' (hold_call c req) d d' s t u a faithful calm keeps e =
    let (r, ran, same) = map_reply-response held (hold_funds x d c ttl req s) a t e in
    ap (map_reply held) (hold_funds_replays x d d' s t u calm c faithful ttl ttl' req r keeps ran)
    ∙ ap (λ b. (response b, d'.others 0 u)) same
answer_call_replays x ttl ttl' (capture_call c req) d d' s t u a faithful calm keeps e =
    let (r, ran, same) = map_reply-response captured (capture_funds x d c req s) a t e in
    ap (map_reply captured) (capture_funds_replays x d d' s t u calm c faithful req r keeps ran)
    ∙ ap (λ b. (response b, d'.others 0 u)) same
answer_call_replays x ttl ttl' (release_call c req) d d' s t u a faithful calm keeps e =
    let (r, ran, same) = map_reply-response released (release_funds x d c req s) a t e in
    ap (map_reply released) (release_funds_replays x d d' s t u calm c faithful req r keeps ran)
    ∙ ap (λ b. (response b, d'.others 0 u)) same

-- A HoldFunds, a CaptureFunds or a ReleaseFunds that is answered with an error has no effect: the
-- store is what the other transactions have made of it.
pub answer_call-Unaffected :
    (x : Runtime) (ttl : ℤ) (call : MoneyCall) (d : Database) (s t : Store) (code : Code)
    → answer_call x ttl call d s ≡ (status_error code, t)
    → Unaffected d s t
unfolding answer_call
answer_call-Unaffected x ttl (hold_call c req) d s t code e =
    hold_funds-Unaffected x d s t code c ttl req (map_reply-error held _ code t e)
answer_call-Unaffected x ttl (capture_call c req) d s t code e =
    capture_funds-Unaffected x d s t code c req (map_reply-error captured _ code t e)
answer_call-Unaffected x ttl (release_call c req) d s t code e =
    release_funds-Unaffected x d s t code c req (map_reply-error released _ code t e)
