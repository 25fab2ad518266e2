-- ===== src/Grpc/Retried.antt =====
-- internal/grpcapi/server.go: a handler that is called again with a request that it has answered.
use peikonpurekkusu_account.Prelude.{
  if◌then◌else◌, true, false, ◌≡◌, none, arith, Option, str_eq, ap, Bool,
}
use peikonpurekkusu_account.Schema.{Runtime, Store, Uuid}
use peikonpurekkusu_account.Tx.{Result, ok}
use peikonpurekkusu_account.Ledger.Retry.{Database, in_tx}
use peikonpurekkusu_account.Grpc.{
  to_reply, response, none, Codec, ok, CaptureFundsResponse, HoldFundsResponse,
  ReleaseFundsResponse, err, ℤ, CaptureFundsRequest, ReleaseFundsRequest, HoldFundsRequest, Option,
  hold_funds, capture_funds, release_funds, Money, hold_guarded, Uuid, capture_guarded, str_eq,
  capture_parsed, release_parsed, some, hold_parsed, invalid_argument, Bool, release_action,
  capture_action, hold_action, Code, Reply, choose_ttl, in_tx, idempotent, status_error,
}
use peikonpurekkusu_account.Grpc.Replay.{IsFaithful, Keeps, in_tx_replays}
use peikonpurekkusu_account.Prelude.Int.{ℤ}

pub to_reply-eq-response :
    {R : Type 0} (q : Result R × Store) {r : R} {t : Store}
    → to_reply q ≡ (response r, t)
    → q ≡ (ok r, t)
to_reply-eq-response (ok a, s) e = ground (arith, e)
to_reply-eq-response (err x, s) e = absurd (ground (arith, e))

-- An answer that is no error passed the guard, and passes it again.
past_guard :
    {R : Type 0} (b : Bool) (c : Code) (s u : Store) (q q' : Reply R × Store) {r : R} {t v : Store}
    → (q ≡ (response r, t) → q' ≡ (response r, v))
    → (if b then (status_error c, s) else q) ≡ (response r, t)
    → (if b then (status_error c, u) else q') ≡ (response r, v)
past_guard true c s u q q' f e = absurd (ground (arith, e))
past_guard false c s u q q' f e = f e

module _ (x : Runtime) (d d' : Database) (s t u : Store) (calm : d'.strike 0 ≡ none) where
  module _ (c : Codec HoldFundsResponse) (faithful : IsFaithful c) (ttl ttl' : ℤ)
      (req : HoldFundsRequest) (r : HoldFundsResponse)
      (keeps : Keeps req.request_id t (d'.others 0 u)) where
    hold_parsed_replays :
        (amount : Money) (account payment : Option Uuid)
        → hold_parsed x d c ttl req amount account payment s ≡ (response r, t)
        → hold_parsed x d' c ttl' req amount account payment u ≡ (response r, d'.others 0 u)
    hold_parsed_replays amount none payment e = absurd (ground (arith, e))
    hold_parsed_replays amount (some account) none e = absurd (ground (arith, e))
    hold_parsed_replays amount (some account) (some payment) e = ap to_reply (
        in_tx_replays c faithful req.request_id "HoldFunds" d d'
          (hold_action x d account payment amount (choose_ttl ttl req.expires_in_seconds))
          (hold_action x d' account payment amount (choose_ttl ttl' req.expires_in_seconds)) s t u r
          (to_reply-eq-response
            (in_tx d
              (idempotent c req.request_id "HoldFunds"
                (hold_action x d account payment amount (choose_ttl ttl req.expires_in_seconds)))
              s)
            e)
          calm keeps)

    hold_guarded_replays :
        (amount : Option Money)
        → hold_guarded x d c ttl req amount s ≡ (response r, t)
        → hold_guarded x d' c ttl' req amount u ≡ (response r, d'.others 0 u)
    hold_guarded_replays none e = absurd (ground (arith, e))
    hold_guarded_replays (some amount) e =
        let account = x.uuid_parse req.account_id in
        let payment = x.uuid_parse req.payment_id in
        past_guard (str_eq req.request_id "") invalid_argument s u
          (hold_parsed x d c ttl req amount account payment s)
          (hold_parsed x d' c ttl' req amount account payment u)
          (hold_parsed_replays amount account payment) e

    -- Once it has answered a HoldFunds, the service answers the same request with the same response
    -- and writes nothing, if the stored response is still there, marshalled messages are read back,
    -- and the first attempt of the transaction is not interrupted, whatever the server's hold
    -- lifetime is by then.
    pub hold_funds_replays :
        hold_funds x d c ttl req s ≡ (response r, t)
        → hold_funds x d' c ttl' req u ≡ (response r, d'.others 0 u)
    unfolding hold_funds
    hold_funds_replays e = hold_guarded_replays req.amount e

  module _ (c : Codec CaptureFundsResponse) (faithful : IsFaithful c) (req : CaptureFundsRequest)
      (r : CaptureFundsResponse) (keeps : Keeps req.request_id t (d'.others 0 u)) where
    capture_parsed_replays :
        (amount : Money) (hold : Option Uuid)
        → capture_parsed x d c req amount hold s ≡ (response r, t)
        → capture_parsed x d' c req amount hold u ≡ (response r, d'.others 0 u)
    capture_parsed_replays amount none e = absurd (ground (arith, e))
    capture_parsed_replays amount (some hold) e = ap to_reply (
        in_tx_replays c faithful req.request_id "CaptureFunds" d d'
          (capture_action x d hold amount.minor_units) (capture_action x d' hold amount.minor_units)
          s t u r
          (to_reply-eq-response
            (in_tx d
              (idempotent c req.request_id "CaptureFunds"
                (capture_action x d hold amount.minor_units))
              s)
            e)
          calm keeps)

    capture_guarded_replays :
        (amount : Option Money)
        → capture_guarded x d c req amount s ≡ (response r, t)
        → capture_guarded x d' c req amount u ≡ (response r, d'.others 0 u)
    capture_guarded_replays none e = absurd (ground (arith, e))
    capture_guarded_replays (some amount) e =
        let hold = x.uuid_parse req.hold_id in
        past_guard (str_eq req.request_id "") invalid_argument s u
          (capture_parsed x d c req amount hold s) (capture_parsed x d' c req amount hold u)
          (capture_parsed_replays amount hold) e

    -- Once it has answered a CaptureFunds, the service answers the same request with the same
    -- response and writes nothing, if the stored response is still there, marshalled messages are
    -- read back, and the first attempt of the transaction is not interrupted.
    pub capture_funds_replays :
        capture_funds x d c req s ≡ (response r, t)
        → capture_funds x d' c req u ≡ (response r, d'.others 0 u)
    unfolding capture_funds
    capture_funds_replays e = capture_guarded_replays req.amount e

  module _ (c : Codec ReleaseFundsResponse) (faithful : IsFaithful c) (req : ReleaseFundsRequest)
      (r : ReleaseFundsResponse) (keeps : Keeps req.request_id t (d'.others 0 u)) where
    release_parsed_replays :
        (hold : Option Uuid)
        → release_parsed x d c req hold s ≡ (response r, t)
        → release_parsed x d' c req hold u ≡ (response r, d'.others 0 u)
    release_parsed_replays none e = absurd (ground (arith, e))
    release_parsed_replays (some hold) e = ap to_reply (
        in_tx_replays c faithful req.request_id "ReleaseFunds" d d'
          (release_action x d hold req.reason) (release_action x d' hold req.reason) s t u r
          (to_reply-eq-response
            (in_tx d
              (idempotent c req.request_id "ReleaseFunds" (release_action x d hold req.reason)) s)
            e)
          calm keeps)

    -- Once it has answered a ReleaseFunds, the service answers the same request with the same
    -- response and writes nothing, if the stored response is still there, marshalled messages are
    -- read back, and the first attempt of the transaction is not interrupted.
    pub release_funds_replays :
        release_funds x d c req s ≡ (response r, t)
        → release_funds x d' c req u ≡ (response r, d'.others 0 u)
    unfolding release_funds
    release_funds_replays e =
        let hold = x.uuid_parse req.hold_id in
        past_guard (str_eq req.request_id "") invalid_argument s u (release_parsed x d c req hold s)
          (release_parsed x d' c req hold u) (release_parsed_replays hold) e
