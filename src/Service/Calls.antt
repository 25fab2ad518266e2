-- ===== src/Service/Calls.antt =====
-- What the gRPC calls and the sweep keep.
use peikonpurekkusu_account.Prelude.{
  refl, none, some, ◌≡◌, Bool, str_eq, Option, if◌then◌else◌, true, false, sym,
}
use peikonpurekkusu_account.Tx.{Result, Tx, ok, err}
use peikonpurekkusu_account.Service.{Parts}
use peikonpurekkusu_account.Schema.{Store, Uuid}
use peikonpurekkusu_account.Grpc.{
  to_reply, CaptureFundsRequest, release_funds, HoldFundsRequest, capture_funds, hold_funds,
  ReleaseFundsRequest, Code, Money, invalid_argument, Reply, status_error, hold_parsed,
  capture_parsed, release_parsed, hold_guarded, capture_guarded, choose_ttl,
}
use peikonpurekkusu_account.Ledger.Retry.{Database, in_tx}
use peikonpurekkusu_account.Service.Laws.{Laws, IsOwn, Continues, in_tx-Continues}
use peikonpurekkusu_account.Ledger.Operations.{sweep}
use mathlib.Core.Path.{subst}
use peikonpurekkusu_account.Service.Bodies.{
  idempotent-Continues, capture_action-Continues, hold_action-Continues, release_action-Continues,
}

store-to_reply : {R : Type 0} (q : Result R × Store) → (to_reply q).1 ≡ q.1
store-to_reply (ok r, s) = refl
store-to_reply (err e, s) = refl

module _ {Doc Schema : Type 0} (p : Parts Doc Schema) (P : Store → Type 0) (Free : Uuid → Type 0)
    (laws : Laws p.runtime P Free) where
  module _ (d : Database) (own : IsOwn P d) (s : Store) (r : P s) where
    reply_kept : {R : Type 0} (body : Tx R) → Continues P body → P (to_reply (in_tx d body s)).1
    reply_kept body goes =
        subst P (sym (store-to_reply (in_tx d body s))) (in_tx-Continues P d body s own goes r)

    hold_parsed_kept :
        (req : HoldFundsRequest) (amount : Money) (account payment : Option Uuid)
        → ((c : Uuid) → account ≡ some c → Free c)
        → P (hold_parsed p.runtime d p.hold_codec p.hold_ttl req amount account payment s).1
    hold_parsed_kept req amount none payment free = r
    hold_parsed_kept req amount (some account) none free = r
    hold_parsed_kept req amount (some account) (some payment) free = reply_kept _ (
        idempotent-Continues p.runtime P Free laws p.hold_codec req.request_id "HoldFunds" _ (
          hold_action-Continues p.runtime P Free laws d account payment amount
            (choose_ttl p.hold_ttl req.expires_in_seconds) (free account refl)))

    guarded_kept :
        {R : Type 0} (refused : Bool) (code : Code) (q : Reply R × Store)
        → P q.1
        → P (if refused then (status_error code, s) else q).1
    guarded_kept true code q h = r
    guarded_kept false code q h = h

    hold_guarded_kept :
        (req : HoldFundsRequest) (amount : Option Money)
        → ((c : Uuid) → p.runtime.uuid_parse req.account_id ≡ some c → Free c)
        → P (hold_guarded p.runtime d p.hold_codec p.hold_ttl req amount s).1
    hold_guarded_kept req none free = r
    hold_guarded_kept req (some amount) free =
        guarded_kept (str_eq req.request_id "") invalid_argument _ (
          hold_parsed_kept req amount (p.runtime.uuid_parse req.account_id)
            (p.runtime.uuid_parse req.payment_id) free)

    pub hold_funds_kept :
        (req : HoldFundsRequest)
        → ((c : Uuid) → p.runtime.uuid_parse req.account_id ≡ some c → Free c)
        → P (hold_funds p.runtime d p.hold_codec p.hold_ttl req s).1
    unfolding hold_funds
    hold_funds_kept req free = hold_guarded_kept req req.amount free

    capture_parsed_kept :
        (req : CaptureFundsRequest) (amount : Money) (id : Option Uuid)
        → P (capture_parsed p.runtime d p.capture_codec req amount id s).1
    capture_parsed_kept req amount none = r
    capture_parsed_kept req amount (some id) = reply_kept _ (
        idempotent-Continues p.runtime P Free laws p.capture_codec req.request_id "CaptureFunds" _
          (capture_action-Continues p.runtime P Free laws d id amount.minor_units))

    capture_guarded_kept :
        (req : CaptureFundsRequest) (amount : Option Money)
        → P (capture_guarded p.runtime d p.capture_codec req amount s).1
    capture_guarded_kept req none = r
    capture_guarded_kept req (some amount) =
        guarded_kept (str_eq req.request_id "") invalid_argument _
          (capture_parsed_kept req amount (p.runtime.uuid_parse req.hold_id))

    pub capture_funds_kept :
        (req : CaptureFundsRequest) → P (capture_funds p.runtime d p.capture_codec req s).1
    unfolding capture_funds
    capture_funds_kept req = capture_guarded_kept req req.amount

    release_parsed_kept :
        (req : ReleaseFundsRequest) (id : Option Uuid)
        → P (release_parsed p.runtime d p.release_codec req id s).1
    release_parsed_kept req none = r
    release_parsed_kept req (some id) = reply_kept _ (
        idempotent-Continues p.runtime P Free laws p.release_codec req.request_id "ReleaseFunds" _
          (release_action-Continues p.runtime P Free laws d id req.reason))

    pub release_funds_kept :
        (req : ReleaseFundsRequest) → P (release_funds p.runtime d p.release_codec req s).1
    unfolding release_funds
    release_funds_kept req =
        guarded_kept (str_eq req.request_id "") invalid_argument _
          (release_parsed_kept req (p.runtime.uuid_parse req.hold_id))

    pub sweep_due_kept : (locked : Uuid → Bool) → P (in_tx d (sweep p.runtime locked) s).1
    sweep_due_kept locked =
        in_tx-Continues P d (sweep p.runtime locked) s own (laws.sweep_kept locked) r
