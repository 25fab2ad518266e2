-- ===== src/Service.antt =====
-- The process of cmd/server/main.go at work: its servers and its workers on one database, one
-- action after the other. What runs at the same time as a transaction is in its Database. A
-- reconciliation only reads and is no action.
pub mod Laws
pub mod Bodies
pub mod Calls
pub mod Deliveries
pub mod Actions
pub mod Refines
pub mod Records
pub mod Once
pub mod Migrated
use peikonpurekkusu_account.Prelude.{ℕ, none, some, [], ◌∷◌, List, Bool, ◌+◌, String, Option}
use peikonpurekkusu_account.Consumer.Delivery.{World, handle_with_retry, Delivery}
use peikonpurekkusu_account.Grpc.{
  hold_funds, capture_funds, Codec, HoldFundsRequest, release_funds, HoldFundsResponse,
  CaptureFundsRequest, CaptureFundsResponse, ReleaseFundsRequest, ReleaseFundsResponse,
}
use peikonpurekkusu_account.Schema.{Store, Runtime, Uuid}
use peikonpurekkusu_account.Outbox.{database, RelayState, drain_once}
use peikonpurekkusu_account.Ledger.Retry.{Database, in_tx}
use peikonpurekkusu_account.Http.Balance.{Cached}
use peikonpurekkusu_account.Gateway.Identity.{api}
use peikonpurekkusu_account.Http.{Request, BalanceView, Response}
use peikonpurekkusu_account.Prelude.Int.{ℤ}
use peikonpurekkusu_account.Events.Validate.{SchemaLibrary}
use peikonpurekkusu_account.Events.Framing.{EnvelopeJson}
use peikonpurekkusu_account.Ledger.Operations.{sweep}
use peikonpurekkusu_account.Gateway.{Requirements, Token}
use peikonpurekkusu_account.Outbox
use peikonpurekkusu_account.Http.Routes

-- A call of one of the servers, a record that the consumer is given, a round of a worker, or time.
pub data Action : Type 0 where
  hold_call : Database → HoldFundsRequest → Action
  capture_call : Database → CaptureFundsRequest → Action
  release_call : Database → ReleaseFundsRequest → Action
  http_call : Request → Routes.Outside → Action
  delivery : Delivery → Action
  drain : Outbox.Outside → (Uuid → Bool) → Action
  sweep_due : Database → (Uuid → Bool) → Action
  time_passes : ℕ → Action

-- What the process is built with: the libraries, the configuration and the codecs.
pub record Parts (Doc Schema : Type 0) : Type 0 where
  pub runtime : Runtime
  pub hold_codec : Codec HoldFundsResponse
  pub capture_codec : Codec CaptureFundsResponse
  pub release_codec : Codec ReleaseFundsResponse
  pub hold_ttl : ℤ
  pub library : SchemaLibrary Doc Schema
  pub envelopes : EnvelopeJson
  pub seed : ℤ
  pub views : Codec BalanceView
  pub cache_ttl : ℕ
  pub verify : Requirements → String → Option Token
  pub format_int : ℤ → String
  pub no_match : String → List String → Response

module _ {Doc Schema : Type 0} (p : Parts Doc Schema) where
  abbrev pub Worlds : Type 0
  Worlds = World p.library p.envelopes p.runtime p.seed

  -- The database with what the consumer keeps, what the relay keeps, and Redis.
  pub record State : Type 0 where
    pub world : Worlds
    pub relay : RelayState
    pub cached : List Cached

  abbrev pub with_store : State → Store → State
  with_store st s = record st { world = record st.world { state = s } }

  unfoldable pub act : Action → State → State
  act (hold_call d req) st =
      with_store st (hold_funds p.runtime d p.hold_codec p.hold_ttl req st.world.state).1
  act (capture_call d req) st =
      with_store st (capture_funds p.runtime d p.capture_codec req st.world.state).1
  act (release_call d req) st =
      with_store st (release_funds p.runtime d p.release_codec req st.world.state).1
  act (http_call r o) st = record st {
    cached =
        (api p.verify p.format_int p.runtime p.views p.cache_ttl p.no_match o st.world.state r
          st.cached).1;
  }
  act (delivery v) st = record st {
    world =
        (handle_with_retry p.library p.envelopes p.runtime p.seed v.attempts v.published v.message
          st.world).1;
  }
  act (drain o locked) st =
      let after = (drain_once p.runtime p.envelopes o locked (st.world.state, st.relay)).1 in
      record (with_store st after.0) { relay = after.1 }
  act (sweep_due d locked) st = with_store st (in_tx d (sweep p.runtime locked) st.world.state).1
  act (time_passes n) st =
      with_store st (record st.world.state { clock = st.world.state.clock + n })

  unfoldable pub run_service : List Action → State → State
  unfolding act
  run_service [] st = st
  run_service (a ∷ rest) st = run_service rest (act a st)
