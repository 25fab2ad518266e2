-- ===== src/Service/Once.antt =====
-- What was answered or handled once stays so, whatever the service does in between.
use peikonpurekkusu_account.Prelude.{◌≡◌, List, refl, none, ◌∙◌, sym}
use peikonpurekkusu_account.Service.{Parts, Action, State, run_service}
use peikonpurekkusu_account.Prelude.Int.{ℤ}
use peikonpurekkusu_account.Schema.{Uuid, Store}
use peikonpurekkusu_account.Events.Framing.{Envelope}
use peikonpurekkusu_account.Grpc.Calls.{
  MoneyCall, MoneyResponse, IsFaithfulCall, answer_call, answer_call_replays, request_id_of,
}
use peikonpurekkusu_account.Ledger.Retry.{Database}
use peikonpurekkusu_account.Consumer.Handlers.{handle_event}
use peikonpurekkusu_account.Tx.{ok}
use peikonpurekkusu_account.Grpc.{response}
use peikonpurekkusu_account.Prelude.Lists.{All}
use peikonpurekkusu_account.Service.Records.{IsRetaining, Retained, run_service-Retained}
use peikonpurekkusu_account.Grpc.Kept.{answer_call-IsStored}
use peikonpurekkusu_account.Consumer.Once.{handle_event_seen, seen-handle_event}

module _ {Doc Schema : Type 0} (p : Parts Doc Schema) where
  -- A HoldFunds, a CaptureFunds or a ReleaseFunds that was answered is answered with the same
  -- response, and writes nothing, when it is called again after any calls, records, sweeps, drains
  -- and pauses, if marshalled messages are read back, the other transactions keep stored responses
  -- and handled events, and the first attempt of the transaction is not interrupted.
  pub run_service-answer_call :
      (ttl ttl' : ℤ) (call : MoneyCall) (d d' : Database) (s : Store) (a : MoneyResponse)
      (actions : List Action) (st : State p)
      → IsFaithfulCall call
      → answer_call p.runtime ttl call d s ≡ (response a, st.world.state)
      → All (IsRetaining p st.world.state) actions
      → d'.strike 0 ≡ none
      → Retained
          (run_service p actions st).world.state
          (d'.others 0 (run_service p actions st).world.state)
      → answer_call p.runtime ttl' call d' (run_service p actions st).world.state
        ≡ (response a, d'.others 0 (run_service p actions st).world.state)
  run_service-answer_call ttl ttl' call d d' s a actions st faithful answered proper calm kept =
      let t = st.world.state in
      let u = (run_service p actions st).world.state in
      let (body, found) = answer_call-IsStored p.runtime d s t ttl call a faithful answered in
      let retained = run_service-Retained p t actions st proper refl in
      answer_call_replays p.runtime ttl ttl' call d d' s t u a faithful calm
        (kept.responses (request_id_of call) body
            (retained.responses (request_id_of call) body found)
          ∙ sym found)
        answered

  -- An event that was handled changes nothing when an event with its id is delivered again after
  -- any calls, records, sweeps, drains and pauses, if the other transactions keep stored responses
  -- and handled events.
  pub run_service-handle_event :
      (id : Uuid) (env env' : Envelope) (s : Store) (actions : List Action) (st : State p)
      → handle_event p.runtime p.seed id env s ≡ ok (tt, st.world.state)
      → All (IsRetaining p st.world.state) actions
      → handle_event p.runtime p.seed id env' (run_service p actions st).world.state
        ≡ ok (tt, (run_service p actions st).world.state)
  run_service-handle_event id env env' s actions st handled proper =
      let t = st.world.state in
      let u = (run_service p actions st).world.state in
      let retained = run_service-Retained p t actions st proper refl in
      handle_event_seen p.runtime p.seed id env' u
        (retained.events id (seen-handle_event p.runtime p.seed id env s t handled))
