-- ===== src/Tests/Once.antt =====
-- A hold that is asked for again, and an event that is delivered again, behind other work of the
-- service.
use peikonpurekkusu_account.Prelude.{◌≡◌, List, refl, [], ◌∷◌, false}
use peikonpurekkusu_account.Service.{Action, State, run_service, delivery, time_passes, sweep_due}
use peikonpurekkusu_account.Consumer.Handlers.{handle_event}
use peikonpurekkusu_account.Schema.{Store}
use peikonpurekkusu_account.Grpc.Calls.{answer_call, hold_call, held}
use peikonpurekkusu_account.Service.Laws.{IsOwn}
use peikonpurekkusu_account.Tests.Seed.{process, seeded}
use peikonpurekkusu_account.Prelude.Lists.{All}
use peikonpurekkusu_account.Service.Records.{IsRetaining, Retained}
use peikonpurekkusu_account.Tests.Service.{event, parts}
use peikonpurekkusu_account.Prelude.Int.{pos}
use peikonpurekkusu_account.Tests.Ledger.{quiet}
use peikonpurekkusu_account.Tests.Events.{registration, registered, runs_registration}
use peikonpurekkusu_account.Tests.Requests.{
  hold_codec, hold_request, held_once, hold_response, hold_codec-IsFaithful, answers_hold,
}
use peikonpurekkusu_account.Tx.{ok}
use peikonpurekkusu_account.Service.Once.{run_service-handle_event, run_service-answer_call}
use peikonpurekkusu_account.Grpc.{response}
use peikonpurekkusu_account.Tests.Funds.{ten_minutes, funded}

abbrev at : Store → State parts
at s = record {
  world = record { state = s; cache = []; dead_letters = [] };
  relay = record { ids = []; sent = [] };
  cached = [];
}

abbrev between : List Action
between = delivery event ∷ time_passes 5 ∷ sweep_due quiet (λ id. false) ∷ []

quiet-IsOwn : (s : Store) → IsOwn (Retained s) quiet
quiet-IsOwn s k t r = r

retaining : (s : Store) → All (IsRetaining parts s) between
retaining s = (λ k. quiet-IsOwn s, (tt, (quiet-IsOwn s, tt)))

abbrev later : Store → Store
later s = (run_service parts between (at s)).world.state

run_service-answer_call_example :
    answer_call process (pos 60) (hold_call hold_codec hold_request) quiet (later held_once)
    ≡ (response (held hold_response), later held_once)
run_service-answer_call_example =
    run_service-answer_call parts ten_minutes (pos 60) (hold_call hold_codec hold_request) quiet
      quiet funded (held hold_response) between (at held_once) hold_codec-IsFaithful answers_hold
      (retaining held_once) refl (record { responses = λ request_id body e. e; events = λ id e. e })

run_service-handle_event_example :
    handle_event process (pos 700) 55 registration (later registered) ≡ ok (tt, later registered)
run_service-handle_event_example =
    run_service-handle_event parts 55 registration registration seeded between (at registered)
      runs_registration (retaining registered)
