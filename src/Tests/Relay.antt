-- ===== src/Tests/Relay.antt =====
-- A row of the outbox on its way to the broker.
use peikonpurekkusu_account.Prelude.{none, some, [], ◌∷◌, String, true, ◌≡◌, refl, arith}
use peikonpurekkusu_account.Outbox.Backlog.{backlog, Drains-empty, unlocked, another, start}
use peikonpurekkusu_account.Outbox.Publish.{Drained, drain_once-Drained}
use peikonpurekkusu_account.Outbox.{
  Outside, drain_once, has_id, RelayState, select_batch, pending, order_by_id, insert_row,
  publish_rows, publish_row, conclude, mark_processed,
}
use peikonpurekkusu_account.Schema.{OutboxRow, Store}
use peikonpurekkusu_account.Events.Framing.{
  EnvelopeJson, frame, frame_payload, put_uint32, to_uint32, new_envelope,
}
use peikonpurekkusu_account.Events.Registry.{
  Lookup, schema_id, Lookup, known_id, answered, read_lookup, lookups, schema_id_once, subject_path,
}
use peikonpurekkusu_account.Tests.Seed.{process, seeded}
use peikonpurekkusu_account.Prelude.Int.{pos}
use peikonpurekkusu_account.Outbox.Selection.{UniqueRows}

abbrev held : String
held = "accounts.funds.held.v1"

abbrev registry : String → Lookup
registry path = answered 200 (some (pos 3))

schema_id_first : schema_id registry held [] ≡ (some (pos 3), (held, pos 3) ∷ [])
unfolding schema_id known_id read_lookup subject_path
schema_id_first = refl

schema_id_once_example :
    schema_id
      (λ path. Lookup.unreachable)
      held
      (lookups (("accounts.funds.captured.v1", registry) ∷ []) ((held, pos 3) ∷ []))
    ≡ (some (pos 3), lookups (("accounts.funds.captured.v1", registry) ∷ []) ((held, pos 3) ∷ []))
schema_id_once_example =
    schema_id_once registry (λ path. Lookup.unreachable) held (pos 3) [] ((held, pos 3) ∷ [])
      (("accounts.funds.captured.v1", registry) ∷ []) schema_id_first

-- A JSON form that every envelope has.
abbrev any_json : EnvelopeJson
any_json = record { marshal = λ e. some (123 ∷ 125 ∷ []); unmarshal = λ body. none }

abbrev row : OutboxRow
row = record {
  id = 5;
  aggregatetype = "account";
  aggregateid = "i";
  type = held;
  payload = [];
  created_at = 90;
  processed_at = none;
}

abbrev waiting : Store
waiting = record seeded { outbox = row ∷ [] }

abbrev working : Outside
working = record {
  reread = λ p. some p;
  ask = λ k. registry;
  takes = λ k. true;
  query_fails = none;
  update_fails = none;
  commit_fails = none;
}

abbrev idle : RelayState
idle = record { ids = []; sent = [] }

abbrev relayed : RelayState
relayed = record {
  ids = (held, pos 3) ∷ [];
  sent = record { topic = held; key = "i"; value = 0 ∷ 0 ∷ 0 ∷ 0 ∷ 3 ∷ 123 ∷ 125 ∷ [] } ∷ [];
}

abbrev emptied : Store
emptied = record seeded { outbox = record row { processed_at = some 100 } ∷ [] }

drain_once-Drained_example :
    Drained process any_json working
      (select_batch unlocked waiting.outbox)
      (waiting, idle)
      (drain_once process any_json working unlocked (waiting, idle))
drain_once-Drained_example = drain_once-Drained process any_json working unlocked waiting idle

runs_drain :
    drain_once process any_json working unlocked (waiting, idle) ≡ ((none, 1), (emptied, relayed))
unfolding drain_once select_batch pending order_by_id insert_row publish_rows publish_row conclude
    mark_processed has_id schema_id known_id read_lookup subject_path frame frame_payload put_uint32
    to_uint32 new_envelope
runs_drain = refl

backlog_waiting : backlog waiting.outbox ≡ 1
unfolding backlog
backlog_waiting = refl

alone : UniqueRows waiting.outbox
unfolding has_id
alone = (refl, tt)

Drains-empty_example : backlog emptied.outbox ≡ 0
Drains-empty_example =
    Drains-empty process any_json (waiting, idle) (emptied, relayed) 1 alone
      (another start working 1 runs_drain) (omega (arith, backlog_waiting))
