-- ===== src/Consumer/Delivery.antt =====
-- `handle`, `handleWithRetry`, `deadLetter` and the batches of `Run`.
use peikonpurekkusu_account.Prelude.{
  ⊤, ℕ, zero, suc, String, ◌<>◌, Bool, true, false, ◌&&◌, Option, none, some, List, [], ◌∷◌, ◌++◌,
  if◌then◌else◌, ◌⊎◌, inl, inr,
}
use peikonpurekkusu_account.Prelude.Int.{ℤ}
use peikonpurekkusu_account.Schema.{Uuid, Time, Bytes, Store, Runtime}
use peikonpurekkusu_account.Tx.{Error, Result, ok, err}
use peikonpurekkusu_account.Ledger.Retry.{Database, in_tx}
use peikonpurekkusu_account.Events.Framing.{Envelope, EnvelopeJson, unframe}
use peikonpurekkusu_account.Events.Validate.{
  ValidateError, registry_unavailable, Answer, SchemaLibrary, validate,
}
use peikonpurekkusu_account.Consumer.Handlers.{handle_event}

-- Why a record failed: poison, an error of the transaction, or the context's end.
pub data Cause : Type 0 where
  invalid : ValidateError → Cause
  bad_envelope bad_event_id : Cause
  failed : Error → Cause
  cancelled : Cause

unfoldable pub is_poison : Cause → Bool
is_poison (invalid _) = true
is_poison bad_envelope = true
is_poison bad_event_id = true
is_poison (failed _) = false
is_poison cancelled = false

pub data HeaderValue : Type 0 where
  raw : Bytes → HeaderValue
  cause : Cause → HeaderValue
  word : String → HeaderValue
  count : ℕ → HeaderValue
  moment : Time → HeaderValue

-- `kgo.Record`
pub record Message : Type 0 where
  pub topic : String
  pub partition : ℕ
  pub offset : ℕ
  pub key : Bytes
  pub value : Bytes
  pub headers : List (String × HeaderValue)

-- One round of the wait for the registry: what it answers, and whether the context ends meanwhile.
pub record Round : Type 0 where
  pub reply : Answer
  pub context_done : Bool

-- One call of `handle`: the rounds of its loop, and the database.
pub record Attempt : Type 0 where
  pub rounds : List Round
  pub database : Database

-- How `handle` ends; `holding` is a call still in its loop after the given rounds.
pub data Handled : Type 0 where
  done holding : Handled
  failure : Cause → Handled

unfoldable pub group : String
group = "account-service"

unfoldable pub dead_letter_message : Time → Message → Cause → Message
unfolding group
dead_letter_message now rec c = record {
  topic = group <> "." <> rec.topic <> ".dlq";
  partition = 0;
  offset = 0;
  key = rec.key;
  value = rec.value;
  headers =
      rec.headers
      ++ (("x-exception", cause c)
          ∷ ("x-original-topic", word rec.topic)
          ∷ ("x-original-partition", count rec.partition)
          ∷ ("x-original-offset", count rec.offset)
          ∷ ("x-failed-at", moment now)
          ∷ ("x-consumer-group", word group)
          ∷ []);
}

abbrev pub max_tries : ℕ
max_tries = 3

abbrev pub finish : Result ⊤ × Store → Handled × Store
finish (ok _, s) = (done, s)
finish (err e, s) = (failure (failed e), s)

-- One record of a batch with what the outside does while it is handled.
pub record Delivery : Type 0 where
  pub message : Message
  pub attempts : ℕ → Attempt
  pub published : Bool

module _ {Doc Schema : Type 0} (lib : SchemaLibrary Doc Schema) (json : EnvelopeJson) (x : Runtime)
    (seed : ℤ) where
  -- The store, the validator's cache, and the dead letters.
  pub record World : Type 0 where
    pub state : Store
    pub cache : List (ℤ × Schema)
    pub dead_letters : List Message

  abbrev pub Checked : Type 0
  Checked = Option Handled × List (ℤ × Schema)

  -- The loop before any field is read; `none` means that the frame is valid.
  unfoldable pub wait_for_schema : List Round → Bytes → List (ℤ × Schema) → Checked
  wait_for_schema [] value cache = (some holding, cache)
  wait_for_schema (r ∷ rest) value cache =
      let (verdict, cache') = validate lib r.reply value cache in
      elim verdict [
        | none ↦ (none, cache')
        | some registry_unavailable ↦ elim r.context_done [
          | true ↦ (some (failure cancelled), cache')
          | false ↦ wait_for_schema rest value cache'
        ]
        | some e ↦ (some (failure (invalid e)), cache')
      ]

  abbrev pub handle_parsed : Database → Envelope → Option Uuid → Store → Handled × Store
  handle_parsed d env none s = (failure bad_event_id, s)
  handle_parsed d env (some event_id) s = finish (in_tx d (handle_event x seed event_id env) s)

  abbrev pub handle_envelope : Database → Option Envelope → Store → Handled × Store
  handle_envelope d none s = (failure bad_envelope, s)
  handle_envelope d (some env) s = handle_parsed d env (x.uuid_parse env.event_id) s

  abbrev pub handle_checked : Attempt → Bytes → Checked → Store → Handled × Store
  handle_checked a value (some h, cache) s = (h, s)
  handle_checked a value (none, cache) s = handle_envelope a.database (unframe json value) s

  unfoldable pub handle : Attempt → Bytes → World → Handled × World
  unfolding wait_for_schema
  handle a value w =
      let checked = wait_for_schema a.rounds value w.cache in
      let (h, s) = handle_checked a value checked w.state in
      (h, record w { state = s; cache = checked.1 })

  -- `deadLetter`; `published` says whether the producer took the message.
  unfoldable pub dead_letter : Bool → Message → Cause → World → Bool × World
  unfolding dead_letter_message
  dead_letter published rec c w =
      if published
      then (
        true,
        record w { dead_letters = dead_letter_message w.state.clock rec c ∷ w.dead_letters },
      )
      else (false, w)

  abbrev pub buried : Bool × World → Option Bool × World
  buried (settled, w) = (some settled, w)

  -- What one call of `handle` leads to: a result, or another try after the cause.
  unfoldable pub verdict :
      Bool → Message → Handled × World → (Option Bool × World) ⊎ (Cause × World)
  unfolding is_poison
  verdict published rec (done, w) = inl (some true, w)
  verdict published rec (holding, w) = inl (none, w)
  verdict published rec (failure c, w) =
      if is_poison c then inl (buried (dead_letter published rec c w)) else inr (c, w)

  -- `handleWithRetry` from attempt k on, with n attempts left; `none` while a call holds.
  unfoldable pub try_handle :
      (ℕ → Attempt) → Bool → Message → ℕ → ℕ → Cause → World → Option Bool × World
  unfolding verdict
  try_handle attempts published rec zero k last w = buried (dead_letter published rec last w)
  try_handle attempts published rec (suc n) k last w =
      elim (verdict published rec (handle (attempts k) rec.value w)) [
        | inl r ↦ r
        | inr (c, w₁) ↦ try_handle attempts published rec n (suc k) c w₁
      ]

  unfoldable pub handle_with_retry : (ℕ → Attempt) → Bool → Message → World → Option Bool × World
  unfolding try_handle
  handle_with_retry attempts published rec = try_handle attempts published rec max_tries 1 cancelled

  -- `EachRecord` of `Run`: every record is handled, and the batch is settled if all are.
  unfoldable pub run_batch : List Delivery → Bool → World → Option Bool × World
  unfolding handle_with_retry
  run_batch [] settled w = (some settled, w)
  run_batch (v ∷ rest) settled w =
      let (r, w₁) = handle_with_retry v.attempts v.published v.message w in
      elim r [ none ↦ (none, w₁) | some b ↦ run_batch rest (settled && b) w₁ ]
