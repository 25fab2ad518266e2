-- ===== src/Events/Framing.antt =====
-- `Envelope`, `NewEnvelope`, `Frame` and `Unframe` of internal/events/events.go. Bytes are numbers;
-- the JSON form of an envelope is a parameter.
use peikonpurekkusu_account.Prelude.{
  ℕ, ◌+◌, ◌-◌, ◌*◌, ◌/◌, ◌%◌, String, str_eq, ◌||◌, Option, none, some, [], ◌∷◌, ◌++◌, ltb, ◌==◌,
  if◌then◌else◌,
}
use peikonpurekkusu_account.Prelude.Int.{ℤ, pos, negsuc}
use peikonpurekkusu_account.Schema.{Bytes, Time, Payload}

pub record Envelope : Type 0 where
  pub event_id : String
  pub event_type : String
  pub schema_version : ℕ
  pub occurred_at : Time
  pub tenant_id : String
  pub correlation_id : String
  pub causation_id : Option String
  pub idempotency_key : Option String
  pub payload : Payload

unfoldable pub new_envelope : String → String → String → Time → Payload → Envelope
new_envelope event_id topic correlation_id occurred_at payload = record {
  event_id = event_id;
  event_type = topic;
  schema_version = 1;
  occurred_at = occurred_at;
  tenant_id = "peikon";
  correlation_id = correlation_id;
  causation_id = none;
  idempotency_key = none;
  payload = payload;
}

-- `json.Marshal` and `json.Unmarshal` of an envelope; either can fail.
pub record EnvelopeJson : Type 0 where
  pub marshal : Envelope → Option Bytes
  pub unmarshal : Bytes → Option Envelope

-- 2^32 and 2^31.
abbrev pub word_range : ℕ
word_range = 4294967296

abbrev pub word_half : ℕ
word_half = 2147483648

-- `uint32(schemaID)` of an int32, and `int32(…)` back.
unfoldable pub to_uint32 : ℤ → ℕ
to_uint32 (pos n) = n % word_range
to_uint32 (negsuc n) = word_range - 1 - n % word_range

unfoldable pub to_int32 : ℕ → ℤ
to_int32 u = if ltb u word_half then pos u else negsuc (word_range - 1 - u)

-- `binary.BigEndian.PutUint32`
unfoldable pub put_uint32 : ℕ → Bytes
put_uint32 u = u / 16777216 % 256 ∷ u / 65536 % 256 ∷ u / 256 % 256 ∷ u % 256 ∷ []

unfoldable pub frame_payload : ℤ → Bytes → Bytes
unfolding put_uint32 to_uint32
frame_payload schema_id payload = 0 ∷ (put_uint32 (to_uint32 schema_id) ++ payload)

unfoldable pub frame : EnvelopeJson → ℤ → Envelope → Option Bytes
unfolding frame_payload
frame json schema_id env = elim (json.marshal env) [
  | none ↦ none
  | some payload ↦ some (frame_payload schema_id payload)
]

-- `len(value) < 6 || value[0] != 0` fails, or the five header bytes are split off.
pub record Framed : Type 0 where
  pub schema_id : ℤ
  pub body : Bytes

unfoldable pub split_frame : Bytes → Option Framed
unfolding to_int32
split_frame (m ∷ a ∷ b ∷ c ∷ d ∷ e ∷ rest) =
    if m == 0
    then some
        (record { schema_id = to_int32 (a * 16777216 + b * 65536 + c * 256 + d); body = e ∷ rest })
    else none
split_frame _ = none

abbrev pub check_envelope : Envelope → Option Envelope
check_envelope env = if str_eq env.event_id "" || str_eq env.event_type "" then none else some env

abbrev pub parse_body : EnvelopeJson → Option Framed → Option Envelope
parse_body json none = none
parse_body json (some f) = elim (json.unmarshal f.body) [
  | none ↦ none
  | some env ↦ check_envelope env
]

unfoldable pub unframe : EnvelopeJson → Bytes → Option Envelope
unfolding split_frame
unframe json value = parse_body json (split_frame value)
