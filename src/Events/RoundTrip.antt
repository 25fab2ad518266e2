-- ===== src/Events/RoundTrip.antt =====
-- `Frame` and `Unframe` of internal/events/events.go, and the schema id that `Validate` reads.
use mathlib.Core.Path.{subst}
use peikonpurekkusu_account.Prelude.{
  ℕ, ◌<◌, ◌≡◌, arith, ◌/◌, ◌%◌, ◌∷◌, some, ◌*◌, ◌≢◌, ◌+◌, [], eq_iff, Option-cases, inl, inr,
  String, Option, none, if◌then◌else◌, str_eq,
}
use peikonpurekkusu_account.Prelude.Int.{ℤ, pos, negsuc}
use peikonpurekkusu_account.Events.Framing.{
  to_uint32, to_int32, EnvelopeJson, split_frame, word_range, Envelope, frame_payload, word_half,
  put_uint32, check_envelope, frame, unframe,
}
use peikonpurekkusu_account.Schema.{Bytes, Value, Payload, text, number, float}

-- The value of a key.
abbrev pub payload_value : String → Payload → Option Value
payload_value key [] = none
payload_value key ((k, v) ∷ rest) = if str_eq k key then some v else payload_value key rest

-- A value as it is read back: a text stays as it is, and a number becomes a float64.
abbrev pub ReadsValue : Option Value → Option Value → Type 0
ReadsValue none read = read ≡ none
ReadsValue (some (text s)) read = read ≡ some (text s)
ReadsValue (some (number n)) read = (bits : ℕ) × (read ≡ some (float bits))
ReadsValue (some (float b)) read = (bits : ℕ) × (read ≡ some (float bits))

-- An envelope as it is read back: the fields are the same, and so are the keys of the payload, in
-- any order.
pub record Reads (env read : Envelope) : Type 0 where
  pub event_id : read.event_id ≡ env.event_id
  pub event_type : read.event_type ≡ env.event_type
  pub schema_version : read.schema_version ≡ env.schema_version
  pub occurred_at : read.occurred_at ≡ env.occurred_at
  pub tenant_id : read.tenant_id ≡ env.tenant_id
  pub correlation_id : read.correlation_id ≡ env.correlation_id
  pub causation_id : read.causation_id ≡ env.causation_id
  pub idempotency_key : read.idempotency_key ≡ env.idempotency_key
  pub payload :
      (key : String) → ReadsValue (payload_value key env.payload) (payload_value key read.payload)

-- What `encoding/json` documents of an envelope whose payload holds texts and integers: what is
-- marshalled can be read back, and its text is not empty.
pub record IsFaithfulJson (json : EnvelopeJson) : Type 0 where
  pub reads :
      (env : Envelope) (body : Bytes)
      → json.marshal env ≡ some body
      → (read : Envelope) × (json.unmarshal body ≡ some read) × Reads env read
  pub not_empty : (env : Envelope) → json.marshal env ≢ some []

-- An `int32`.
abbrev pub IsInt32 : ℤ → Type 0
IsInt32 (pos n) = n < word_half
IsInt32 (negsuc n) = n < word_half

big_endian :
    (u : ℕ)
    → u < word_range
    → u / 16777216 % 256 * 16777216 + u / 65536 % 256 * 65536 + u / 256 % 256 * 256 + u % 256 ≡ u
big_endian u h = omega arith

to_int32-to_uint32 : (id : ℤ) → IsInt32 id → to_int32 (to_uint32 id) ≡ id
unfolding to_int32 to_uint32
to_int32-to_uint32 (pos n) h = ground arith
to_int32-to_uint32 (negsuc n) h = ground arith

to_uint32-lt : (id : ℤ) → to_uint32 id < word_range
unfolding to_uint32
to_uint32-lt (pos n) = omega arith
to_uint32-lt (negsuc n) = omega arith

split_frame-frame_payload :
    (id : ℤ) (e : ℕ) (rest : Bytes)
    → IsInt32 id
    → split_frame (frame_payload id (e ∷ rest)) ≡ some (record { schema_id = id; body = e ∷ rest })
unfolding split_frame frame_payload put_uint32
split_frame-frame_payload id e rest h =
    rw (big_endian (to_uint32 id) (to_uint32-lt id)) (rw (to_int32-to_uint32 id h))

check_read :
    (env read : Envelope)
    → Reads env read
    → env.event_id ≢ ""
    → env.event_type ≢ ""
    → check_envelope read ≡ some read
check_read env read same p q =
    ground
      (arith, same.event_id, same.event_type, eq_iff read.event_id "", eq_iff read.event_type "")

-- A framed envelope whose event id and event type are not empty is read back by `Unframe` with the
-- same fields and, under each key of its payload, the same text, or a float64 for a number; and its
-- frame carries the int32 schema id and the JSON text. The condition is that JSON texts are not
-- empty and are read back that way.
pub unframe-frame :
    (json : EnvelopeJson) (id : ℤ) (env : Envelope) (value : Bytes)
    → IsFaithfulJson json
    → IsInt32 id
    → env.event_id ≢ ""
    → env.event_type ≢ ""
    → frame json id env ≡ some value
    → ((read : Envelope) × (unframe json value ≡ some read) × Reads env read)
      × ((body : Bytes) × (json.marshal env ≡ some body)
          × (split_frame value ≡ some (record { schema_id = id; body = body })))
unfolding frame unframe
unframe-frame json id env value faithful word named typed e =
    elim (Option-cases (json.marshal env)) [
      | inl failed ↦ absurd (ground arith)
      | inr ([], written) ↦ absurd (faithful.not_empty env written)
      | inr (b ∷ rest, written) ↦
          let framed : frame_payload id (b ∷ rest) ≡ value = ground arith in
          let split : split_frame value ≡ some (record { schema_id = id; body = b ∷ rest }) =
            subst (λ v. split_frame v ≡ some (record { schema_id = id; body = b ∷ rest })) framed
              (split_frame-frame_payload id b rest word) in
          let (read, parsed, same) = faithful.reads env (b ∷ rest) written in
          (
            (read, ground (arith, split, parsed, check_read env read same named typed), same),
            (b ∷ rest, written, split),
          )
    ]
