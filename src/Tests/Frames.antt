-- ===== src/Tests/Frames.antt =====
-- The event format at a concrete envelope.
use peikonpurekkusu_account.Prelude.{
  true, false, none, some, Option, arith, if◌then◌else◌, [], String, ◌≡◌, ◌∷◌, Bool, refl, str_eq,
  eq_iff, ◌&&◌, ◌==◌, ℕ, Bool-cases, inl, inr, ap, sym,
}
use peikonpurekkusu_account.Schema.{Payload, Bytes, number, Value, text, float, Time}
use peikonpurekkusu_account.Events.Framing.{
  unframe, frame, EnvelopeJson, Envelope, frame_payload, split_frame, put_uint32, to_uint32,
}
use peikonpurekkusu_account.Events.RoundTrip.{
  IsFaithfulJson, unframe-frame, ReadsValue, Reads, payload_value,
}
use peikonpurekkusu_account.Prelude.Int.{pos, negsuc}
use mathlib.Core.Path.{subst}

-- What a writer puts into the payload of a capture, and what a reader gets: a decoded map has its
-- keys in another order, and its number is the float64 250.
abbrev sent : Payload
sent = ("amount_minor", number (pos 250)) ∷ ("account_id", text "a-1") ∷ []

abbrev received : Payload
received = ("account_id", text "a-1") ∷ ("amount_minor", float 0x406f400000000000) ∷ []

abbrev envelope : ℕ → Time → Payload → Envelope
envelope version time payload = record {
  event_id = "e-1";
  event_type = "accounts.funds.captured.v1";
  schema_version = version;
  occurred_at = time;
  tenant_id = "peikon";
  correlation_id = "c-1";
  causation_id = none;
  idempotency_key = none;
  payload = payload;
}

abbrev is_absent : Option String → Bool
is_absent none = true
is_absent (some _) = false

abbrev is_amount : String × Value → Bool
is_amount (k, number (pos n)) = str_eq k "amount_minor" && n == 250
is_amount (k, _) = false

abbrev is_account : String × Value → Bool
is_account (k, text s) = str_eq k "account_id" && str_eq s "a-1"
is_account (k, _) = false

abbrev is_sent : Payload → Bool
is_sent (a ∷ b ∷ []) = is_amount a && is_account b
is_sent _ = false

abbrev is_envelope : Envelope → Bool
is_envelope e =
    (str_eq e.event_id "e-1" && str_eq e.event_type "accounts.funds.captured.v1")
    && ((str_eq e.tenant_id "peikon" && str_eq e.correlation_id "c-1")
        && (is_absent e.causation_id && (is_absent e.idempotency_key && is_sent e.payload)))

abbrev parse : Bytes → Option Envelope
parse (_ ∷ version ∷ time ∷ _) = some (envelope version time received)
parse _ = none

-- A JSON form for the envelopes of this shape, whatever their version and time.
abbrev pub capture_json : EnvelopeJson
capture_json = record {
  marshal =
      λ e. if is_envelope e then some (123 ∷ e.schema_version ∷ e.occurred_at ∷ 125 ∷ []) else none;
  unmarshal = parse;
}

only_none : (o : Option String) → is_absent o ≡ true → o ≡ none
only_none none e = refl
only_none (some s) e = cc

only_amount : (p : String × Value) → is_amount p ≡ true → p ≡ ("amount_minor", number (pos 250))
only_amount (k, number (pos n)) e = ground (arith, e, eq_iff k "amount_minor")
only_amount (k, number (negsuc n)) e = cc
only_amount (k, text s) e = cc
only_amount (k, float n) e = cc

only_account : (p : String × Value) → is_account p ≡ true → p ≡ ("account_id", text "a-1")
only_account (k, text s) e = ground (arith, e, eq_iff k "account_id", eq_iff s "a-1")
only_account (k, number n) e = cc
only_account (k, float n) e = cc

only_sent : (p : Payload) → is_sent p ≡ true → p ≡ sent
only_sent [] e = cc
only_sent (a ∷ []) e = cc
only_sent (a ∷ b ∷ []) e = ground (arith, only_amount a, only_account b)
only_sent (a ∷ b ∷ c ∷ p) e = cc

sent-received : (key : String) → ReadsValue (payload_value key sent) (payload_value key received)
sent-received key = elim (Bool-cases (str_eq "amount_minor" key)) [
  | inl amount ↦ elim (Bool-cases (str_eq "account_id" key)) [
    | inl account ↦
        let same : str_eq "account_id" "amount_minor" ≡ true =
          subst (λ k. str_eq "account_id" k ≡ true) (sym ((eq_iff "amount_minor" key).0 amount))
            account in
        absurd cc
    | inr other ↦ rw (amount, other) (0x406f400000000000, refl)
  ]
  | inr other ↦ elim (Bool-cases (str_eq "account_id" key)) [
    | inl account ↦ rw (other, account) refl
    | inr neither ↦ rw (other, neither) refl
  ]
]

-- An envelope that is written has this shape.
written :
    (env : Envelope) (body : Bytes)
    → capture_json.marshal env ≡ some body
    → (is_envelope env ≡ true) × (123 ∷ env.schema_version ∷ env.occurred_at ∷ 125 ∷ [] ≡ body)
written env body e = (ground arith, ground arith)

read_back :
    (env : Envelope)
    → is_envelope env ≡ true
    → Reads env (envelope env.schema_version env.occurred_at received)
read_back env e = record {
  event_id = ground (arith, e, eq_iff env.event_id "e-1");
  event_type = ground (arith, e, eq_iff env.event_type "accounts.funds.captured.v1");
  schema_version = refl;
  occurred_at = refl;
  tenant_id = ground (arith, e, eq_iff env.tenant_id "peikon");
  correlation_id = ground (arith, e, eq_iff env.correlation_id "c-1");
  causation_id = sym (only_none env.causation_id (ground (arith, e)));
  idempotency_key = sym (only_none env.idempotency_key (ground (arith, e)));
  payload = λ key.
      subst (λ p. ReadsValue (payload_value key p) (payload_value key received))
        (sym (only_sent env.payload (ground (arith, e)))) (sent-received key);
}

capture_json-IsFaithfulJson : IsFaithfulJson capture_json
capture_json-IsFaithfulJson = record {
  reads = λ env body e.
      let (shape, text_of) = written env body e in
      (
        envelope env.schema_version env.occurred_at received,
        ap parse (sym text_of),
        read_back env shape,
      );
  not_empty = λ env e. ground (arith, e);
}

abbrev framed : Bytes
framed = 0 ∷ 0 ∷ 0 ∷ 1 ∷ 44 ∷ 123 ∷ 1 ∷ 90 ∷ 125 ∷ []

runs_frame : frame capture_json (pos 300) (envelope 1 90 sent) ≡ some framed
unfolding frame frame_payload put_uint32 to_uint32
runs_frame = refl

unframe-frame_example :
    ((read : Envelope) × (unframe capture_json framed ≡ some read)
      × Reads (envelope 1 90 sent) read)
    × ((body : Bytes) × (capture_json.marshal (envelope 1 90 sent) ≡ some body)
        × (split_frame framed ≡ some (record { schema_id = pos 300; body = body })))
unframe-frame_example =
    unframe-frame capture_json (pos 300) (envelope 1 90 sent) framed capture_json-IsFaithfulJson
      (omega arith) (λ e. ground (arith, e, eq_iff "e-1" ""))
      (λ e. ground (arith, e, eq_iff "accounts.funds.captured.v1" "")) runs_frame
