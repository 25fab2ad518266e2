-- ===== src/Events/Validate.antt =====
-- internal/events/validate.go. The registry's answer, the JSON parser and the schema library are
-- parameters; the cache of compiled schemas is the state.
use peikonpurekkusu_account.Prelude.{
  ℕ, Bool, Option, none, some, List, [], ◌∷◌, ◌==◌, if◌then◌else◌,
}
use peikonpurekkusu_account.Prelude.Int.{ℤ}
use peikonpurekkusu_account.Schema.{Bytes}
use peikonpurekkusu_account.Events.Framing.{split_frame}
use peikonpurekkusu_account.Ledger.Reconcile.{same_int}

pub data ValidateError : Type 0 where
  schema_invalid unknown_schema registry_unavailable : ValidateError

-- `client.Do`: no answer, or a status and a body.
pub data Answer : Type 0 where
  no_answer : Answer
  answer : ℕ → Bytes → Answer

-- The JSON decoder and the schema library: `decode_body` is the field "schema" of the answer,
-- `parse` is `jsonschema.UnmarshalJSON`, `add_and_compile` is `AddResource` and `Compile`.
pub record SchemaLibrary (Doc Schema : Type 0) : Type 0 where
  pub decode_body : Bytes → Option Bytes
  pub parse : Bytes → Option Doc
  pub add_and_compile : ℤ → Doc → Option Schema
  pub accepts : Schema → Doc → Bool

pub data Outcome (A : Type 0) : Type 0 where
  good : A → Outcome A
  bad : ValidateError → Outcome A

module _ {Doc Schema : Type 0} (lib : SchemaLibrary Doc Schema) where
  abbrev pub Cache : Type 0
  Cache = List (ℤ × Schema)

  unfoldable pub cached : ℤ → List (ℤ × Schema) → Option Schema
  unfolding same_int
  cached id [] = none
  cached id ((i, s) ∷ rest) = if same_int i id then some s else cached id rest

  abbrev pub compile_doc : ℤ → Option Doc → Outcome Schema
  compile_doc id none = bad schema_invalid
  compile_doc id (some doc) = elim (lib.add_and_compile id doc) [
    | none ↦ bad schema_invalid
    | some schema ↦ good schema
  ]

  abbrev pub compile_body : ℤ → Option Bytes → Outcome Schema
  compile_body id none = bad registry_unavailable
  compile_body id (some text) = compile_doc id (lib.parse text)

  -- What `schema` makes of the registry's answer.
  unfoldable pub read_answer : ℤ → Answer → Outcome Schema
  read_answer id no_answer = bad registry_unavailable
  read_answer id (answer status body) =
      if status == 404
      then bad unknown_schema
      else if status == 200
      then compile_body id (lib.decode_body body)
      else bad registry_unavailable

  abbrev pub remember : ℤ → List (ℤ × Schema) → Outcome Schema → Outcome Schema × List (ℤ × Schema)
  remember id cache (good schema) = (good schema, (id, schema) ∷ cache)
  remember id cache (bad e) = (bad e, cache)

  -- `Validator.schema`: the cache, or the registry.
  unfoldable pub schema : Answer → ℤ → List (ℤ × Schema) → Outcome Schema × List (ℤ × Schema)
  unfolding cached read_answer
  schema a id cache = elim (cached id cache) [
    | some s ↦ (good s, cache)
    | none ↦ remember id cache (read_answer id a)
  ]

  abbrev pub check_doc : Schema → Option Doc → Option ValidateError
  check_doc s none = some schema_invalid
  check_doc s (some doc) = if lib.accepts s doc then none else some schema_invalid

  abbrev pub check_with :
      Bytes → Outcome Schema × List (ℤ × Schema) → Option ValidateError × List (ℤ × Schema)
  check_with body (bad e, cache) = (some e, cache)
  check_with body (good s, cache) = (check_doc s (lib.parse body), cache)

  -- `Validator.Validate`; the answer is what the registry would say if it is asked.
  unfoldable pub validate :
      Answer → Bytes → List (ℤ × Schema) → Option ValidateError × List (ℤ × Schema)
  unfolding split_frame schema
  validate a value cache = elim (split_frame value) [
    | none ↦ (some schema_invalid, cache)
    | some f ↦ check_with f.body (schema a f.schema_id cache)
  ]
