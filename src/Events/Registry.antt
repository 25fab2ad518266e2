-- ===== src/Events/Registry.antt =====
-- `Registry` of internal/events/events.go: the schema id of a topic, from the cache or by a
-- request.
use peikonpurekkusu_account.Prelude.{
  ℕ, String, ◌<>◌, str_eq, Option, none, some, List, [], ◌∷◌, ◌==◌, if◌then◌else◌, ◌≡◌, arith,
  Option-cases, inl, inr, eq_refl, eq_iff,
}
use peikonpurekkusu_account.Prelude.Int.{ℤ}

-- The outcome of `client.Get`, and the field "id" that the JSON decoder reads from the body.
pub data Lookup : Type 0 where
  unreachable : Lookup
  answered : ℕ → Option ℤ → Lookup

-- `ids`: a later entry for a topic hides an earlier one.
abbrev pub Ids : Type 0
Ids = List (String × ℤ)

unfoldable pub known_id : String → Ids → Option ℤ
known_id topic [] = none
known_id topic ((t, id) ∷ rest) = if str_eq t topic then some id else known_id topic rest

-- The path of the request, behind the base URL.
unfoldable pub subject_path : String → String
subject_path topic = "/subjects/" <> topic <> "-value/versions/latest"

unfoldable pub read_lookup : Lookup → Option ℤ
read_lookup unreachable = none
read_lookup (answered status id) = if status == 200 then id else none

abbrev pub keep_id : String → Ids → Option ℤ → Option ℤ × Ids
keep_id topic ids none = (none, ids)
keep_id topic ids (some id) = (some id, (topic, id) ∷ ids)

-- `SchemaID`: the id, if there is no error, and the cache that is left. `ask` is the registry.
unfoldable pub schema_id : (String → Lookup) → String → Ids → Option ℤ × Ids
unfolding known_id read_lookup subject_path
schema_id ask topic ids = elim (known_id topic ids) [
  | some id ↦ (some id, ids)
  | none ↦ keep_id topic ids (read_lookup (ask (subject_path topic)))
]

known_id-schema_id :
    (ask : String → Lookup) (topic other_topic : String) (id : ℤ) (ids : Ids)
    → known_id topic ids ≡ some id
    → known_id topic (schema_id ask other_topic ids).1 ≡ some id
unfolding schema_id
known_id-schema_id ask topic other_topic id ids e = elim (Option-cases (known_id other_topic ids)) [
  | inl new ↦ elim (Option-cases (read_lookup (ask (subject_path other_topic)))) [
    | inl failed ↦ ground arith
    | inr (n, found) ↦ ground (arith, eq_iff other_topic topic)
  ]
  | inr (n, old) ↦ ground arith
]

known_id-after :
    (ask : String → Lookup) (topic : String) (id : ℤ) (ids ids' : Ids)
    → schema_id ask topic ids ≡ (some id, ids')
    → known_id topic ids' ≡ some id
unfolding schema_id
known_id-after ask topic id ids ids' e = elim (Option-cases (known_id topic ids)) [
  | inl new ↦ elim (Option-cases (read_lookup (ask (subject_path topic)))) [
    | inl failed ↦ absurd (ground arith)
    | inr (n, found) ↦ ground (arith, eq_refl topic)
  ]
  | inr (n, old) ↦ ground arith
]

-- The cache after any number of lookups of topics, whatever the registry answers.
unfoldable pub lookups : List (String × (String → Lookup)) → Ids → Ids
lookups [] ids = ids
lookups ((topic, ask) ∷ rest) ids = lookups rest (schema_id ask topic ids).1

known_id-lookups :
    (topic : String) (id : ℤ) (calls : List (String × (String → Lookup))) (ids : Ids)
    → known_id topic ids ≡ some id
    → known_id topic (lookups calls ids) ≡ some id
unfolding lookups
known_id-lookups topic id [] ids e = e
known_id-lookups topic id ((other_topic, ask) ∷ calls) ids e =
    known_id-lookups topic id calls (schema_id ask other_topic ids).1
      (known_id-schema_id ask topic other_topic id ids e)

-- Once `SchemaID` has answered for a topic, it gives the same id for the topic for ever and leaves
-- the cache as it is, after any lookups in between and whatever the registry answers to these and
-- to the later call.
pub schema_id_once :
    (ask ask' : String → Lookup) (topic : String) (id : ℤ) (ids ids' : Ids)
    (calls : List (String × (String → Lookup)))
    → schema_id ask topic ids ≡ (some id, ids')
    → schema_id ask' topic (lookups calls ids') ≡ (some id, lookups calls ids')
unfolding schema_id
schema_id_once ask ask' topic id ids ids' calls e =
    let known : known_id topic (lookups calls ids') ≡ some id =
      known_id-lookups topic id calls ids' (known_id-after ask topic id ids ids' e) in
    ground arith
