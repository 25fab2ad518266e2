-- ===== src/Events/Cached.antt =====
-- The cache of the validator (internal/events/validate.go) along any sequence of validations.
use peikonpurekkusu_account.Prelude.{
  none, some, List, [], ◌∷◌, ◌≡◌, arith, Option-cases, inl, inr, refl, ap, ◌∙◌, true, Bool-cases,
  sym,
}
use peikonpurekkusu_account.Prelude.Int.{ℤ, pos, negsuc}
use peikonpurekkusu_account.Events.Validate.{
  SchemaLibrary, schema, Answer, cached, good, validate, Outcome, remember, bad, read_answer,
  check_with, check_doc, schema_invalid,
}
use peikonpurekkusu_account.Ledger.Reconcile.{same_int}
use peikonpurekkusu_account.Schema.{Bytes}
use peikonpurekkusu_account.Events.Framing.{split_frame, Framed}

same_int-eq : (a b : ℤ) → same_int a b ≡ true → a ≡ b
unfolding same_int
same_int-eq (pos m) (pos n) e = ground (arith, e)
same_int-eq (negsuc m) (negsuc n) e = ground (arith, e)
same_int-eq (pos m) (negsuc n) e = cc
same_int-eq (negsuc m) (pos n) e = cc

same_int_refl : (a : ℤ) → same_int a a ≡ true
unfolding same_int
same_int_refl (pos n) = ground arith
same_int_refl (negsuc n) = ground arith

module _ {Doc Schema : Type 0} (lib : SchemaLibrary Doc Schema) where
  -- The validations of some values, each with what the registry would say.
  unfoldable pub validations : List (Answer × Bytes) → List (ℤ × Schema) → List (ℤ × Schema)
  validations [] cache = cache
  validations ((a, value) ∷ rest) cache = validations rest (validate lib a value cache).1

  cached-cons :
      (id : ℤ) (s : Schema) (cache : List (ℤ × Schema)) → cached lib id ((id, s) ∷ cache) ≡ some s
  unfolding cached
  cached-cons id s cache = rw (same_int_refl id) refl

  -- A new entry for an id that has none leaves the others.
  cached-new :
      (id id' : ℤ) (s s' : Schema) (cache : List (ℤ × Schema))
      → cached lib id cache ≡ some s
      → cached lib id' cache ≡ none
      → cached lib id ((id', s') ∷ cache) ≡ some s
  unfolding cached
  cached-new id id' s s' cache e new = elim (Bool-cases (same_int id' id)) [
    | inl same ↦
        let clash : some s ≡ none =
          sym e ∙ ap (λ i. cached lib i cache) (sym (same_int-eq id' id same)) ∙ new in
        absurd (ground (arith, clash))
    | inr differ ↦ rw differ e
  ]

  schema-hit :
      (a : Answer) (id : ℤ) (cache : List (ℤ × Schema)) (s : Schema)
      → cached lib id cache ≡ some s
      → schema lib a id cache ≡ (good s, cache)
  unfolding schema
  schema-hit a id cache s e = rw (e, schema) refl

  schema-miss :
      (a : Answer) (id : ℤ) (cache : List (ℤ × Schema))
      → cached lib id cache ≡ none
      → schema lib a id cache ≡ remember lib id cache (read_answer lib id a)
  unfolding schema
  schema-miss a id cache e = rw (e, schema) refl

  validate-short :
      (a : Answer) (value : Bytes) (cache : List (ℤ × Schema))
      → split_frame value ≡ none
      → validate lib a value cache ≡ (some schema_invalid, cache)
  unfolding validate
  validate-short a value cache e = rw (e, validate) refl

  validate-framed :
      (a : Answer) (value : Bytes) (cache : List (ℤ × Schema)) (f : Framed)
      → split_frame value ≡ some f
      → validate lib a value cache ≡ check_with lib f.body (schema lib a f.schema_id cache)
  unfolding validate
  validate-framed a value cache f e = rw (e, validate) refl

  remember-good :
      (id : ℤ) (cache cache' : List (ℤ × Schema)) (s : Schema) (o : Outcome Schema)
      → remember lib id cache o ≡ (good s, cache')
      → cached lib id cache' ≡ some s
  remember-good id cache cache' s (bad x) e = absurd (ground (arith, e))
  remember-good id cache cache' s (good s') e =
      let same : s' ≡ s = ground (arith, e) in
      let left : (id, s') ∷ cache ≡ cache' = ground (arith, e) in
      rw (← left) (cached-cons id s' cache ∙ ap (λ x. some x) same)

  schema-good :
      (a : Answer) (id : ℤ) (cache cache' : List (ℤ × Schema)) (s : Schema)
      → schema lib a id cache ≡ (good s, cache')
      → cached lib id cache' ≡ some s
  unfolding schema
  schema-good a id cache cache' s e = elim (Option-cases (cached lib id cache)) [
    | inr (s', old) ↦ ground (arith, e, old)
    | inl new ↦ remember-good id cache cache' s (read_answer lib id a) (ground (arith, e, new))
  ]

  cached-remember :
      (id id' : ℤ) (cache : List (ℤ × Schema)) (s : Schema) (o : Outcome Schema)
      → cached lib id cache ≡ some s
      → cached lib id' cache ≡ none
      → cached lib id (remember lib id' cache o).1 ≡ some s
  cached-remember id id' cache s (bad x) e new = e
  cached-remember id id' cache s (good s') e new = cached-new id id' s s' cache e new

  cached-schema :
      (a : Answer) (id id' : ℤ) (cache : List (ℤ × Schema)) (s : Schema)
      → cached lib id cache ≡ some s
      → cached lib id (schema lib a id' cache).1 ≡ some s
  unfolding schema
  cached-schema a id id' cache s e = elim (Option-cases (cached lib id' cache)) [
    | inr (s', old) ↦ rw (schema-hit a id' cache s' old) e
    | inl new ↦
        rw (schema-miss a id' cache new)
          (cached-remember id id' cache s (read_answer lib id' a) e new)
  ]

  -- Checking a document leaves the cache alone.
  cache-check_with :
      (body : Bytes) (q : Outcome Schema × List (ℤ × Schema)) → (check_with lib body q).1 ≡ q.1
  cache-check_with body (bad e, cache) = refl
  cache-check_with body (good s, cache) = refl

  cached-validations :
      (runs : List (Answer × Bytes)) (id : ℤ) (cache : List (ℤ × Schema)) (s : Schema)
      → cached lib id cache ≡ some s
      → cached lib id (validations runs cache) ≡ some s
  unfolding validations validate
  cached-validations [] id cache s e = e
  cached-validations ((a, value) ∷ rest) id cache s e =
      cached-validations rest id (validate lib a value cache).1 s
        (elim (Option-cases (split_frame value)) [
          | inl short ↦ rw (validate-short a value cache short) e
          | inr (f, framed) ↦
              rw
                (
                  validate-framed a value cache f framed,
                  cache-check_with f.body (schema lib a f.schema_id cache),
                )
                (cached-schema a id f.schema_id cache s e)
        ])

  accepted-schema :
      (body : Bytes) (cache' : List (ℤ × Schema)) (q : Outcome Schema × List (ℤ × Schema))
      → check_with lib body q ≡ (none, cache')
      → (s : Schema) × (q ≡ (good s, cache')) × (check_doc lib s (lib.parse body) ≡ none)
  accepted-schema body cache' (bad x, cache) e = absurd (ground (arith, e))
  accepted-schema body cache' (good s, cache) e = (s, ground (arith, e), ground (arith, e))

  -- A value that was accepted once is accepted again, whatever other values were validated in
  -- between and whatever the registry answers then and now.
  pub validate_once :
      (a a' : Answer) (value : Bytes) (cache cache' : List (ℤ × Schema))
      (runs : List (Answer × Bytes))
      → validate lib a value cache ≡ (none, cache')
      → validate lib a' value (validations runs cache') ≡ (none, validations runs cache')
  unfolding validate schema
  validate_once a a' value cache cache' runs e = elim (Option-cases (split_frame value)) [
    | inl short ↦ absurd (ground (arith, e, short))
    | inr (f, framed) ↦
        let (s, compiled, accepted) =
          accepted-schema f.body cache' (schema lib a f.schema_id cache)
            (ground (arith, e, framed)) in
        let kept =
          cached-validations runs f.schema_id cache' s
            (schema-good a f.schema_id cache cache' s compiled) in
        validate-framed a' value (validations runs cache') f framed
        ∙ ap (check_with lib f.body) (schema-hit a' f.schema_id (validations runs cache') s kept)
        ∙ ap (λ v. (v, validations runs cache')) accepted
  ]
