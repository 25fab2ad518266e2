-- ===== src/Ledger/Retry/Atomic.antt =====
-- What `in_tx` leaves behind, whatever the database does to the attempts.
use mathlib.Core.Path.{subst}
use peikonpurekkusu_account.Prelude.{
  sym, ℕ, zero, suc, ◌+◌, ◌≤◌, ◌<◌, ◌≡◌, refl, none, some, arith, Option-cases, inl, inr, ◌∙◌, ◌⊎◌,
}
use peikonpurekkusu_account.Schema.{Store}
use peikonpurekkusu_account.Tx.{
  SqlState, Error, Result, ok, err, Tx, other, Result-cases, pg, serialization_failure,
  deadlock_detected,
}
use peikonpurekkusu_account.Ledger.Retry.{
  Database, retriable, begin_tx, attempts, in_tx, max_attempts, pg,
}

-- The store that attempt k sees: what the others have committed up to it.
unfoldable pub seen_by : Database → ℕ → ℕ → Store → Store
seen_by d zero k s = s
seen_by d (suc n) k s = seen_by d n (suc k) (d.others k s)

-- One run of the body, the last of at most n attempts, committed on the store that it saw.
pub record Committed {A : Type 0} (d : Database) (body : Tx A) (n k : ℕ) (s : Store) (a : A)
    (t : Store) : Type 0 where
  pub attempt : ℕ
  pub bound : attempt < n
  pub index : ℕ
  pub index_eq : index ≡ k + attempt
  pub undisturbed : d.strike index ≡ none
  pub by_body : body (seen_by d (suc attempt) k s) ≡ ok (a, t)

-- No effect: the store is what the others have made of it in at most n attempts, and the error is
-- the exhaustion of the retries or the error of an attempt, which is no retriable one.
pub record RolledBack (d : Database) (n k : ℕ) (s : Store) (e : Error) (t : Store) : Type 0 where
  pub attempts : ℕ
  pub bound : attempts ≤ n
  pub untouched : t ≡ seen_by d attempts k s
  pub error_kind : (retriable e ≡ none)

abbrev pub Settled : {A : Type 0} → Database → Tx A → ℕ → ℕ → Store → Result A × Store → Type 0
Settled d body n k s (ok a, t) = Committed d body n k s a t
Settled d body n k s (err e, t) = RolledBack d n k s e t

module _ (d : Database) {A : Type 0} (body : Tx A) where
  Settled-later :
      (n k : ℕ) (s : Store) (r : Result A × Store)
      → Settled d body n (suc k) (d.others k s) r
      → Settled d body (suc n) k s r
  unfolding seen_by
  Settled-later n k s (ok a, t) c = record {
    attempt = suc c.attempt;
    bound = omega (arith, c.bound);
    index = c.index;
    index_eq = omega (arith, c.index_eq);
    undisturbed = c.undisturbed;
    by_body = c.by_body;
  }
  Settled-later n k s (err e, t) c = record {
    attempts = suc c.attempts;
    bound = omega (arith, c.bound);
    untouched = c.untouched;
    error_kind = c.error_kind;
  }

  begin_tx-eq-ok :
      (k : ℕ) (t : Store) {a : A} {u : Store}
      → begin_tx d body k t ≡ ok (a, u)
      → (d.strike k ≡ none) × (body t ≡ ok (a, u))
  unfolding begin_tx
  begin_tx-eq-ok k t e = ground arith

  module _ (n k : ℕ) (last : SqlState) (s : Store) where
    attempts_commit :
        {a : A} {u : Store}
        → begin_tx d body k (d.others k s) ≡ ok (a, u)
        → attempts d body (suc n) k last s ≡ (ok a, u)
    unfolding attempts
    attempts_commit e = rw (e, attempts)

    attempts_fail :
        {x : Error}
        → begin_tx d body k (d.others k s) ≡ err x
        → retriable x ≡ none
        → attempts d body (suc n) k last s ≡ (err x, d.others k s)
    unfolding attempts
    attempts_fail e final = rw (e, final, attempts)

    attempts_again :
        {x : Error} {c : SqlState}
        → begin_tx d body k (d.others k s) ≡ err x
        → retriable x ≡ some c
        → attempts d body (suc n) k last s ≡ attempts d body n (suc k) c (d.others k s)
    unfolding attempts
    attempts_again e again = rw (e, again, attempts)

  attempts-Settled :
      (n k : ℕ) (last : SqlState) (s : Store) → Settled d body n k s (attempts d body n k last s)
  unfolding attempts seen_by
  attempts-Settled zero k last s = record {
    attempts = 0;
    bound = omega arith;
    untouched = refl;
    error_kind = refl;
  }
  attempts-Settled (suc n) k last s = elim (Result-cases (begin_tx d body k (d.others k s))) [
    | inl ((a, u), e) ↦
        subst (Settled d body (suc n) k s) (sym (attempts_commit n k last s e)) (record {
          attempt = 0;
          bound = omega arith;
          index = k;
          index_eq = omega arith;
          undisturbed = (begin_tx-eq-ok k (d.others k s) e).0;
          by_body = (begin_tx-eq-ok k (d.others k s) e).1;
        })
    | inr (x, e) ↦ elim (Option-cases (retriable x)) [
      | inl final ↦
          subst (Settled d body (suc n) k s) (sym (attempts_fail n k last s e final))
            (record { attempts = 1; bound = omega arith; untouched = refl; error_kind = final })
      | inr (c, again) ↦
          subst (Settled d body (suc n) k s) (sym (attempts_again n k last s e again)) (
            Settled-later n k s (attempts d body n (suc k) c (d.others k s))
              (attempts-Settled n (suc k) c (d.others k s)))
    ]
  ]

  -- Whatever the other transactions commit and the database does to the attempts, a transaction
  -- either commits one run of its body, uninterrupted, on the store that the others have left, in
  -- one of five attempts; or it has no effect, the store being what the others have made of it, and
  -- returns an error that is no serialization failure and no deadlock of an attempt.
  pub in_tx-Settled : (s : Store) → Settled d body 5 0 s (in_tx d body s)
  unfolding in_tx
  in_tx-Settled s = attempts-Settled max_attempts 0 other s

  -- An attempt that the database ended with the code 40001 or 40P01.
  abbrev pub Conflicts : ℕ → Type 0
  Conflicts k = (d.strike k ≡ some serialization_failure) ⊎ (d.strike k ≡ some deadlock_detected)

  -- Such an attempt is made again.
  retriable-Conflicts :
      (k : ℕ) → Conflicts k → (c : SqlState) × (d.strike k ≡ some c) × (retriable (pg c) ≡ some c)
  unfolding retriable
  retriable-Conflicts k (inl e) = (serialization_failure, e, refl)
  retriable-Conflicts k (inr e) = (deadlock_detected, e, refl)

  attempts_recover :
      (j n k i : ℕ) (last : SqlState) (s : Store) {a : A} {t : Store}
      → i ≡ k + j
      → j < n
      → ((m : ℕ) → k ≤ m → m < i → Conflicts m)
      → d.strike i ≡ none
      → body (seen_by d (suc j) k s) ≡ ok (a, t)
      → attempts d body n k last s ≡ (ok a, t)
  unfolding seen_by begin_tx
  attempts_recover j zero k i last s ie lt conflicts calm e = absurd (omega arith)
  attempts_recover zero (suc n) k i last s ie lt conflicts calm e =
      let same : k ≡ i = omega arith in
      attempts_commit n k last s
        (let calm' : d.strike k ≡ none = rw same calm in rw (calm', begin_tx) e)
  attempts_recover (suc j) (suc n) k i last s ie lt conflicts calm e =
      let (c, struck, again) = retriable-Conflicts k (conflicts k (omega arith) (omega arith)) in
      attempts_again n k last s (rw (struck, begin_tx)) again
      ∙ attempts_recover j n (suc k) i c (d.others k s) (omega arith) (omega arith)
          (λ m low high. conflicts m (omega arith) high) calm e

  pub in_tx_recovers :
      (i : ℕ) (s : Store) {a : A} {t : Store}
      → i < 5
      → ((m : ℕ) → m < i → Conflicts m)
      → d.strike i ≡ none
      → body (seen_by d (suc i) 0 s) ≡ ok (a, t)
      → in_tx d body s ≡ (ok a, t)
  unfolding in_tx
  in_tx_recovers i s lt conflicts calm e =
      attempts_recover i max_attempts 0 i other s (omega arith) lt (λ m _ high. conflicts m high)
        calm e

  module _ {P : Store → Type 0} (others-P : (k : ℕ) (s : Store) → P s → P (d.others k s))
      (body-P : (s t : Store) (a : A) → P s → body s ≡ ok (a, t) → P t) where
    seen_by-P : (n k : ℕ) (s : Store) → P s → P (seen_by d n k s)
    unfolding seen_by
    seen_by-P zero k s p = p
    seen_by-P (suc n) k s p = seen_by-P n (suc k) (d.others k s) (others-P k s p)

    settled-P : (s : Store) (r : Result A × Store) → P s → Settled d body 5 0 s r → P r.1
    settled-P s (ok a, t) p c =
        body-P (seen_by d (suc c.attempt) 0 s) t a (seen_by-P (suc c.attempt) 0 s p) c.by_body
    settled-P s (err e, t) p c = subst P (sym c.untouched) (seen_by-P c.attempts 0 s p)

    -- What the other transactions keep and the body keeps when it succeeds, the transaction keeps.
    pub in_tx-preserves : (s : Store) → P s → P (in_tx d body s).1
    in_tx-preserves s p = settled-P s (in_tx d body s) p (in_tx-Settled s)
