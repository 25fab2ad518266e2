-- ===== src/Gateway/Keys.antt =====
-- Which attempt gives the keys of the verifier.
use peikonpurekkusu_account.Prelude.{
  ℕ, ◌+◌, Bool, true, false, Option, none, some, ◌≡◌, ◌<◌, ◌≤◌, ◌⊎◌, inr, suc, arith, ◌↔◌, zero,
  Bool-cases, ◌∙◌, refl, ◌==◌, ap, inl, sym,
}
use peikonpurekkusu_account.Gateway.{attempts_from, new_verifier, try_key, NewError}

module _ {ℓ} {K : Type ℓ} (fetch_keys : ℕ → Option K) (is_stopped : ℕ → Bool) where
  -- The attempt `m` is the first one from `a` on that succeeds, and nothing stops the ones before
  -- it.
  pub record IsFirst (a m : ℕ) (k : K) : Type ℓ where
    pub from : a ≤ m
    pub succeeds : fetch_keys m ≡ some k
    pub earlier : (i : ℕ) → a ≤ i → i < m → (fetch_keys i ≡ none) × (is_stopped i ≡ false)

  try_key-IsFirst :
      (n a : ℕ) (k : K) (got : Option K) (stop : Bool) (rest : NewError ⊎ K)
      → fetch_keys a ≡ got
      → is_stopped a ≡ stop
      → (rest ≡ inr k → (m : ℕ) × (m < suc a + n) × IsFirst (suc a) m k)
      → try_key fetch_keys is_stopped got stop rest ≡ inr k
      → (m : ℕ) × (m < a + suc n) × IsFirst a m k
  try_key-IsFirst n a k (some k') stop rest g t later e = (
    a,
    omega arith,
    record {
      from = omega arith;
      succeeds = ground (arith, g, e);
      earlier = λ i low high. absurd (omega (arith, low, high));
    },
  )
  try_key-IsFirst n a k none true rest g t later e = absurd (ground (arith, e))
  try_key-IsFirst n a k none false rest g t later e =
      let (m, less, first) = later e in
      (
        m,
        omega arith,
        record {
          from = omega (arith, first.from);
          succeeds = first.succeeds;
          earlier = λ i low high. elim (Bool-cases (a == i)) [
            | inl here ↦
                let same : a ≡ i = ground arith in
                (ap fetch_keys (sym same) ∙ g, ap is_stopped (sym same) ∙ t)
            | inr beyond ↦ first.earlier i (ground (arith, low)) high
          ];
        },
      )

  attempts_from-IsFirst :
      (n a : ℕ) (k : K)
      → attempts_from fetch_keys is_stopped n a ≡ inr k
      → (m : ℕ) × (m < a + n) × IsFirst a m k
  unfolding attempts_from
  attempts_from-IsFirst zero a k e = absurd (ground (arith, e))
  attempts_from-IsFirst (suc n) a k e =
      try_key-IsFirst n a k (fetch_keys a) (is_stopped a)
        (attempts_from fetch_keys is_stopped n (suc a)) refl refl
        (λ f. attempts_from-IsFirst n (suc a) k f) e

  -- With the keys at the attempt `m`, and none and no stop before it, they are given.
  attempts_from_gives :
      (n a m : ℕ) (k : K)
      → m < a + n
      → IsFirst a m k
      → attempts_from fetch_keys is_stopped n a ≡ inr k
  unfolding attempts_from
  attempts_from_gives zero a m k h f = absurd (omega (arith, f.from))
  attempts_from_gives (suc n) a m k h f = elim (Bool-cases (a == m)) [
    | inl here ↦
        let same : a ≡ m = ground arith in
        ap
          (λ q.
            try_key fetch_keys is_stopped q (is_stopped a)
              (attempts_from fetch_keys is_stopped n (suc a)))
          (ap fetch_keys same ∙ f.succeeds)
    | inr later ↦
        let before : a < m = ground (arith, f.from) in
        let (fails, waits) = f.earlier a (omega arith) before in
        ap
          (λ q.
            try_key fetch_keys is_stopped q (is_stopped a)
              (attempts_from fetch_keys is_stopped n (suc a)))
          fails
        ∙ ap
            (λ q.
              try_key fetch_keys is_stopped none q (attempts_from fetch_keys is_stopped n (suc a)))
            waits
        ∙ attempts_from_gives n (suc a) m k (omega arith) (record {
          from = omega arith;
          succeeds = f.succeeds;
          earlier = λ i low high. f.earlier i (omega arith) high;
        })
  ]

  -- `New` gives keys exactly when one of the attempts 1 to 10 gets them, and they are those of the
  -- first such attempt; no attempt before it gets any, and the process is not stopped behind one.
  pub new_verifier-IsFirst :
      (k : K) → (new_verifier fetch_keys is_stopped ≡ inr k) ↔ ((m : ℕ) × (m ≤ 10) × IsFirst 1 m k)
  unfolding new_verifier
  new_verifier-IsFirst k = (
    λ e. let (m, less, first) = attempts_from-IsFirst 10 1 k e in (m, omega arith, first),
    λ (m, less, first). attempts_from_gives 10 1 m k (omega arith) first,
  )
