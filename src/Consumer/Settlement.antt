-- ===== src/Consumer/Settlement.antt =====
-- `handleWithRetry` of internal/consumer/consumer.go: what becomes of a record.
use mathlib.Core.Path.{subst, ap, sym}
use peikonpurekkusu_account.Prelude.{
  ℕ, zero, suc, true, false, none, some, Bool, Option, ◌≤◌, ◌<◌, ◌+◌, ◌≡◌, ◌⊎◌, ◌∷◌, refl, ◌∙◌, inr,
  ap, inl, arith, Bool-cases, sym,
}
use peikonpurekkusu_account.Events.Validate.{SchemaLibrary}
use peikonpurekkusu_account.Events.Framing.{EnvelopeJson}
use peikonpurekkusu_account.Schema.{Runtime}
use peikonpurekkusu_account.Prelude.Int.{ℤ}
use peikonpurekkusu_account.Consumer.Delivery.{
  Attempt, Message, World, handle, done, Cause, dead_letter_message, dead_letter, try_handle,
  holding, failure, is_poison, buried, verdict, Handled, handle_with_retry, cancelled,
}

module _ {Doc Schema : Type 0} (lib : SchemaLibrary Doc Schema) (json : EnvelopeJson) (x : Runtime)
    (seed : ℤ) (attempts : ℕ → Attempt) (published : Bool) (rec : Message) where
  abbrev Worlds : Type 0
  Worlds = World lib json x seed

  handle-dead_letters :
      (a : Attempt) (w : Worlds)
      → (handle lib json x seed a rec.value w).1.dead_letters ≡ w.dead_letters
  unfolding handle
  handle-dead_letters a w = refl

  -- The call of `handle` in which a record was handled: a try from k on, of n.
  pub record HandledBy (n k : ℕ) (w' : Worlds) : Type 0 where
    pub index : ℕ
    pub before : Worlds
    pub from : k ≤ index
    pub below : index < k + n
    pub finished : handle lib json x seed (attempts index) rec.value before ≡ (done, w')

  -- What became of a record after n tries from k on: a settled one was handled with no dead letter,
  -- or published as a dead letter; an unsettled one could not be published; one that is still held
  -- has no dead letter.
  abbrev pub Fate : ℕ → ℕ → Worlds → Option Bool × Worlds → Type 0
  Fate n k w (some true, w') =
      (HandledBy n k w' × (w'.dead_letters ≡ w.dead_letters))
      ⊎ ((c : Cause) × (published ≡ true)
          × (w'.dead_letters ≡ dead_letter_message w'.state.clock rec c ∷ w.dead_letters))
  Fate n k w (some false, w') = (published ≡ false) × (w'.dead_letters ≡ w.dead_letters)
  Fate n k w (none, w') = w'.dead_letters ≡ w.dead_letters

  Fate-later :
      (n k : ℕ) (w w₁ : Worlds) (r : Option Bool × Worlds)
      → w₁.dead_letters ≡ w.dead_letters
      → Fate n (suc k) w₁ r
      → Fate (suc n) k w r
  Fate-later n k w w₁ (none, w') same f = f ∙ same
  Fate-later n k w w₁ (some false, w') same f = (f.0, f.1 ∙ same)
  Fate-later n k w w₁ (some true, w') same (inr (c, p, e)) =
      inr (c, p, e ∙ ap (λ l. dead_letter_message w'.state.clock rec c ∷ l) same)
  Fate-later n k w w₁ (some true, w') same (inl (h, e)) = inl (
    record {
      index = h.index;
      before = h.before;
      from = omega (arith, h.from);
      below = omega (arith, h.below);
      finished = h.finished;
    },
    e ∙ same,
  )

  dead_letter-Fate :
      (p : Bool) (n k : ℕ) (c : Cause) (w w₁ : Worlds)
      → p ≡ published
      → w₁.dead_letters ≡ w.dead_letters
      → Fate n k w (buried lib json x seed (dead_letter lib json x seed p rec c w₁))
  unfolding dead_letter
  dead_letter-Fate true n k c w w₁ e same =
      inr (c, sym e, ap (λ l. dead_letter_message w₁.state.clock rec c ∷ l) same)
  dead_letter-Fate false n k c w w₁ e same = (sym e, same)

  Step-Fate :
      (n k : ℕ) (w : Worlds) (h : Handled × Worlds)
      → handle lib json x seed (attempts k) rec.value w ≡ h
      → h.1.dead_letters ≡ w.dead_letters
      → (r : Option Bool × Worlds) → verdict lib json x seed published rec h ≡ inl r
      → Fate (suc n) k w r
  unfolding verdict
  Step-Fate n k w (done, w₁) e same r v =
      let last : (some true, w₁) ≡ r = ground (arith, v) in
      subst (Fate (suc n) k w) last (
        inl (
          record { index = k; before = w; from = omega arith; below = omega arith; finished = e },
          same,
        ))
  Step-Fate n k w (holding, w₁) e same r v =
      let last : (none, w₁) ≡ r = ground (arith, v) in subst (Fate (suc n) k w) last same
  Step-Fate n k w (failure c, w₁) e same r v = elim (Bool-cases (is_poison c)) [
    | inl poison ↦
        let last : buried lib json x seed (dead_letter lib json x seed published rec c w₁) ≡ r =
          ground (arith, v) in
        subst (Fate (suc n) k w) last (dead_letter-Fate published (suc n) k c w w₁ refl same)
    | inr transient ↦ absurd (ground (arith, v))
  ]

  verdict-dead_letters :
      (h : Handled × Worlds) (c : Cause) (w₁ : Worlds)
      → verdict lib json x seed published rec h ≡ inr (c, w₁)
      → w₁.dead_letters ≡ h.1.dead_letters
  unfolding verdict
  verdict-dead_letters (done, w) c w₁ v = absurd (ground (arith, v))
  verdict-dead_letters (holding, w) c w₁ v = absurd (ground (arith, v))
  verdict-dead_letters (failure c', w) c w₁ v = ground (arith, v)

  module _ (n k : ℕ) (last : Cause) (w : Worlds) where
    tries_end :
        (r : Option Bool × Worlds)
        → verdict lib json x seed published rec (handle lib json x seed (attempts k) rec.value w)
          ≡ inl r
        → try_handle lib json x seed attempts published rec (suc n) k last w ≡ r
    unfolding try_handle
    tries_end r e = rw (e, try_handle)

    tries_again :
        (c : Cause) (w₁ : Worlds)
        → verdict lib json x seed published rec (handle lib json x seed (attempts k) rec.value w)
          ≡ inr (c, w₁)
        → try_handle lib json x seed attempts published rec (suc n) k last w
          ≡ try_handle lib json x seed attempts published rec n (suc k) c w₁
    unfolding try_handle
    tries_again c w₁ e = rw (e, try_handle)

  try_handle-Fate :
      (n k : ℕ) (last : Cause) (w : Worlds)
      → Fate n k w (try_handle lib json x seed attempts published rec n k last w)
  unfolding try_handle
  try_handle-Fate zero k last w = dead_letter-Fate published zero k last w w refl refl
  try_handle-Fate (suc n) k last w =
      go (λ c w₁. try_handle-Fate n (suc k) c w₁) (verdict lib json x seed published rec h) refl
    where
      h : Handled × Worlds
      h = handle lib json x seed (attempts k) rec.value w

      go :
          ((c : Cause) (w₁ : Worlds)
            → Fate n (suc k) w₁ (try_handle lib json x seed attempts published rec n (suc k) c w₁))
          → (v : (Option Bool × Worlds) ⊎ (Cause × Worlds))
          → verdict lib json x seed published rec h ≡ v
          → Fate (suc n) k w (try_handle lib json x seed attempts published rec (suc n) k last w)
      go later (inl r) v =
          subst (Fate (suc n) k w) (sym (tries_end n k last w r v))
            (Step-Fate n k w h refl (handle-dead_letters (attempts k) w) r v)
      go later (inr (c, w₁)) v = subst (Fate (suc n) k w) (sym (tries_again n k last w c w₁ v)) (
          Fate-later n k w w₁ (try_handle lib json x seed attempts published rec n (suc k) c w₁)
            (verdict-dead_letters h c w₁ v ∙ handle-dead_letters (attempts k) w) (later c w₁))

  -- Whatever the registry, the database and the producer do: a record that is reported as settled
  -- was handled without an error in one of three tries and has no dead letter, or was published as
  -- a dead letter; one that is reported as unsettled could not be published; and one that is still
  -- held has no dead letter.
  pub handle_with_retry-Fate :
      (w : Worlds) → Fate 3 1 w (handle_with_retry lib json x seed attempts published rec w)
  unfolding handle_with_retry
  handle_with_retry-Fate w = try_handle-Fate 3 1 cancelled w
