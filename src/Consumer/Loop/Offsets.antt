-- ===== src/Consumer/Loop/Offsets.antt =====
-- When `Run` commits, and what a commit passes over.
use peikonpurekkusu_account.Prelude.{
  ℕ, ◌+◌, Bool, true, false, Option, none, some, List, [], ◌∷◌, ◌≡◌, ◌⊎◌, arith, ap, inl, ◌&&◌, inr,
  ◌∙◌, refl,
}
use peikonpurekkusu_account.Events.Validate.{SchemaLibrary}
use peikonpurekkusu_account.Consumer.Loop.{
  Poll, Client, run, run_round, Poll, records, then_run, conclude_batch, errors,
}
use peikonpurekkusu_account.Events.Framing.{EnvelopeJson}
use peikonpurekkusu_account.Schema.{Runtime}
use peikonpurekkusu_account.Prelude.Int.{ℤ}
use peikonpurekkusu_account.Consumer.Delivery.{run_batch, Delivery, World, handle_with_retry}
use peikonpurekkusu_account.Prelude.Lists.{length}

-- What the client documents: a poll moves the position behind its records, a commit that succeeds
-- commits the position, and one that fails leaves the offsets.
pub record IsClient {C : Type 0} (k : Client C) : Type 0 where
  pub polled : (n : ℕ) (c : C) → k.position (k.after_poll n c) ≡ k.position c + n
  pub kept : (n : ℕ) (c : C) → k.committed (k.after_poll n c) ≡ k.committed c
  pub commits :
      (c : C)
      → (k.commit_uncommitted c).0 ≡ true
      → k.committed (k.commit_uncommitted c).1 ≡ k.position c
  pub fails :
      (c : C)
      → (k.commit_uncommitted c).0 ≡ false
      → k.committed (k.commit_uncommitted c).1 ≡ k.committed c

module _ {Doc Schema : Type 0} (lib : SchemaLibrary Doc Schema) (json : EnvelopeJson) (x : Runtime)
    (seed : ℤ) where
  -- Every record of the batch is reported as settled, one after the other.
  abbrev pub AllSettled : List Delivery → World lib json x seed → World lib json x seed → Type 0
  AllSettled [] w w' = w ≡ w'
  AllSettled (v ∷ rest) w w' =
      (w₁ : World lib json x seed) × (handle_with_retry lib json x seed v.attempts v.published
          v.message w
        ≡ (some true, w₁))
      × AllSettled rest w₁ w'

  record_settled :
      (v : Delivery) (rest : List Delivery) (so_far : Bool) (w w' : World lib json x seed)
      → ((b : Bool) (w₁ : World lib json x seed)
          → run_batch lib json x seed rest b w₁ ≡ (some true, w')
          → (b ≡ true) × AllSettled rest w₁ w')
      → (q : Option Bool × World lib json x seed)
      → handle_with_retry lib json x seed v.attempts v.published v.message w ≡ q
      → ◌≡◌ {A = Option Bool × World lib json x seed}
          (elim q.0 [
            | none ↦ (none, q.1)
            | some b ↦ run_batch lib json x seed rest (so_far && b) q.1
          ])
          (some true, w')
      → (so_far ≡ true) × AllSettled (v ∷ rest) w w'
  record_settled v rest so_far w w' later (none, w₁) h e = absurd (ground (arith, ap (λ q. q.0) e))
  record_settled v rest so_far w w' later (some true, w₁) h e =
      let (b, others) = later (so_far && true) w₁ e in (ground (arith, b), (w₁, h, others))
  record_settled v rest so_far w w' later (some false, w₁) h e =
      let (b, others) = later (so_far && false) w₁ e in absurd (ground (arith, b))

  run_batch-AllSettled :
      (batch : List Delivery) (so_far : Bool) (w w' : World lib json x seed)
      → run_batch lib json x seed batch so_far w ≡ (some true, w')
      → (so_far ≡ true) × AllSettled batch w w'
  unfolding run_batch
  run_batch-AllSettled [] so_far w w' e = (ground (arith, ap (λ q. q.0) e), ap (λ q. q.1) e)
  run_batch-AllSettled (v ∷ rest) so_far w w' e =
      record_settled v rest so_far w w' (λ b w₁ f. run_batch-AllSettled rest b w₁ w' f)
        (handle_with_retry lib json x seed v.attempts v.published v.message w) refl e

  module _ {C : Type 0} (k : Client C) (lawful : IsClient k) where
    -- What a round leads to.
    abbrev pub Moves : Poll → C → World lib json x seed → C → World lib json x seed → Type 0
    Moves p c w c' w' =
        (k.committed c' ≡ k.committed c)
        ⊎ ((batch : List Delivery) × (p ≡ records batch)
            × AllSettled batch w w'
            × (k.committed c' ≡ k.position c + length batch))

    commit-Moves :
        (batch : List Delivery) (c : C) (w w' : World lib json x seed) (success : Bool)
        → AllSettled batch w w'
        → (k.commit_uncommitted (k.after_poll (length batch) c)).0 ≡ success
        → Moves (records batch) c w (k.commit_uncommitted (k.after_poll (length batch) c)).1 w'
    commit-Moves batch c w w' true settled e =
        let polled = k.after_poll (length batch) c in
        inr (batch, refl, settled, lawful.commits polled e ∙ lawful.polled (length batch) c)
    commit-Moves batch c w w' false settled e =
        let polled = k.after_poll (length batch) c in
        inl (lawful.fails polled e ∙ lawful.kept (length batch) c)

    conclude-Moves :
        (batch : List Delivery) (c : C) (w : World lib json x seed)
        (q : Option Bool × World lib json x seed)
        → run_batch lib json x seed batch true w ≡ q
        → (let st = (conclude_batch lib json x seed k q (k.after_poll (length batch) c)).1 in
            Moves (records batch) c w st.0 st.1)
    conclude-Moves batch c w (none, w₁) e = inl (lawful.kept (length batch) c)
    conclude-Moves batch c w (some false, w₁) e = inl (lawful.kept (length batch) c)
    conclude-Moves batch c w (some true, w₁) e =
        commit-Moves batch c w w₁ (k.commit_uncommitted (k.after_poll (length batch) c)).0
          (run_batch-AllSettled batch true w w₁ e).1 refl

    -- A round moves the committed offset only behind a batch of which every record is settled, and
    -- then to the end of the batch.
    pub run_round-Moves :
        (p : Poll) (c : C) (w : World lib json x seed)
        → (let st = (run_round lib json x seed k p (c, w)).1 in Moves p c w st.0 st.1)
    unfolding run_round
    run_round-Moves Poll.stopped c w = inl refl
    run_round-Moves (errors n) c w = inl (lawful.kept n c)
    run_round-Moves (records batch) c w =
        conclude-Moves batch c w (run_batch lib json x seed batch true w) refl

    round_ends :
        (batch : List Delivery) (c : C) (w : World lib json x seed)
        (q : Option Bool × World lib json x seed)
        → run_batch lib json x seed batch true w ≡ q
        → run_round lib json x seed k (records batch) (c, w)
          ≡ conclude_batch lib json x seed k q (k.after_poll (length batch) c)
    unfolding run_round
    round_ends batch c w q e =
        ap (λ b. conclude_batch lib json x seed k b (k.after_poll (length batch) c)) e

    -- A batch that is not settled is not committed, but the loop polls on: as soon as the next
    -- batch is settled and its commit succeeds, the committed offset is behind all records of the
    -- batch that was not.
    pub run_skips :
        (first second : List Delivery) (c : C) (w w₁ w₂ : World lib json x seed)
        → run_batch lib json x seed first true w ≡ (some false, w₁)
        → run_batch lib json x seed second true w₁ ≡ (some true, w₂)
        → (k.commit_uncommitted (k.after_poll (length second) (k.after_poll (length first) c))).0
          ≡ true
        → (k.committed (run lib json x seed k (records first ∷ []) (c, w)).1.0 ≡ k.committed c)
          × (k.committed (run lib json x seed k (records first ∷ records second ∷ []) (c, w)).1.0
              ≡ k.position c + length first + length second)
    unfolding run
    run_skips first second c w w₁ w₂ e f success =
        let mid = k.after_poll (length first) c in
        let end = k.after_poll (length second) mid in
        let stays = round_ends first c w (some false, w₁) e in
        let goes = round_ends second mid w₁ (some true, w₂) f in
        (
          ap (λ q. k.committed (then_run lib json x seed k (run lib json x seed k []) q).1.0) stays
              ∙ lawful.kept (length first) c,
          ap
                (λ q.
                  k.committed
                    (then_run lib json x seed k (run lib json x seed k (records second ∷ []))
                      q).1.0)
                stays
              ∙ ap (λ q. k.committed (then_run lib json x seed k (run lib json x seed k []) q).1.0)
                  goes
              ∙ lawful.commits end success
              ∙ omega (arith, lawful.polled (length second) mid, lawful.polled (length first) c),
        )
