-- ===== src/Service/Deliveries.antt =====
-- What a record of the consumer keeps.
use peikonpurekkusu_account.Prelude.{
  refl, ℕ, none, some, ◌≡◌, ⊤, Bool, Option, if◌then◌else◌, true, false, ◌⊎◌, suc, inl, inr, zero,
  sym,
}
use peikonpurekkusu_account.Tx.{Result, ok, err}
use peikonpurekkusu_account.Service.{Parts, Worlds}
use peikonpurekkusu_account.Schema.{Store, Uuid, Bytes}
use peikonpurekkusu_account.Ledger.Retry.{Database, in_tx}
use peikonpurekkusu_account.Service.Laws.{Laws, IsOwn, in_tx-Continues}
use peikonpurekkusu_account.Events.Framing.{Envelope, unframe}
use peikonpurekkusu_account.Consumer.Delivery.{
  finish, handle, Delivery, handle_with_retry, Attempt, dead_letter, verdict, try_handle, Handled,
  Cause, max_tries, handle_parsed, cancelled, failure, handle_envelope, buried, Checked, is_poison,
  done, handle_checked, holding, wait_for_schema,
}
use peikonpurekkusu_account.Consumer.Handlers.{handle_event}
use mathlib.Core.Path.{subst}
use peikonpurekkusu_account.Service.Bodies.{handle_event-Continues}

module _ {Doc Schema : Type 0} (p : Parts Doc Schema) (P : Store → Type 0) (Free : Uuid → Type 0)
    (laws : Laws p.runtime P Free) where
  module _ (d : Database) (own : IsOwn P d) (s : Store) (r : P s) where
    finish-state : (q : Result ⊤ × Store) → (finish q).1 ≡ q.1
    finish-state (ok a, t) = refl
    finish-state (err e, t) = refl

    handle_event_kept :
        (event_id : Uuid) (env : Envelope)
        → P (finish (in_tx d (handle_event p.runtime p.seed event_id env) s)).1
    handle_event_kept event_id env =
        let body = handle_event p.runtime p.seed event_id env in
        subst P (sym (finish-state (in_tx d body s))) (
          in_tx-Continues P d body s own
            (handle_event-Continues p.runtime P Free laws p.seed event_id env) r)

  handle_kept :
      (a : Attempt) (value : Bytes)
      → IsOwn P a.database
      → (w : Worlds p) → P w.state
      → P (handle p.library p.envelopes p.runtime p.seed a value w).1.state
  unfolding handle
  handle_kept a value own w r =
      go (wait_for_schema p.library p.envelopes p.runtime p.seed a.rounds value w.cache)
    where
      parsed :
          (env : Envelope) (id : Option Uuid)
          → P (handle_parsed p.library p.envelopes p.runtime p.seed a.database env id w.state).1
      parsed env none = r
      parsed env (some id) = handle_event_kept a.database own w.state r id env

      unframed :
          (env : Option Envelope)
          → P (handle_envelope p.library p.envelopes p.runtime p.seed a.database env w.state).1
      unframed none = r
      unframed (some env) = parsed env (p.runtime.uuid_parse env.event_id)

      go :
          (c : Checked p.library p.envelopes p.runtime p.seed)
          → P (handle_checked p.library p.envelopes p.runtime p.seed a value c w.state).1
      go (some h, cache) = r
      go (none, cache) = unframed (unframe p.envelopes value)

  module _ (v : Delivery) (own : (k : ℕ) → IsOwn P (v.attempts k).database) where
    buried_kept :
        (c : Cause) (w : Worlds p)
        → P w.state
        → P (dead_letter p.library p.envelopes p.runtime p.seed v.published v.message c w).1.state
    unfolding dead_letter
    buried_kept c w r = go v.published
      where
        go :
            (published : Bool)
            → P (dead_letter p.library p.envelopes p.runtime p.seed published v.message c w).1.state
        go true = r
        go false = r

    -- A verdict keeps the store, whether the record is settled or tried again.
    abbrev KeptVerdict : (Option Bool × Worlds p) ⊎ (Cause × Worlds p) → Type 0
    KeptVerdict (inl (b, w)) = P w.state
    KeptVerdict (inr (c, w)) = P w.state

    verdict_kept :
        (h : Handled × Worlds p)
        → P h.1.state
        → KeptVerdict (verdict p.library p.envelopes p.runtime p.seed v.published v.message h)
    unfolding verdict
    verdict_kept (done, w) r = r
    verdict_kept (holding, w) r = r
    verdict_kept (failure c, w) r = go (is_poison c)
      where
        go :
            (poison : Bool)
            → KeptVerdict (
                if poison
                then inl (
                    buried p.library p.envelopes p.runtime p.seed (
                      dead_letter p.library p.envelopes p.runtime p.seed v.published v.message c w))
                else inr (c, w))
        go true = buried_kept c w r
        go false = r

    try_handle_kept :
        (n k : ℕ) (last : Cause) (w : Worlds p)
        → P w.state
        → P
            (try_handle p.library p.envelopes p.runtime p.seed v.attempts v.published v.message n k
              last w).1.state
    unfolding try_handle
    try_handle_kept zero k last w r = buried_kept last w r
    try_handle_kept (suc n) k last w r =
        go (λ c w₁ q. try_handle_kept n (suc k) c w₁ q)
          (verdict p.library p.envelopes p.runtime p.seed v.published v.message
            (handle p.library p.envelopes p.runtime p.seed (v.attempts k) v.message.value w))
          (verdict_kept _ (handle_kept (v.attempts k) v.message.value (own k) w r))
      where
        go :
            ((c : Cause) (w₁ : Worlds p)
              → P w₁.state
              → P
                  (try_handle p.library p.envelopes p.runtime p.seed v.attempts v.published
                    v.message n
                    (suc k)
                    c
                    w₁).1.state)
            → (q : (Option Bool × Worlds p) ⊎ (Cause × Worlds p)) → KeptVerdict q
            → P
                (elim q as (λ q'. Option Bool × Worlds p) [
                  | inl r' ↦ r'
                  | inr (c, w₁) ↦
                      try_handle p.library p.envelopes p.runtime p.seed v.attempts v.published
                        v.message n
                        (suc k)
                        c
                        w₁
                ]).1.state
        go later (inl b) h = h
        go later (inr (c, w₁)) h = later c w₁ h

    pub handle_with_retry_kept :
        (w : Worlds p)
        → P w.state
        → P
            (handle_with_retry p.library p.envelopes p.runtime p.seed v.attempts v.published
              v.message w).1.state
    unfolding handle_with_retry
    handle_with_retry_kept w r = try_handle_kept max_tries 1 cancelled w r
