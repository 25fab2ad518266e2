-- ===== src/Consumer/Once.antt =====
-- The idempotency gate of `handle` in internal/consumer/consumer.go.
use peikonpurekkusu_account.Prelude.{
  ◌≡◌, Bool, Option-cases, Bool-cases, inl, str_eq, arith, inr, ◌∷◌, ap, true, ◌∙◌,
}
use peikonpurekkusu_account.Schema.{Runtime, Store, Uuid}
use peikonpurekkusu_account.Prelude.Int.{ℤ}
use peikonpurekkusu_account.Consumer.Handlers.{
  handle_event, on_user_registered, dispatch, on_payment_failed, seen, provision, payload_text,
  topic_registered, default_currency, topic_pay_failed,
}
use peikonpurekkusu_account.Ledger.Operations.{release_by_payment, release}
use peikonpurekkusu_account.Events.Framing.{Envelope}
use peikonpurekkusu_account.Tx.{ok, Result-cases}
use peikonpurekkusu_account.Consumer.Provision.{provision-eq-ok, with_account}
use peikonpurekkusu_account.Sql.Holds.{active_hold_of}
use peikonpurekkusu_account.Ledger.Effects.{deposit-eq-ok, release-eq-ok}

-- What an event's effect does leave alone: the record of the events.
abbrev pub SameEvents : Store → Store → Type 0
SameEvents s t = t.processed_events ≡ s.processed_events

module _ (x : Runtime) (seed : ℤ) where
  provision-SameEvents :
      (user : Uuid) (s t : Store) → provision x seed user s ≡ ok (tt, t) → SameEvents s t
  provision-SameEvents user s t e =
      let (new, cases) = provision-eq-ok x seed user s e in
      elim cases [
        | inl (paid, d) ↦
            let (f, done) =
              deposit-eq-ok x (x.fresh s.drawn) seed default_currency _ (with_account x user s) d in
            done.processed
        | inr (unpaid, same) ↦ ap (λ (r : Store). r.processed_events) same
      ]

  on_user_registered-SameEvents :
      (env : Envelope) (s t : Store) → on_user_registered x seed env s ≡ ok (tt, t) → SameEvents s t
  unfolding on_user_registered
  on_user_registered-SameEvents env s t e =
      elim (Option-cases (x.uuid_parse (payload_text "user_id" env.payload))) [
        | inl unreadable ↦ absurd (ground arith)
        | inr (user, parsed) ↦ provision-SameEvents user s t (ground arith)
      ]

  release_by_payment-SameEvents :
      (payment : Uuid) (r : Bool) (s t : Store)
      → release_by_payment x payment "compensation" s ≡ ok (r, t)
      → SameEvents s t
  unfolding release_by_payment
  release_by_payment-SameEvents payment r s t e =
      elim (Option-cases (active_hold_of payment s.holds)) [
        | inl nothing ↦ ground arith
        | inr (id, found) ↦ elim (Result-cases (release x id "compensation" s)) [
          | inl ((u, t'), done) ↦
              let (h, d) = release-eq-ok x id "compensation" s done in ground (arith, d.processed)
          | inr (f, failed) ↦ absurd (ground arith)
        ]
      ]

  on_payment_failed-SameEvents :
      (env : Envelope) (s t : Store) → on_payment_failed x env s ≡ ok (tt, t) → SameEvents s t
  unfolding on_payment_failed
  on_payment_failed-SameEvents env s t e =
      elim (Option-cases (x.uuid_parse (payload_text "payment_id" env.payload))) [
        | inl unreadable ↦ absurd (ground arith)
        | inr (payment, parsed) ↦
            elim (Result-cases (release_by_payment x payment "compensation" s)) [
              | inl ((r, t'), done) ↦
                  ground (arith, release_by_payment-SameEvents payment r s t' done)
              | inr (f, failed) ↦ absurd (ground arith)
            ]
      ]

  dispatch-SameEvents :
      (env : Envelope) (s t : Store) → dispatch x seed env s ≡ ok (tt, t) → SameEvents s t
  unfolding dispatch
  dispatch-SameEvents env s t e = elim (Bool-cases (str_eq env.event_type topic_registered)) [
    | inl registered ↦ on_user_registered-SameEvents env s t (ground arith)
    | inr other ↦ elim (Bool-cases (str_eq env.event_type topic_pay_failed)) [
      | inl failed ↦ on_payment_failed-SameEvents env s t (ground arith)
      | inr another ↦ ground arith
    ]
  ]

  -- The event is recorded.
  pub seen-handle_event :
      (id : Uuid) (env : Envelope) (s t : Store)
      → handle_event x seed id env s ≡ ok (tt, t)
      → seen id t.processed_events ≡ true
  unfolding handle_event seen
  seen-handle_event id env s t e = elim (Bool-cases (seen id s.processed_events)) [
    | inl old ↦ ground arith
    | inr new ↦
        let marked : Store = record s { processed_events = id ∷ s.processed_events } in
        let same : t.processed_events ≡ id ∷ s.processed_events =
          dispatch-SameEvents env marked t (ground arith) in
        ground arith
  ]

  -- A recorded event is left alone.
  pub handle_event_seen :
      (id : Uuid) (env : Envelope) (u : Store)
      → seen id u.processed_events ≡ true
      → handle_event x seed id env u ≡ ok (tt, u)
  unfolding handle_event
  handle_event_seen id env u e = ground (arith, e)

  -- An event that was handled is recorded, and a later delivery of an event with the same id, on
  -- any store that keeps the record, changes nothing.
  pub handle_event_once :
      (id : Uuid) (env env' : Envelope) (s t u : Store)
      → handle_event x seed id env s ≡ ok (tt, t)
      → SameEvents t u
      → handle_event x seed id env' u ≡ ok (tt, u)
  handle_event_once id env env' s t u e kept =
      handle_event_seen id env' u (ap (λ ids. seen id ids) kept ∙ seen-handle_event id env s t e)
