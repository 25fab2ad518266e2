-- ===== src/Service/Bodies.antt =====
-- The bodies of the service's transactions keep what the steps of the ledger keep.
use peikonpurekkusu_account.Prelude.{
  none, some, ◌∷◌, ◌≡◌, String, Option, if◌then◌else◌, sym, ⊤, Bool-cases, Option-cases, inl,
  str_eq, arith, inr,
}
use peikonpurekkusu_account.Schema.{Store, Runtime, Uuid, StoredResponse}
use peikonpurekkusu_account.Tx.{Tx, ok, >>=-eq-ok, ◌>>=◌, pure}
use peikonpurekkusu_account.Grpc.{
  Codec, release_action, hold_action, capture_action, idempotent, store, replay, Money, act_or,
  find_response,
}
use peikonpurekkusu_account.Prelude.Int.{ℤ}
use peikonpurekkusu_account.Ledger.Retry.{Database}
use peikonpurekkusu_account.Consumer.Handlers.{
  on_payment_failed, dispatch, on_user_registered, handle_event, payload_text, seen,
  topic_registered, topic_pay_failed,
}
use peikonpurekkusu_account.Events.Framing.{Envelope}
use mathlib.Core.Path.{subst}
use peikonpurekkusu_account.Ledger.Operations.{hold, release, release_by_payment, capture}
use peikonpurekkusu_account.Service.Laws.{Continues, Laws}

module _ (x : Runtime) (P : Store → Type 0) (Free : Uuid → Type 0) (laws : Laws x P Free) where
  same_kept : (s t : Store) → t ≡ s → P s → P t
  same_kept s t same q = subst P (sym same) q

  module _ {R : Type 0} (c : Codec R) (request_id method : String) where
    replay-eq-ok : (s t : Store) (hit : Option R) → replay c request_id s ≡ ok (hit, t) → t ≡ s
    unfolding replay
    replay-eq-ok s t hit e = elim (Option-cases (find_response request_id s.idempotency)) [
      | inl fresh ↦ ground arith
      | inr (body, found) ↦ elim (Option-cases (c.unmarshal body)) [
        | inl unreadable ↦ absurd (ground arith)
        | inr (r, reads) ↦ ground arith
      ]
    ]

    -- A response is stored for a request id that has none.
    store-eq-ok :
        (r : R) (s t : Store) (u : ⊤)
        → store c request_id method r s ≡ ok (u, t)
        → (row : StoredResponse) × (find_response row.request_id s.idempotency ≡ none)
          × (t ≡ record s { idempotency = row ∷ s.idempotency })
    unfolding store
    store-eq-ok r s t u e = elim (Option-cases (c.marshal r)) [
      | inl unreadable ↦ absurd (ground arith)
      | inr (body, written) ↦ elim (Option-cases (find_response request_id s.idempotency)) [
        | inl fresh ↦ (
          record { request_id = request_id; method = method; response = body },
          fresh,
          ground arith,
        )
        | inr (old, taken) ↦ absurd (ground arith)
      ]
    ]

    act_or-Continues :
        (act : Tx R) (hit : Option R)
        → Continues P act
        → Continues P (act_or c request_id method act hit)
    act_or-Continues act (some r) goes s t a q e = subst P (ground (arith, e)) q
    act_or-Continues act none goes s t a q e =
        let (r, s', acted, e') = >>=-eq-ok act _ s e in
        let (u, t', stored, e'') = >>=-eq-ok (store c request_id method r) _ s' e' in
        let (row, fresh, written) = store-eq-ok r s' t' u stored in
        same_kept t' t (ground arith)
          (same_kept _ t' written (laws.response_kept s' row fresh (goes s s' r q acted)))

    pub idempotent-Continues :
        (act : Tx R) → Continues P act → Continues P (idempotent c request_id method act)
    unfolding idempotent
    idempotent-Continues act goes s t a q e =
        let (hit, s', replayed, e') = >>=-eq-ok (replay c request_id) _ s e in
        act_or-Continues act hit goes s' t a (same_kept s s' (replay-eq-ok s s' hit replayed) q) e'

  module _ (d : Database) where
    pub hold_action-Continues :
        (account payment : Uuid) (amount : Money) (ttl : ℤ)
        → Free account
        → Continues P (hold_action x d account payment amount ttl)
    unfolding hold_action
    hold_action-Continues account payment amount ttl free s t a q e =
        let (r, s', acted, e') =
          >>=-eq-ok (hold x account payment amount.minor_units amount.currency_code ttl) _ s e in
        same_kept s' t (ground arith) (
          laws.hold_kept account payment amount.minor_units amount.currency_code ttl free s s' r q
            acted)

    pub capture_action-Continues :
        (id : Uuid) (amount : ℤ) → Continues P (capture_action x d id amount)
    unfolding capture_action
    capture_action-Continues id amount s t a q e =
        let (txn, s', acted, e') = >>=-eq-ok (capture x id amount) _ s e in
        same_kept s' t (ground arith) (laws.capture_kept id amount s s' txn q acted)

    pub release_action-Continues :
        (id : Uuid) (reason : String) → Continues P (release_action x d id reason)
    unfolding release_action
    release_action-Continues id reason s t a q e =
        let why = if str_eq reason "" then "compensation" else reason in
        let (u, s', acted, e') = >>=-eq-ok (release x id why) _ s e in
        same_kept s' t (ground arith) (laws.release_kept id why s s' u q acted)

  -- An event that is handled: the record of the event, and what it asks for.
  module _ (seed : ℤ) where
    on_user_registered-Continues : (env : Envelope) → Continues P (on_user_registered x seed env)
    unfolding on_user_registered
    on_user_registered-Continues env s t a q e =
        elim (Option-cases (x.uuid_parse (payload_text "user_id" env.payload))) [
          | inl unreadable ↦ absurd (ground arith)
          | inr (user, parsed) ↦ laws.provision_kept seed user s t a q (ground arith)
        ]

    on_payment_failed-Continues : (env : Envelope) → Continues P (on_payment_failed x env)
    unfolding on_payment_failed
    on_payment_failed-Continues env s t a q e =
        elim (Option-cases (x.uuid_parse (payload_text "payment_id" env.payload))) [
          | inl unreadable ↦ absurd (ground arith)
          | inr (payment, parsed) ↦
              let body : (release_by_payment x payment "compensation" >>= λ r. pure tt) s
                  ≡ ok (a, t) =
                ground arith in
              let (r, s', acted, e') =
                >>=-eq-ok (release_by_payment x payment "compensation") _ s body in
              same_kept s' t (ground arith)
                (laws.compensation_kept payment "compensation" s s' r q acted)
        ]

    dispatch-Continues : (env : Envelope) → Continues P (dispatch x seed env)
    unfolding dispatch
    dispatch-Continues env s t a q e = elim (Bool-cases (str_eq env.event_type topic_registered)) [
      | inl registered ↦ on_user_registered-Continues env s t a q (ground arith)
      | inr other_topic ↦ elim (Bool-cases (str_eq env.event_type topic_pay_failed)) [
        | inl failed ↦ on_payment_failed-Continues env s t a q (ground arith)
        | inr unknown ↦ same_kept s t (ground arith) q
      ]
    ]

    pub handle_event-Continues :
        (event_id : Uuid) (env : Envelope) → Continues P (handle_event x seed event_id env)
    unfolding handle_event
    handle_event-Continues event_id env s t a q e =
        elim (Bool-cases (seen event_id s.processed_events)) [
          | inl old ↦ same_kept s t (ground arith) q
          | inr new ↦
              let mid = record s { processed_events = event_id ∷ s.processed_events } in
              dispatch-Continues env mid t a (laws.event_kept s event_id q) (ground arith)
        ]
