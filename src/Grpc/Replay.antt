-- ===== src/Grpc/Replay.antt =====
-- `replay` and `store` of internal/grpcapi/server.go: idempotency on the request id.
use mathlib.Core.Path.{subst}
use peikonpurekkusu_account.Prelude.{
  ⊤, suc, ◌≡◌, String, eq_refl, none, some, arith, Option-cases, inl, inr, ap, sym, ◌∙◌,
}
use peikonpurekkusu_account.Schema.{Bytes, Store}
use peikonpurekkusu_account.Tx.{Tx, ok, err, bad_response, >>=-eq-ok, ◌>>=◌}
use peikonpurekkusu_account.Ledger.Retry.{Database, in_tx}
use peikonpurekkusu_account.Ledger.Retry.Atomic.{
  in_tx-Settled, Committed, seen_by, in_tx_recovers, Settled,
}
use peikonpurekkusu_account.Grpc.{Codec, act_or, decode, find_response, replay, store, idempotent}

-- What the generated code promises: a marshalled message is read back.
abbrev pub IsFaithful : {R : Type 0} → Codec R → Type 0
IsFaithful {R} c = (r : R) (body : Bytes) → c.marshal r ≡ some body → c.unmarshal body ≡ some r

-- The request id has a stored response that reads back as `r`.
pub record Stored {R : Type 0} (c : Codec R) (request_id : String) (r : R) (s : Store)
    : Type 0 where
  pub body : Bytes
  pub found : find_response request_id s.idempotency ≡ some body
  pub reads : c.unmarshal body ≡ some r

module _ {R : Type 0} (c : Codec R) (request_id method : String) (act : Tx R) where
  -- With a stored response the action is not run.
  idempotent_hit :
      (s : Store) (r : R)
      → Stored c request_id r s
      → idempotent c request_id method act s ≡ ok (r, s)
  unfolding idempotent replay
  idempotent_hit s r h = ground (arith, h.found, h.reads)

  idempotent_unreadable :
      (s : Store) (body : Bytes)
      → find_response request_id s.idempotency ≡ some body
      → c.unmarshal body ≡ none
      → idempotent c request_id method act s ≡ err bad_response
  unfolding idempotent replay
  idempotent_unreadable s body e f = ground arith

  store-eq-ok :
      (r : R) (s t : Store) (u : ⊤)
      → store c request_id method r s ≡ ok (u, t)
      → (body : Bytes) × (c.marshal r ≡ some body)
        × (find_response request_id t.idempotency ≡ some body)
  unfolding store find_response
  store-eq-ok r s t u e = elim (Option-cases (c.marshal r)) [
    | inl none_marshalled ↦ absurd (ground arith)
    | inr (body, marshalled) ↦ (body, marshalled, ground (arith, eq_refl request_id))
  ]

  act-Stored :
      (s t : Store) (r : R)
      → IsFaithful c
      → act_or c request_id method act none s ≡ ok (r, t)
      → Stored c request_id r t
  act-Stored s t r faithful e =
      let (r', s', _, e') = >>=-eq-ok act _ s e in
      let (u, t', stored, e'') = >>=-eq-ok (store c request_id method r') _ s' e' in
      let (body, marshalled, found) = store-eq-ok r' s' t' u stored in
      record {
        body = body;
        found = ground arith;
        reads = ground (arith, faithful r' body marshalled);
      }

  idempotent_fresh :
      (s : Store)
      → find_response request_id s.idempotency ≡ none
      → idempotent c request_id method act s ≡ act_or c request_id method act none s
  unfolding idempotent replay
  idempotent_fresh s fresh = ap (λ hit. (decode c hit >>= act_or c request_id method act) s) fresh

  -- After a success the response is stored.
  idempotent-Stored :
      (s t : Store) (r : R)
      → IsFaithful c
      → idempotent c request_id method act s ≡ ok (r, t)
      → Stored c request_id r t
  unfolding idempotent replay
  idempotent-Stored s t r faithful e =
      elim (Option-cases (find_response request_id s.idempotency)) [
        | inl fresh ↦ act-Stored s t r faithful (sym (idempotent_fresh s fresh) ∙ e)
        | inr (body, found) ↦ elim (Option-cases (c.unmarshal body)) [
          | inl unreadable ↦ absurd (ground arith)
          | inr (r', reads) ↦ record { body = body; found = ground arith; reads = ground arith }
        ]
      ]

-- The response that `t` keeps for the request id is the one that `u` keeps.
abbrev pub Keeps : String → Store → Store → Type 0
Keeps request_id t u =
    find_response request_id u.idempotency ≡ find_response request_id t.idempotency

module _ {R : Type 0} (c : Codec R) (faithful : IsFaithful c) (request_id method : String) where
  pub in_tx-Stored :
      (d : Database) (act : Tx R) (s t : Store) (r : R)
      → in_tx d (idempotent c request_id method act) s ≡ (ok r, t)
      → Stored c request_id r t
  in_tx-Stored d act s t r e =
      let settled : Committed d (idempotent c request_id method act) 5 0 s r t =
        subst (Settled d (idempotent c request_id method act) 5 0 s) e
          (in_tx-Settled d (idempotent c request_id method act) s) in
      idempotent-Stored c request_id method act (seen_by d (suc settled.attempt) 0 s) t r faithful
        settled.by_body

  pub in_tx_replays :
      (d d' : Database) (act act' : Tx R) (s t u : Store) (r : R)
      → in_tx d (idempotent c request_id method act) s ≡ (ok r, t)
      → d'.strike 0 ≡ none
      → Keeps request_id t (d'.others 0 u)
      → in_tx d' (idempotent c request_id method act') u ≡ (ok r, d'.others 0 u)
  unfolding seen_by
  in_tx_replays d d' act act' s t u r e calm keeps =
      let h = in_tx-Stored d act s t r e in
      in_tx_recovers d' (idempotent c request_id method act') 0 u (omega arith)
        (λ m lt. absurd (omega arith)) calm
        (idempotent_hit c request_id method act' (d'.others 0 u) r
          (record { body = h.body; found = keeps ∙ h.found; reads = h.reads }))
