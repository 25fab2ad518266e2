-- ===== src/Outbox/Progress.antt =====
-- What the loop over a batch publishes.
use mathlib.Core.Path.{subst}
use mathlib.Core.List.{append-nil, append_assoc}
use peikonpurekkusu_account.Prelude.{
  ℕ, suc, none, some, ◌∷◌, [], List, Option, ◌≡◌, sym, ◌++◌, Option-cases, arith, inl, refl, inr,
  ◌∙◌, ap,
}
use peikonpurekkusu_account.Schema.{Runtime, OutboxRow, Payload, Bytes}
use peikonpurekkusu_account.Events.Framing.{EnvelopeJson, frame, new_envelope}
use peikonpurekkusu_account.Outbox.{
  Outside, publish_rows, publish_row, Sent, RelayState, DrainError, produce, frame_row,
}
use peikonpurekkusu_account.Prelude.Int.{ℤ}
use peikonpurekkusu_account.Events.Registry.{Ids, schema_id}

-- The record that is sent for a row: its topic and key, and a frame of the envelope whose event id
-- is the id of the row.
pub record Carries (x : Runtime) (json : EnvelopeJson) (o : Outside) (r : OutboxRow) (m : Sent)
    : Type 0 where
  pub schema : ℤ
  pub payload : Payload
  pub topic : m.topic ≡ r.type
  pub key : m.key ≡ r.aggregateid
  pub readable : o.reread r.payload ≡ some payload
  pub framed :
      frame json schema
        (new_envelope (x.uuid_string r.id) r.type (x.uuid_string r.id) r.created_at payload)
      ≡ some m.value

abbrev pub AllCarry : Runtime → EnvelopeJson → Outside → List OutboxRow → List Sent → Type 0
AllCarry x json o [] [] = Unit
AllCarry x json o (r ∷ rows) (m ∷ sent) = Carries x json o r m × AllCarry x json o rows sent
AllCarry x json o _ _ = ⊥

module _ (x : Runtime) (json : EnvelopeJson) (o : Outside) where
  pub produce-eq-none :
      (k : ℕ) (r : OutboxRow) (value : Option Bytes) (st st' : RelayState)
      → produce x json o k r value st ≡ (none, st')
      → (bytes : Bytes) × (value ≡ some bytes)
        × (st'.sent ≡ st.sent ++ record { topic = r.type; key = r.aggregateid; value = bytes } ∷ [])
  produce-eq-none k r none st st' e = absurd (ground (arith, e))
  produce-eq-none k r (some value) st st' e = (value, refl, ground (arith, e))

  pub produce-eq-some :
      (k : ℕ) (r : OutboxRow) (value : Option Bytes) (st st' : RelayState) (f : DrainError)
      → produce x json o k r value st ≡ (some f, st')
      → st'.sent ≡ st.sent
  produce-eq-some k r none st st' f e = ground (arith, e)
  produce-eq-some k r (some value) st st' f e = ground (arith, e)

  pub frame_row-eq-none :
      (k : ℕ) (r : OutboxRow) (payload : Payload) (st st' : RelayState) (found : Option ℤ × Ids)
      → o.reread r.payload ≡ some payload
      → frame_row x json o k r payload st found ≡ (none, st')
      → (m : Sent) × (st'.sent ≡ st.sent ++ m ∷ []) × Carries x json o r m
  frame_row-eq-none k r payload st st' (none, ids) readable e = absurd (ground (arith, e))
  frame_row-eq-none k r payload st st' (some id, ids) readable e =
      let (bytes, framed, sent) = produce-eq-none k r _ (record st { ids = ids }) st' e in
      (
        record { topic = r.type; key = r.aggregateid; value = bytes },
        sent,
        record {
          schema = id;
          payload = payload;
          topic = refl;
          key = refl;
          readable = readable;
          framed = framed;
        },
      )

  pub frame_row-eq-some :
      (k : ℕ) (r : OutboxRow) (payload : Payload) (st st' : RelayState) (found : Option ℤ × Ids)
      (f : DrainError)
      → frame_row x json o k r payload st found ≡ (some f, st')
      → st'.sent ≡ st.sent
  frame_row-eq-some k r payload st st' (none, ids) f e = ground (arith, e)
  frame_row-eq-some k r payload st st' (some id, ids) f e =
      produce-eq-some k r _ (record st { ids = ids }) st' f e

  -- Where the loop got to: the rows that were sent, in their order, and the rows that were not.
  pub record Progress (rows : List OutboxRow) (st : RelayState) (e : Option DrainError)
      (st' : RelayState) : Type 0 where
    pub done : List OutboxRow
    pub rest : List OutboxRow
    pub messages : List Sent
    pub split : rows ≡ done ++ rest
    pub sent : st'.sent ≡ st.sent ++ messages
    pub carried : AllCarry x json o done messages
    pub complete : e ≡ none → rest ≡ []

  pub publish_row-eq-none :
      (k : ℕ) (r : OutboxRow) (st st' : RelayState)
      → publish_row x json o k r st ≡ (none, st')
      → (m : Sent) × (st'.sent ≡ st.sent ++ m ∷ []) × Carries x json o r m
  unfolding publish_row
  publish_row-eq-none k r st st' e = elim (Option-cases (o.reread r.payload)) [
    | inl unreadable ↦ absurd (ground arith)
    | inr (payload, readable) ↦
        frame_row-eq-none k r payload st st' (schema_id (o.ask k) r.type st.ids) readable
          (ground arith)
  ]

  pub publish_row-eq-some :
      (k : ℕ) (r : OutboxRow) (st st' : RelayState) (f : DrainError)
      → publish_row x json o k r st ≡ (some f, st')
      → st'.sent ≡ st.sent
  unfolding publish_row
  publish_row-eq-some k r st st' f e = elim (Option-cases (o.reread r.payload)) [
    | inl unreadable ↦ ground arith
    | inr (payload, readable) ↦
        frame_row-eq-some k r payload st st' (schema_id (o.ask k) r.type st.ids) f (ground arith)
  ]

  abbrev pub ProgressOf : List OutboxRow → RelayState → Option DrainError × RelayState → Type 0
  ProgressOf rows st (e, st') = Progress rows st e st'

  pub rows_stop :
      (k : ℕ) (r : OutboxRow) (rows : List OutboxRow) (st st' : RelayState) (f : DrainError)
      → publish_row x json o k r st ≡ (some f, st')
      → publish_rows x json o k (r ∷ rows) st ≡ (some f, st')
  unfolding publish_rows
  rows_stop k r rows st st' f e = ap (λ (q : Option DrainError × RelayState). go q.0 q.1) e
    where
      go : Option DrainError → RelayState → Option DrainError × RelayState
      go failed now = elim failed [
        | some d ↦ (some d, now)
        | none ↦ publish_rows x json o (suc k) rows now
      ]

  pub rows_continue :
      (k : ℕ) (r : OutboxRow) (rows : List OutboxRow) (st st' : RelayState)
      → publish_row x json o k r st ≡ (none, st')
      → publish_rows x json o k (r ∷ rows) st ≡ publish_rows x json o (suc k) rows st'
  unfolding publish_rows
  rows_continue k r rows st st' e = ap (λ (q : Option DrainError × RelayState). go q.0 q.1) e
    where
      go : Option DrainError → RelayState → Option DrainError × RelayState
      go failed now = elim failed [
        | some d ↦ (some d, now)
        | none ↦ publish_rows x json o (suc k) rows now
      ]

  pub Progress-stop :
      (r : OutboxRow) (rows : List OutboxRow) (st st' : RelayState) (f : DrainError)
      → st'.sent ≡ st.sent
      → Progress (r ∷ rows) st (some f) st'
  Progress-stop r rows st st' f same = record {
    done = [];
    rest = r ∷ rows;
    messages = [];
    split = refl;
    sent = same ∙ sym (append-nil st.sent);
    carried = tt;
    complete = λ e. absurd (ground (arith, e));
  }

  pub Progress-continue :
      (r : OutboxRow) (rows : List OutboxRow) (st st' : RelayState) (m : Sent)
      (q : Option DrainError × RelayState)
      → st'.sent ≡ st.sent ++ m ∷ []
      → Carries x json o r m
      → ProgressOf rows st' q
      → ProgressOf (r ∷ rows) st q
  Progress-continue r rows st st' m (e, st'') sent carried p = record {
    done = r ∷ p.done;
    rest = p.rest;
    messages = m ∷ p.messages;
    split = ap (λ l. r ∷ l) p.split;
    sent = p.sent ∙ ap (λ l. l ++ p.messages) sent ∙ append_assoc st.sent (m ∷ []) p.messages;
    carried = (carried, p.carried);
    complete = p.complete;
  }

  pub publish_rows-Progress :
      (k : ℕ) (rows : List OutboxRow) (st : RelayState)
      → ProgressOf rows st (publish_rows x json o k rows st)
  unfolding publish_rows
  publish_rows-Progress k [] st = record {
    done = [];
    rest = [];
    messages = [];
    split = refl;
    sent = sym (append-nil st.sent);
    carried = tt;
    complete = λ e. refl;
  }
  publish_rows-Progress k (r ∷ rows) st =
      go (λ st'. publish_rows-Progress (suc k) rows st') (publish_row x json o k r st) refl
    where
      go :
          ((st' : RelayState) → ProgressOf rows st' (publish_rows x json o (suc k) rows st'))
          → (q : Option DrainError × RelayState) → publish_row x json o k r st ≡ q
          → ProgressOf (r ∷ rows) st (publish_rows x json o k (r ∷ rows) st)
      go later (some f, st') e =
          subst (ProgressOf (r ∷ rows) st) (sym (rows_stop k r rows st st' f e))
            (Progress-stop r rows st st' f (publish_row-eq-some k r st st' f e))
      go later (none, st') e =
          let (m, sent, carried) = publish_row-eq-none k r st st' e in
          subst (ProgressOf (r ∷ rows) st) (sym (rows_continue k r rows st st' e)) (
            Progress-continue r rows st st' m (publish_rows x json o (suc k) rows st') sent carried
              (later st'))
