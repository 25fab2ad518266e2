-- ===== src/Outbox/Publish.antt =====
-- What `drainOnce` sends and marks.
use mathlib.Core.Path.{subst}
use mathlib.Core.List.{append-nil}
use peikonpurekkusu_account.Prelude.{
  ℕ, none, some, ◌∷◌, [], List, Option, ◌≡◌, sym, ◌++◌, refl, ◌∙◌, ap, Bool,
}
use peikonpurekkusu_account.Schema.{Runtime, OutboxRow, Store, Uuid, Time}
use peikonpurekkusu_account.Events.Framing.{EnvelopeJson}
use peikonpurekkusu_account.Outbox.{
  Outside, publish_rows, Sent, RelayState, DrainError, drain_once, conclude, mark_processed,
  select_batch, begin, commit,
}
use peikonpurekkusu_account.Prelude.Lists.{length}
use peikonpurekkusu_account.Tx.{SqlState}
use peikonpurekkusu_account.Outbox.Progress.{AllCarry, ProgressOf, publish_rows-Progress}

module _ (x : Runtime) (json : EnvelopeJson) (o : Outside) where
  -- The outcome of a drain of the batch: on success the count is that of the batch, every row of it
  -- was sent, in the order of the batch, and exactly these rows are marked; on an error no row is
  -- marked, though the first rows of the batch may have been sent.
  abbrev pub Drained :
      List OutboxRow → Store × RelayState → (Option DrainError × ℕ) × (Store × RelayState) → Type 0
  Drained batch (s, st) ((none, n), (s', st')) =
      (messages : List Sent) × (n ≡ length batch)
      × (st'.sent ≡ st.sent ++ messages)
      × AllCarry x json o batch messages
      × (s' ≡ record s { outbox = mark_processed s.clock batch s.outbox })
  Drained batch (s, st) ((some e, n), (s', st')) =
      (done : List OutboxRow) × (rest : List OutboxRow) × (messages : List Sent) × (batch
        ≡ done ++ rest)
      × (st'.sent ≡ st.sent ++ messages)
      × AllCarry x json o done messages
      × (s' ≡ s)

  commit-Drained :
      (c : Option SqlState) (batch : List OutboxRow) (s : Store) (st st' : RelayState)
      (messages : List Sent)
      → st'.sent ≡ st.sent ++ messages
      → AllCarry x json o batch messages
      → Drained batch
          (s, st)
          (commit c
            (length batch)
            s
            (record s { outbox = mark_processed s.clock batch s.outbox })
            st')
  commit-Drained none batch s st st' messages sent carried = (messages, refl, sent, carried, refl)
  commit-Drained (some c) batch s st st' messages sent carried =
      (batch, [], messages, sym (append-nil batch), sent, carried, refl)

  conclude-Drained :
      (u c : Option SqlState) (batch : List OutboxRow) (s : Store) (st : RelayState)
      (q : Option DrainError × RelayState)
      → ProgressOf x json o batch st q
      → Drained batch (s, st) (conclude u c batch s q)
  unfolding conclude
  conclude-Drained u c batch s st (some e, st') p =
      (p.done, p.rest, p.messages, p.split, p.sent, p.carried, refl)
  conclude-Drained (some d) c batch s st (none, st') p =
      (p.done, p.rest, p.messages, p.split, p.sent, p.carried, refl)
  conclude-Drained none c batch s st (none, st') p =
      let all : batch ≡ p.done =
        p.split ∙ ap (λ l. p.done ++ l) (p.complete refl) ∙ append-nil p.done in
      commit-Drained c batch s st st' p.messages p.sent
        (subst (λ l. AllCarry x json o l p.messages) (sym all) p.carried)

  mark_processed-nil : (now : Time) (rows : List OutboxRow) → mark_processed now [] rows ≡ rows
  unfolding mark_processed
  mark_processed-nil now [] = refl
  mark_processed-nil now (r ∷ rows) = ap (λ l. r ∷ l) (mark_processed-nil now rows)

  begin-Drained :
      (d : Option SqlState) (batch : List OutboxRow) (s : Store) (st : RelayState)
      → Drained batch (s, st) (begin x json o d batch s st)
  begin-Drained (some d) batch s st = ([], batch, [], refl, sym (append-nil st.sent), tt, refl)
  begin-Drained none [] s st = go o.commit_fails
    where
      go : (c : Option SqlState) → Drained [] (s, st) (commit c 0 s s st)
      go none = (
        [],
        refl,
        sym (append-nil st.sent),
        tt,
        ap (λ l. record s { outbox = l }) (sym (mark_processed-nil s.clock s.outbox)),
      )
      go (some c) = ([], [], [], refl, sym (append-nil st.sent), tt, refl)
  begin-Drained none (r ∷ rest) s st =
      conclude-Drained o.update_fails o.commit_fails (r ∷ rest) s st
        (publish_rows x json o 0 (r ∷ rest) st) (publish_rows-Progress x json o 0 (r ∷ rest) st)

  -- The outcome of a drain of the batch that it selects. On success the count is that of the batch,
  -- a record was sent for every row, in the order of the batch, and exactly these rows are marked.
  -- On an error no row is marked, and records were sent for the first rows of the batch at most.
  pub drain_once-Drained :
      (locked : Uuid → Bool) (s : Store) (st : RelayState)
      → Drained (select_batch locked s.outbox) (s, st) (drain_once x json o locked (s, st))
  unfolding drain_once
  drain_once-Drained locked s st = begin-Drained o.query_fails (select_batch locked s.outbox) s st
