-- ===== src/Outbox.antt =====
-- `Relay` of internal/outbox/outbox.go: `drainOnce`.
pub mod Progress
pub mod Publish
pub mod Selection
pub mod Backlog
use peikonpurekkusu_account.Prelude.{
  ℕ, zero, suc, String, Bool, true, false, not, ◌&&◌, ◌||◌, Option, none, some, List, [], ◌∷◌, ◌++◌,
  leb, ◌==◌, if◌then◌else◌,
}
use peikonpurekkusu_account.Prelude.Lists.{length, take}
use peikonpurekkusu_account.Schema.{Uuid, Time, Bytes, Payload, OutboxRow, Store, Runtime}
use peikonpurekkusu_account.Tx.{SqlState}
use peikonpurekkusu_account.Events.Framing.{EnvelopeJson, new_envelope, frame}
use peikonpurekkusu_account.Events.Registry.{Lookup, Ids, schema_id}
use peikonpurekkusu_account.Prelude.Int.{ℤ}

abbrev pub is_pending : OutboxRow → Bool
is_pending r = elim r.processed_at [ none ↦ true | some _ ↦ false ]

-- `where processed_at is null … for update skip locked`; `locked` is what other transactions hold.
unfoldable pub pending : (Uuid → Bool) → List OutboxRow → List OutboxRow
pending locked [] = []
pending locked (r ∷ rest) =
    if is_pending r && not (locked r.id) then r ∷ pending locked rest else pending locked rest

-- `order by id`
unfoldable pub insert_row : OutboxRow → List OutboxRow → List OutboxRow
insert_row r [] = r ∷ []
insert_row r (s ∷ rest) = if leb r.id s.id then r ∷ s ∷ rest else s ∷ insert_row r rest

unfoldable pub order_by_id : List OutboxRow → List OutboxRow
unfolding insert_row
order_by_id [] = []
order_by_id (r ∷ rest) = insert_row r (order_by_id rest)

abbrev pub batch_limit : ℕ
batch_limit = 50

unfoldable pub select_batch : (Uuid → Bool) → List OutboxRow → List OutboxRow
unfolding pending order_by_id
select_batch locked rows = take batch_limit (order_by_id (pending locked rows))

-- `id = any($1)`
unfoldable pub has_id : Uuid → List OutboxRow → Bool
has_id id [] = false
has_id id (r ∷ rest) = r.id == id || has_id id rest

-- `update outbox set processed_at = now() where id = any($1)`
unfoldable pub mark_processed : Time → List OutboxRow → List OutboxRow → List OutboxRow
unfolding has_id
mark_processed now batch [] = []
mark_processed now batch (r ∷ rest) =
    (if has_id r.id batch then record r { processed_at = some now } else r)
    ∷ mark_processed now batch rest

-- `kgo.Record`
pub record Sent : Type 0 where
  pub topic : String
  pub key : String
  pub value : Bytes

pub data DrainError : Type 0 where
  payload_unreadable no_schema not_framed not_produced : DrainError
  database : SqlState → DrainError

-- What the relay keeps between batches, and the records that the broker has taken.
pub record RelayState : Type 0 where
  pub ids : Ids
  pub sent : List Sent

-- What the outside does during a batch, call by call: the payload that the decoder reads from the
-- column, what the registry answers, whether the broker takes a record, and whether the database
-- ends the transaction at the query, the update or the commit.
pub record Outside : Type 0 where
  pub reread : Payload → Option Payload
  pub ask : ℕ → String → Lookup
  pub takes : ℕ → Bool
  pub query_fails : Option SqlState
  pub update_fails : Option SqlState
  pub commit_fails : Option SqlState

abbrev pub commit :
    Option SqlState
    → ℕ
    → Store
    → Store
    → RelayState
    → (Option DrainError × ℕ) × (Store × RelayState)
commit (some c) published before after st = ((some (database c), published), (before, st))
commit none published before after st = ((none, published), (after, st))

-- The transaction behind the loop: what the update and the commit raise, if anything.
unfoldable pub conclude :
    Option SqlState
    → Option SqlState
    → List OutboxRow
    → Store
    → Option DrainError × RelayState
    → (Option DrainError × ℕ) × (Store × RelayState)
unfolding mark_processed
conclude update_fails commit_fails batch s (some e, st) = ((some e, 0), (s, st))
conclude (some c) commit_fails batch s (none, st) = ((some (database c), 0), (s, st))
conclude none commit_fails batch s (none, st) =
    commit commit_fails (length batch) s
      (record s { outbox = mark_processed s.clock batch s.outbox }) st

module _ (x : Runtime) (json : EnvelopeJson) (o : Outside) where
  -- `ProduceSync` in the k-th round.
  abbrev pub produce : ℕ → OutboxRow → Option Bytes → RelayState → Option DrainError × RelayState
  produce k r none st = (some not_framed, st)
  produce k r (some value) st =
      if o.takes k
      then (
        none,
        record st {
          sent = st.sent ++ record { topic = r.type; key = r.aggregateid; value = value } ∷ [];
        },
      )
      else (some not_produced, st)

  abbrev pub frame_row :
      ℕ → OutboxRow → Payload → RelayState → Option ℤ × Ids → Option DrainError × RelayState
  frame_row k r payload st (none, ids) = (some no_schema, record st { ids = ids })
  frame_row k r payload st (some id, ids) =
      let name = x.uuid_string r.id in
      produce k r (frame json id (new_envelope name r.type name r.created_at payload))
        (record st { ids = ids })

  -- One round of the loop over the batch.
  unfoldable pub publish_row : ℕ → OutboxRow → RelayState → Option DrainError × RelayState
  publish_row k r st = elim (o.reread r.payload) [
    | none ↦ (some payload_unreadable, st)
    | some payload ↦ frame_row k r payload st (schema_id (o.ask k) r.type st.ids)
  ]

  unfoldable pub publish_rows : ℕ → List OutboxRow → RelayState → Option DrainError × RelayState
  unfolding publish_row
  publish_rows k [] st = (none, st)
  publish_rows k (r ∷ rest) st =
      let (failed, st') = publish_row k r st in
      elim failed [ some e ↦ (some e, st') | none ↦ publish_rows (suc k) rest st' ]

  abbrev pub begin :
      Option SqlState
      → List OutboxRow
      → Store
      → RelayState
      → (Option DrainError × ℕ) × (Store × RelayState)
  begin (some c) batch s st = ((some (database c), 0), (s, st))
  begin none [] s st = commit o.commit_fails 0 s s st
  begin none (r ∷ rest) s st =
      conclude o.update_fails o.commit_fails (r ∷ rest) s (publish_rows 0 (r ∷ rest) st)

  -- `drainOnce`: the error, if any, and the count of the published rows.
  unfoldable pub drain_once :
      (Uuid → Bool) → Store × RelayState → (Option DrainError × ℕ) × (Store × RelayState)
  unfolding select_batch publish_rows
  drain_once locked (s, st) = begin o.query_fails (select_batch locked s.outbox) s st
