-- ===== src/Outbox/Backlog.antt =====
-- How many rows of the outbox wait, and how a drain reduces them.
use peikonpurekkusu_account.Prelude.{
  ℕ, ◌∷◌, [], true, false, List, Bool, ◌+◌, ◌≡◌, Bool-cases, arith, ◌==◌, ◌&&◌, refl, inl, ◌||◌,
  inr, if◌then◌else◌, not, ◌∙◌, suc, ◌-◌, ◌*◌, ◌≤◌, none, ap, sym, zero,
}
use peikonpurekkusu_account.Outbox.{
  has_id, mark_processed, is_pending, order_by_id, select_batch, pending, batch_limit, Outside,
  RelayState, drain_once,
}
use peikonpurekkusu_account.Schema.{Uuid, Time, OutboxRow, Runtime, Store}
use peikonpurekkusu_account.Prelude.Lists.{All, length, take}
use peikonpurekkusu_account.Outbox.Selection.{
  length-take, UniqueRows, length-order_by_id, UniqueRows-take, UniqueRows-order_by_id,
  UniqueRows-pending, All-take, All-order_by_id, UniqueRows-mark_processed,
}
use peikonpurekkusu_account.Events.Framing.{EnvelopeJson}
use mathlib.Core.Path.{subst}
use peikonpurekkusu_account.Outbox.Publish.{Drained, drain_once-Drained}

-- The rows that are not processed.
unfoldable pub backlog : List OutboxRow → ℕ
backlog [] = 0
backlog (r ∷ rest) = (if is_pending r then 1 else 0) + backlog rest

-- The unprocessed rows with an id of the batch.
chosen : List OutboxRow → List OutboxRow → ℕ
chosen batch [] = 0
chosen batch (r ∷ rest) = (if is_pending r && has_id r.id batch then 1 else 0) + chosen batch rest

backlog-mark_processed :
    (now : Time) (batch rows : List OutboxRow)
    → backlog (mark_processed now batch rows) + chosen batch rows ≡ backlog rows
unfolding backlog mark_processed chosen
backlog-mark_processed now batch [] = refl
backlog-mark_processed now batch (r ∷ rows) = ground (arith, backlog-mark_processed now batch rows)

-- The unprocessed rows with one id.
count_id : Uuid → List OutboxRow → ℕ
count_id id [] = 0
count_id id (r ∷ rest) = (if is_pending r && r.id == id then 1 else 0) + count_id id rest

chosen-cons :
    (b : OutboxRow) (batch rows : List OutboxRow)
    → has_id b.id batch ≡ false
    → chosen (b ∷ batch) rows ≡ count_id b.id rows + chosen batch rows
unfolding chosen count_id has_id
chosen-cons b batch [] h = refl
chosen-cons b batch (r ∷ rows) h = elim (Bool-cases (b.id == r.id)) [
  | inl same ↦ ground (arith, chosen-cons b batch rows)
  | inr differ ↦ ground (arith, chosen-cons b batch rows)
]

chosen-nil : (rows : List OutboxRow) → chosen [] rows ≡ 0
unfolding chosen has_id
chosen-nil [] = refl
chosen-nil (r ∷ rows) = ground (arith, chosen-nil rows)

count_id-absent :
    (id : Uuid) (rows : List OutboxRow) → has_id id rows ≡ false → count_id id rows ≡ 0
unfolding count_id has_id
count_id-absent id [] h = refl
count_id-absent id (r ∷ rows) h = ground (arith, count_id-absent id rows)

-- A row of the list that is pending.
unfoldable is_waiting : Uuid → List OutboxRow → Bool
is_waiting id [] = false
is_waiting id (r ∷ rest) = (is_pending r && r.id == id) || is_waiting id rest

has_id-is_waiting :
    (id : Uuid) (rows : List OutboxRow) → has_id id rows ≡ false → is_waiting id rows ≡ false
unfolding is_waiting has_id
has_id-is_waiting id [] h = refl
has_id-is_waiting id (r ∷ rows) h = ground (arith, has_id-is_waiting id rows)

count_id-waiting :
    (id : Uuid) (rows : List OutboxRow)
    → UniqueRows rows
    → is_waiting id rows ≡ true
    → count_id id rows ≡ 1
unfolding count_id is_waiting
count_id-waiting id [] u h = cc
count_id-waiting id (r ∷ rows) u h = elim (Bool-cases (r.id == id)) [
  | inl same ↦
      let e : r.id ≡ id = ground arith in
      let gone : has_id id rows ≡ false = rw (← e) u.0 in
      ground (arith, count_id-absent id rows gone, has_id-is_waiting id rows gone)
  | inr differ ↦ ground (arith, count_id-waiting id rows u.1)
]

abbrev AllWait : List OutboxRow → List OutboxRow → Type 0
AllWait batch rows = All (λ r. is_waiting r.id rows ≡ true) batch

chosen_all :
    (batch rows : List OutboxRow)
    → UniqueRows rows
    → UniqueRows batch
    → AllWait batch rows
    → chosen batch rows ≡ length batch
chosen_all [] rows u v h = chosen-nil rows
chosen_all (b ∷ batch) rows u v h = omega (
  arith,
  chosen-cons b batch rows v.0,
  count_id-waiting b.id rows u h.0,
  chosen_all batch rows u v.1 h.1,
)

AllWait-cons :
    (r : OutboxRow) (batch rows : List OutboxRow) → AllWait batch rows → AllWait batch (r ∷ rows)
unfolding is_waiting
AllWait-cons r [] rows h = tt
AllWait-cons r (b ∷ batch) rows h = ground (arith, AllWait-cons r batch rows h.1)

AllWait-pending :
    (locked : Uuid → Bool) (rows : List OutboxRow) → AllWait (pending locked rows) rows
unfolding pending is_waiting
AllWait-pending locked [] = tt
AllWait-pending locked (r ∷ rows) = elim (Bool-cases (is_pending r && not (locked r.id))) [
  | inl taken ↦
      rw taken
        (ground arith, AllWait-cons r (pending locked rows) rows (AllWait-pending locked rows))
  | inr left ↦ rw left (AllWait-cons r (pending locked rows) rows (AllWait-pending locked rows))
]

chosen-select_batch :
    (locked : Uuid → Bool) (rows : List OutboxRow)
    → UniqueRows rows
    → chosen (select_batch locked rows) rows ≡ length (select_batch locked rows)
unfolding select_batch
chosen-select_batch locked rows u =
    let waiting = pending locked rows in
    chosen_all (take batch_limit (order_by_id waiting)) rows u
      (UniqueRows-take batch_limit (order_by_id waiting)
        (UniqueRows-order_by_id waiting (UniqueRows-pending locked rows u)))
      (All-take (λ r. is_waiting r.id rows ≡ true) batch_limit (order_by_id waiting)
        (All-order_by_id (λ r. is_waiting r.id rows ≡ true) waiting (AllWait-pending locked rows)))

-- No row is locked by another transaction.
abbrev pub unlocked : Uuid → Bool
unlocked id = false

length-pending : (rows : List OutboxRow) → length (pending unlocked rows) ≡ backlog rows
unfolding pending backlog
length-pending [] = refl
length-pending (r ∷ rows) = ground (arith, length-pending rows)

length-select_batch :
    (rows : List OutboxRow)
    → length (select_batch unlocked rows) + (backlog rows - batch_limit) ≡ backlog rows
unfolding select_batch
length-select_batch rows = omega (
  arith,
  length-take batch_limit (order_by_id (pending unlocked rows)),
  length-order_by_id (pending unlocked rows),
  length-pending rows,
)

-- A drain without an error reduces the backlog by the rows that it reports.
backlog-drained :
    (locked : Uuid → Bool) (now : Time) (rows : List OutboxRow)
    → UniqueRows rows
    → backlog (mark_processed now (select_batch locked rows) rows)
        + length (select_batch locked rows)
      ≡ backlog rows
backlog-drained locked now rows u = omega (
  arith,
  backlog-mark_processed now (select_batch locked rows) rows,
  chosen-select_batch locked rows u,
)

module _ (x : Runtime) (json : EnvelopeJson) where
  -- Drains one after the other, each without an error and with no row locked by another
  -- transaction; `k` is their number.
  pub data Drains (a : Store × RelayState) : ℕ → Store × RelayState → Type 0 where
    start : Drains a 0 a
    another :
        {k : ℕ} {b c : Store × RelayState}
        → Drains a k b
        → (o : Outside) (n : ℕ) → drain_once x json o unlocked b ≡ ((none, n), c)
        → Drains a (suc k) c

  drain_once-backlog :
      (o : Outside) (n : ℕ) (b c : Store × RelayState)
      → UniqueRows b.0.outbox
      → drain_once x json o unlocked b ≡ ((none, n), c)
      → UniqueRows c.0.outbox × (backlog c.0.outbox ≡ backlog b.0.outbox - 50)
  drain_once-backlog o n (s, st) (s', st') u e =
      let (messages, _, _, _, marked) =
        subst (Drained x json o (select_batch unlocked s.outbox) (s, st)) e
          (drain_once-Drained x json o unlocked s st) in
      let outbox : s'.outbox ≡ mark_processed s.clock (select_batch unlocked s.outbox) s.outbox =
        ap (λ (t : Store). t.outbox) marked in
      (
        subst UniqueRows (sym outbox)
            (UniqueRows-mark_processed s.clock (select_batch unlocked s.outbox) s.outbox u),
        ap backlog outbox
            ∙ omega
                (arith, backlog-drained unlocked s.clock s.outbox u, length-select_batch s.outbox),
      )

  Drains-backlog :
      (a b : Store × RelayState) (k : ℕ)
      → UniqueRows a.0.outbox
      → Drains a k b
      → UniqueRows b.0.outbox × (backlog b.0.outbox ≡ backlog a.0.outbox - 50 * k)
  Drains-backlog a b zero u start = (u, omega arith)
  Drains-backlog a b (suc k) u (another {b = mid} r o n e) =
      let (unique, left) = Drains-backlog a mid k u r in
      let (unique', left') = drain_once-backlog o n mid b unique e in
      (unique', omega (arith, left, left'))

  -- With n rows waiting, k drains without an error, while no row is added or locked, leave none
  -- waiting as soon as 50 k reaches n.
  pub Drains-empty :
      (a b : Store × RelayState) (k : ℕ)
      → UniqueRows a.0.outbox
      → Drains a k b
      → backlog a.0.outbox ≤ 50 * k
      → backlog b.0.outbox ≡ 0
  Drains-empty a b k u r enough = omega (arith, (Drains-backlog a b k u r).1)
