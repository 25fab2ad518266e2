-- ===== src/Outbox/Selection.antt =====
-- `order by id limit 50` and the update of the rows: what they do to the ids.
use peikonpurekkusu_account.Prelude.{
  ℕ, ◌∷◌, [], false, List, Bool, ◌+◌, ◌≡◌, Bool-cases, arith, ◌==◌, refl, inl, ◌||◌, inr, ◌∙◌, suc,
  ◌-◌, leb, zero,
}
use peikonpurekkusu_account.Outbox.{has_id, mark_processed, insert_row, order_by_id, pending}
use peikonpurekkusu_account.Schema.{Uuid, Time, OutboxRow}
use peikonpurekkusu_account.Prelude.Lists.{All, length, take}

-- The primary key of the table.
abbrev pub UniqueRows : List OutboxRow → Type 0
UniqueRows [] = Unit
UniqueRows (r ∷ rest) = (has_id r.id rest ≡ false) × UniqueRows rest

-- The order and the limit of the batch.
pub has_id-insert_row :
    (id : Uuid) (r : OutboxRow) (rows : List OutboxRow)
    → has_id id (insert_row r rows) ≡ (r.id == id || has_id id rows)
unfolding has_id insert_row
has_id-insert_row id r [] = refl
has_id-insert_row id r (s ∷ rows) = ground (arith, has_id-insert_row id r rows)

pub UniqueRows-insert_row :
    (r : OutboxRow) (rows : List OutboxRow)
    → has_id r.id rows ≡ false
    → UniqueRows rows
    → UniqueRows (insert_row r rows)
unfolding insert_row has_id
UniqueRows-insert_row r [] h u = (refl, tt)
UniqueRows-insert_row r (s ∷ rows) h u =
    ground (arith, has_id-insert_row s.id r rows, UniqueRows-insert_row r rows)

pub has_id-order_by_id :
    (id : Uuid) (rows : List OutboxRow) → has_id id (order_by_id rows) ≡ has_id id rows
unfolding has_id order_by_id
has_id-order_by_id id [] = refl
has_id-order_by_id id (r ∷ rows) =
    ground (arith, has_id-insert_row id r (order_by_id rows), has_id-order_by_id id rows)

pub UniqueRows-order_by_id :
    (rows : List OutboxRow) → UniqueRows rows → UniqueRows (order_by_id rows)
unfolding order_by_id
UniqueRows-order_by_id [] u = tt
UniqueRows-order_by_id (r ∷ rows) u =
    UniqueRows-insert_row r (order_by_id rows) (has_id-order_by_id r.id rows ∙ u.0)
      (UniqueRows-order_by_id rows u.1)

pub has_id-take :
    (id : Uuid) (n : ℕ) (rows : List OutboxRow)
    → has_id id rows ≡ false
    → has_id id (take n rows) ≡ false
unfolding has_id
has_id-take id zero rows h = refl
has_id-take id (suc n) [] h = refl
has_id-take id (suc n) (r ∷ rows) h = ground (arith, has_id-take id n rows)

pub UniqueRows-take : (n : ℕ) (rows : List OutboxRow) → UniqueRows rows → UniqueRows (take n rows)
UniqueRows-take zero rows u = tt
UniqueRows-take (suc n) [] u = tt
UniqueRows-take (suc n) (r ∷ rows) u = (has_id-take r.id n rows u.0, UniqueRows-take n rows u.1)

pub has_id-pending :
    (id : Uuid) (locked : Uuid → Bool) (rows : List OutboxRow)
    → has_id id rows ≡ false
    → has_id id (pending locked rows) ≡ false
unfolding has_id pending
has_id-pending id locked [] h = refl
has_id-pending id locked (r ∷ rows) h = ground (arith, has_id-pending id locked rows)

pub UniqueRows-pending :
    (locked : Uuid → Bool) (rows : List OutboxRow)
    → UniqueRows rows
    → UniqueRows (pending locked rows)
unfolding pending
UniqueRows-pending locked [] u = tt
UniqueRows-pending locked (r ∷ rows) u =
    ground (arith, has_id-pending r.id locked rows u.0, UniqueRows-pending locked rows u.1)

module _ (P : OutboxRow → Type 0) where
  pub All-insert_row :
      (r : OutboxRow) (rows : List OutboxRow) → P r → All P rows → All P (insert_row r rows)
  unfolding insert_row
  All-insert_row r [] p ps = (p, tt)
  All-insert_row r (s ∷ rows) p ps = elim (Bool-cases (leb r.id s.id)) [
    | inl first ↦ rw first (p, ps)
    | inr later ↦ rw later (ps.0, All-insert_row r rows p ps.1)
  ]

  pub All-order_by_id : (rows : List OutboxRow) → All P rows → All P (order_by_id rows)
  unfolding order_by_id
  All-order_by_id [] ps = tt
  All-order_by_id (r ∷ rows) ps =
      All-insert_row r (order_by_id rows) ps.0 (All-order_by_id rows ps.1)

  pub All-take : (n : ℕ) (rows : List OutboxRow) → All P rows → All P (take n rows)
  All-take zero rows ps = tt
  All-take (suc n) [] ps = tt
  All-take (suc n) (r ∷ rows) ps = (ps.0, All-take n rows ps.1)

pub length-insert_row :
    (r : OutboxRow) (rows : List OutboxRow) → length (insert_row r rows) ≡ suc (length rows)
unfolding insert_row
length-insert_row r [] = refl
length-insert_row r (s ∷ rows) = ground (arith, length-insert_row r rows)

pub length-order_by_id : (rows : List OutboxRow) → length (order_by_id rows) ≡ length rows
unfolding order_by_id
length-order_by_id [] = refl
length-order_by_id (r ∷ rows) =
    omega (arith, length-insert_row r (order_by_id rows), length-order_by_id rows)

pub length-take :
    (n : ℕ) (rows : List OutboxRow) → length (take n rows) + (length rows - n) ≡ length rows
length-take zero rows = omega arith
length-take (suc n) [] = omega arith
length-take (suc n) (r ∷ rows) = omega (arith, length-take n rows)

pub has_id-mark_processed :
    (id : Uuid) (now : Time) (batch rows : List OutboxRow)
    → has_id id (mark_processed now batch rows) ≡ has_id id rows
unfolding has_id mark_processed
has_id-mark_processed id now batch [] = refl
has_id-mark_processed id now batch (r ∷ rows) =
    ground (arith, has_id-mark_processed id now batch rows)

pub UniqueRows-mark_processed :
    (now : Time) (batch rows : List OutboxRow)
    → UniqueRows rows
    → UniqueRows (mark_processed now batch rows)
unfolding mark_processed
UniqueRows-mark_processed now batch [] u = tt
UniqueRows-mark_processed now batch (r ∷ rows) u =
    ground (
      arith,
      has_id-mark_processed r.id now batch rows,
      UniqueRows-mark_processed now batch rows u.1,
    )
