-- ===== src/Sql/Holds/Laws.antt =====
-- Lookups and unique ids in the table of holds.
use peikonpurekkusu_account.Prelude.{
  ◌≡◌, refl, false, Option, none, some, List, [], ◌∷◌, arith, ◌==◌, if◌then◌else◌,
}
use peikonpurekkusu_account.Schema.{Uuid, HoldRecord, HoldStatus}
use peikonpurekkusu_account.Sql.Holds.{find_hold, hold_exists, with_status}

abbrev pub UniqueIds : List HoldRecord → Type 0
UniqueIds [] = Unit
UniqueIds (h ∷ rest) = (hold_exists h.id rest ≡ false) × UniqueIds rest

pub find_hold-id :
    (id : Uuid) (rows : List HoldRecord) (h : HoldRecord) → find_hold id rows ≡ some h → h.id ≡ id
unfolding find_hold
find_hold-id id [] h e = cc
find_hold-id id (r ∷ rows) h e = ground (arith, find_hold-id id rows h)

abbrev pub set_found : HoldStatus → Option HoldRecord → Option HoldRecord
set_found status none = none
set_found status (some h) = some (record h { status = status })

module _ (id : Uuid) (status : HoldStatus) where
  pub hold_exists-with_status :
      (c : Uuid) (rows : List HoldRecord)
      → hold_exists c (with_status id status rows) ≡ hold_exists c rows
  unfolding hold_exists with_status
  hold_exists-with_status c [] = refl
  hold_exists-with_status c (h ∷ rows) = ground (arith, hold_exists-with_status c rows)

  pub with_status-UniqueIds :
      (rows : List HoldRecord) → UniqueIds rows → UniqueIds (with_status id status rows)
  unfolding with_status
  with_status-UniqueIds [] u = tt
  with_status-UniqueIds (h ∷ rows) u =
      ground (arith, with_status-UniqueIds rows, hold_exists-with_status h.id rows)

  -- An update of a status changes the row of that id, and no other.
  pub find_hold-with_status :
      (c : Uuid) (rows : List HoldRecord)
      → find_hold c (with_status id status rows)
        ≡ (if c == id then set_found status (find_hold c rows) else find_hold c rows)
  unfolding find_hold with_status
  find_hold-with_status c [] = ground arith
  find_hold-with_status c (h ∷ rows) = ground (arith, find_hold-with_status c rows)

  -- No row has the id: nothing changes.
  pub with_status_absent :
      (rows : List HoldRecord) → hold_exists id rows ≡ false → with_status id status rows ≡ rows
  unfolding hold_exists with_status
  with_status_absent [] h = refl
  with_status_absent (r ∷ rows) h = ground (arith, with_status_absent rows)
