-- ===== src/Sql/Fetch.antt =====
-- A query for several rows, as its caller sees it.
use peikonpurekkusu_account.Prelude.{ℕ, List, Option, none, some, Bool, true, false}
use peikonpurekkusu_account.Prelude.Lists.{take}

-- What comes of a query: it is refused; or the connection gives the first rows and breaks, which
-- `rows.Next` reports as the end and `rows.Err` as an error; or it gives all rows.
pub data Fetch : Type 0 where
  refused whole : Fetch
  broken_after : ℕ → Fetch

abbrev pub fetch {ℓ} : {A : Type ℓ} → Fetch → List A → Option (List A)
fetch refused rows = none
fetch whole rows = some rows
fetch (broken_after n) rows = some (take n rows)

-- The query is refused, or `rows.Err` reports an error behind the rows.
abbrev pub breaks : Fetch → Bool
breaks refused = true
breaks whole = false
breaks (broken_after n) = true
