-- ===== src/Migrations/Immutable.antt =====
-- migrations/00001_initial.sql: the triggers ledger_entries_immutable and
-- ledger_transactions_immutable.
use peikonpurekkusu_account.Prelude.{
  Bool, false, List, [], ◌∷◌, String, ◌≡◌, refl, inr, ◌⊎◌, if◌then◌else◌, inl, arith, Bool-cases,
}
use peikonpurekkusu_account.Prelude.Lists.{All}

pub data TriggerOp : Type 0 where
  update delete : TriggerOp

-- What `forbid_mutation` raises, with tg_op and tg_table_name.
pub record Immutable : Type 0 where
  pub op : TriggerOp
  pub table : String

abbrev pub forbid_mutation : {A : Type 0} → TriggerOp → String → Immutable ⊎ A
forbid_mutation op table = inl (record { op = op; table = table })

abbrev keep_row : {A : Type 0} → A → Immutable ⊎ List A → Immutable ⊎ List A
keep_row row (inl e) = inl e
keep_row row (inr rows) = inr (row ∷ rows)

-- A statement on the rows of a table that a condition selects: the trigger fires before each of
-- them.
unfoldable pub alter_rows :
    {A : Type 0} → TriggerOp → String → (A → Bool) → List A → Immutable ⊎ List A
alter_rows op table selected [] = inr []
alter_rows op table selected (row ∷ rows) =
    let rest = alter_rows op table selected rows in
    if selected row then forbid_mutation op table else keep_row row rest

keep_row-inr :
    {A : Type 0} (row : A) (q : Immutable ⊎ List A) (rows : List A)
    → keep_row row q ≡ inr rows
    → (rest : List A) × (q ≡ inr rest) × (rows ≡ row ∷ rest)
keep_row-inr row (inl x) rows e = absurd (ground (arith, e))
keep_row-inr row (inr rest) rows e = (rest, refl, ground (arith, e))

-- A statement that is not refused selects no row and leaves the table as it is.
pub alter_rows-same :
    {A : Type 0} (op : TriggerOp) (table : String) (selected : A → Bool) (rows rows' : List A)
    → alter_rows op table selected rows ≡ inr rows'
    → (rows' ≡ rows) × All (λ row. selected row ≡ false) rows
unfolding alter_rows
alter_rows-same op table selected [] rows' e = (ground (arith, e), tt)
alter_rows-same op table selected (row ∷ rows) rows' e = elim (Bool-cases (selected row)) [
  | inl chosen ↦ absurd (ground (arith, e))
  | inr other ↦
      let (rest, kept, same) =
        keep_row-inr row (alter_rows op table selected rows) rows' (ground (arith, e)) in
      let (unchanged, none_chosen) = alter_rows-same op table selected rows rest kept in
      (ground (arith, same, unchanged), (other, none_chosen))
]
