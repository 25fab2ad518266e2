-- ===== src/Ledger/Posting/Sums.antt =====
-- What the sums of `ValidateBalanced` hold after its loop.
use mathlib.Core.Path.{subst}
use peikonpurekkusu_account.Prelude.{
  ℕ, ◌+◌, ◌%◌, ◌≡◌, refl, String, str_eq, eq_iff, true, false, ◌||◌, ◌&&◌, List, [], ◌∷◌, arith,
  if◌then◌else◌, Bool-cases, inl, ◌⊎◌, inr, not, Bool,
}
use peikonpurekkusu_account.Prelude.Int.{ℤ, pos, pos_part, leb_ℤ, negsuc}
use peikonpurekkusu_account.Prelude.Word.{
  IsInt64, add64, residue, residue-add64, full_range, sub64, residue-lt, residue-sub64,
  add64-IsInt64, sub64-IsInt64,
}
use peikonpurekkusu_account.Ledger.Posting.{
  Entry, Sums, sum_of, put_sum, count_entry, count_entries, all_zero,
}
use peikonpurekkusu_account.Tx.{ok, Result-cases}
use peikonpurekkusu_account.Prelude.Lists.{All}

-- The amounts that the entries debit, or credit, in a currency.
unfoldable pub total : String → String → List Entry → ℕ
total direction currency [] = 0
total direction currency (e ∷ rest) =
    (if str_eq e.direction direction && str_eq e.currency currency then pos_part e.amount else 0)
    + total direction currency rest

abbrev pub WellFormed : Entry → Type 0
WellFormed e =
    (leb_ℤ e.amount (pos 0) ≡ false)
    × ((str_eq e.direction "debit" || str_eq e.direction "credit") ≡ true)

pub sum_of-put_sum :
    (k c : String) (n : ℤ) (sums : Sums)
    → sum_of c (put_sum k n sums) ≡ (if str_eq k c then n else sum_of c sums)
unfolding sum_of put_sum
sum_of-put_sum k c n [] = refl
sum_of-put_sum k c n ((j, m) ∷ sums) =
    ground (arith, sum_of-put_sum k c n sums, eq_iff j k, eq_iff j c, eq_iff k c)

abbrev pub AllInt64 : Sums → Type 0
AllInt64 sums = (c : String) → IsInt64 (sum_of c sums)

-- The sum of a currency after an entry, modulo 2^64: plus the debit, less the credit.
pub record Counted (e : Entry) (c : String) (before after : ℤ) : Type 0 where
  pub moved :
      (residue after + total "credit" c (e ∷ [])) % full_range
      ≡ (residue before + total "debit" c (e ∷ [])) % full_range
  pub in_range : IsInt64 before → IsInt64 after

pub positive-pos : (z : ℤ) → leb_ℤ z (pos 0) ≡ false → z ≡ pos (pos_part z)
positive-pos (pos n) h = refl
positive-pos (negsuc n) h = absurd (ground arith)

module _ (e : Entry) (sums : Sums) {after : Sums} where
  pub count_entry-eq-ok :
      count_entry e sums ≡ ok after
      → WellFormed e
        × (((str_eq e.direction "debit" ≡ true)
              × (after ≡ put_sum e.currency (add64 (sum_of e.currency sums) e.amount) sums))
            ⊎ ((str_eq e.direction "debit" ≡ false)
                × (str_eq e.direction "credit" ≡ true)
                × (after ≡ put_sum e.currency (sub64 (sum_of e.currency sums) e.amount) sums)))
  unfolding count_entry
  count_entry-eq-ok h = ground arith

pub not_both : (d : String) → str_eq d "debit" ≡ true → str_eq d "credit" ≡ false
not_both d h = ground (arith, eq_iff d "debit", eq_iff d "credit", eq_iff "debit" "credit")

module _ (e : Entry) (c : String) (sums after : Sums) where
  pub debit-Counted :
      leb_ℤ e.amount (pos 0) ≡ false
      → str_eq e.direction "debit" ≡ true
      → after ≡ put_sum e.currency (add64 (sum_of e.currency sums) e.amount) sums
      → Counted e c (sum_of c sums) (sum_of c after)
  unfolding total
  debit-Counted positive debit stored = record {
    moved =
        rw (stored, sum_of-put_sum)
          (ground (
            arith,
            not_both e.direction debit,
            eq_iff e.currency c,
            positive-pos e.amount positive,
            residue-add64 (sum_of c sums) (pos_part e.amount),
            residue-lt (sum_of c sums),
          ));
    in_range = λ h.
        rw (stored, sum_of-put_sum)
          (elim (Bool-cases (str_eq e.currency c)) [
            | inl hit ↦ rw hit (add64-IsInt64 _ _)
            | inr miss ↦ rw miss h
          ]);
  }

  pub credit-Counted :
      leb_ℤ e.amount (pos 0) ≡ false
      → str_eq e.direction "debit" ≡ false
      → str_eq e.direction "credit" ≡ true
      → after ≡ put_sum e.currency (sub64 (sum_of e.currency sums) e.amount) sums
      → Counted e c (sum_of c sums) (sum_of c after)
  unfolding total
  credit-Counted positive no_debit credit stored = record {
    moved =
        rw (stored, sum_of-put_sum)
          (ground (
            arith,
            eq_iff e.currency c,
            positive-pos e.amount positive,
            residue-sub64 (sum_of c sums) (pos_part e.amount),
            residue-lt (sum_of c sums),
          ));
    in_range = λ h.
        rw (stored, sum_of-put_sum)
          (elim (Bool-cases (str_eq e.currency c)) [
            | inl hit ↦ rw hit (sub64-IsInt64 _ _)
            | inr miss ↦ rw miss h
          ]);
  }

pub count_entry-Counted :
    (e : Entry) (c : String) (sums after : Sums)
    → count_entry e sums ≡ ok after
    → Counted e c (sum_of c sums) (sum_of c after)
count_entry-Counted e c sums after h =
    let (well, cases) = count_entry-eq-ok e sums h in
    elim cases [
      | inl (debit, stored) ↦ debit-Counted e c sums after well.0 debit stored
      | inr (no_debit, credit, stored) ↦ credit-Counted e c sums after well.0 no_debit credit stored
    ]

-- The loop, for every currency.
pub record AllCounted (es : List Entry) (before after : Sums) : Type 0 where
  pub moved :
      (c : String)
      → (residue (sum_of c after) + total "credit" c es) % full_range
        ≡ (residue (sum_of c before) + total "debit" c es) % full_range
  pub in_range : AllInt64 before → AllInt64 after
  pub well_formed : All WellFormed es

pub total-cons :
    (d c : String) (e : Entry) (es : List Entry)
    → total d c (e ∷ es) ≡ total d c (e ∷ []) + total d c es
unfolding total
total-cons d c e es = ground arith

pub count_entries_step :
    (e : Entry) (es : List Entry) (sums mid after : Sums)
    → count_entry e sums ≡ ok mid
    → AllCounted es mid after
    → AllCounted (e ∷ es) sums after
count_entries_step e es sums mid after h rest = record {
  moved = λ c. omega (
    arith,
    (count_entry-Counted e c sums mid h).moved,
    rest.moved c,
    total-cons "debit" c e es,
    total-cons "credit" c e es,
  );
  in_range = λ r. rest.in_range (λ c. (count_entry-Counted e c sums mid h).in_range (r c));
  well_formed = ((count_entry-eq-ok e sums h).0, rest.well_formed);
}

pub count_entries-AllCounted :
    (es : List Entry) (sums after : Sums)
    → count_entries es sums ≡ ok after
    → AllCounted es sums after
unfolding count_entries
count_entries-AllCounted [] sums after h = record {
  moved = λ c. unfold total in cc h;
  in_range = λ r. let same : sums ≡ after = ground arith in subst AllInt64 same r;
  well_formed = tt;
}
count_entries-AllCounted (e ∷ es) sums after h = elim (Result-cases (count_entry e sums)) [
  | inl (mid, em) ↦
      count_entries_step e es sums mid after em
        (count_entries-AllCounted es mid after (ground arith))
  | inr (x, ex) ↦ absurd (ground arith)
]

pub count_entries_total :
    (es : List Entry) (sums : Sums)
    → All WellFormed es
    → (after : Sums) × (count_entries es sums ≡ ok after)
unfolding count_entries
count_entries_total [] sums all = (sums, refl)
count_entries_total (e ∷ es) sums all = elim (Result-cases (count_entry e sums)) [
  | inl (mid, em) ↦ let (after, ea) = count_entries_total es mid all.1 in (after, ground arith)
  | inr (x, ex) ↦ absurd (unfold count_entry in ground arith)
]

-- No currency has two sums.
abbrev pub absent : String → Sums → Bool
absent c [] = true
absent c ((k, n) ∷ sums) = not (str_eq k c) && absent c sums

abbrev pub Distinct : Sums → Type 0
Distinct [] = Unit
Distinct ((k, n) ∷ sums) = (absent k sums ≡ true) × Distinct sums

pub absent-put_sum :
    (c k : String) (n : ℤ) (sums : Sums)
    → absent c (put_sum k n sums) ≡ (not (str_eq k c) && absent c sums)
unfolding put_sum
absent-put_sum c k n [] = refl
absent-put_sum c k n ((j, m) ∷ sums) =
    ground (arith, absent-put_sum c k n sums, eq_iff j k, eq_iff j c, eq_iff k c)

pub put_sum-Distinct :
    (k : String) (n : ℤ) (sums : Sums) → Distinct sums → Distinct (put_sum k n sums)
unfolding put_sum
put_sum-Distinct k n [] d = ground arith
put_sum-Distinct k n ((j, m) ∷ sums) d =
    ground (arith, put_sum-Distinct k n sums, absent-put_sum j k n sums, eq_iff j k, eq_iff k j)

pub count_entries-Distinct :
    (es : List Entry) (sums after : Sums)
    → Distinct sums
    → count_entries es sums ≡ ok after
    → Distinct after
unfolding count_entries
count_entries-Distinct [] sums after d h = subst Distinct (ground arith) d
count_entries-Distinct (e ∷ es) sums after d h = elim (Result-cases (count_entry e sums)) [
  | inl (mid, em) ↦
      count_entries-Distinct es mid after
        (elim ((count_entry-eq-ok e sums em).1) [
          | inl (debit, stored) ↦ rw stored (put_sum-Distinct _ _ sums d)
          | inr (no_debit, credit, stored) ↦ rw stored (put_sum-Distinct _ _ sums d)
        ])
        (ground arith)
  | inr (x, ex) ↦ absurd (ground arith)
]

pub sum_of-absent : (c : String) (sums : Sums) → absent c sums ≡ true → sum_of c sums ≡ pos 0
unfolding sum_of
sum_of-absent c [] h = refl
sum_of-absent c ((k, n) ∷ sums) h = ground (arith, sum_of-absent c sums)

pub all_zero-sum_of : (c : String) (sums : Sums) → all_zero sums ≡ true → sum_of c sums ≡ pos 0
unfolding all_zero sum_of
all_zero-sum_of c [] h = refl
all_zero-sum_of c ((k, n) ∷ sums) h = ground (arith, all_zero-sum_of c sums)
