-- ===== src/Ledger/Posting/Balanced.antt =====
-- `validate_balanced` against the sums of debits and credits.
use mathlib.Core.Path.{ap}
use peikonpurekkusu_account.Prelude.{
  ℕ, ◌+◌, ◌%◌, ◌≡◌, refl, String, eq_iff, true, List, [], ◌∷◌, arith, inl, inr, eq_refl, ◌≤◌, ◌<◌,
  ◌↔◌, ap, ◌-◌,
}
use peikonpurekkusu_account.Prelude.Int.{pos}
use peikonpurekkusu_account.Prelude.Word.{residue, full_range, residue-lt, residue-zero, max_int64}
use peikonpurekkusu_account.Ledger.Posting.{
  Entry, Sums, sum_of, count_entries, all_zero, validate_balanced,
}
use peikonpurekkusu_account.Tx.{ok, Result-cases}
use peikonpurekkusu_account.Prelude.Lists.{All, length}
use peikonpurekkusu_account.Schema.{Uuid}
use peikonpurekkusu_account.Ledger.Posting.Sums.{
  count_entries-AllCounted, count_entries_total, Distinct, WellFormed, total,
  count_entries-Distinct, sum_of-absent, all_zero-sum_of,
}

all_zero_of :
    (sums : Sums) → Distinct sums → ((c : String) → sum_of c sums ≡ pos 0) → all_zero sums ≡ true
unfolding all_zero sum_of
all_zero_of [] d h = refl
all_zero_of ((k, n) ∷ sums) d h = ground (
  arith,
  h k,
  eq_refl k,
  all_zero_of sums d.1 (λ c. ground (arith, h c, sum_of-absent c sums, eq_iff k c, d.0)),
)

-- The double-entry rule, in the arithmetic of int64: in each currency the debits and the credits
-- are the same number modulo 2^64.
pub record IsPosting (es : List Entry) : Type 0 where
  pub two_legs : 2 ≤ length es
  pub well_formed : All WellFormed es
  pub balanced : (c : String) → total "debit" c es % full_range ≡ total "credit" c es % full_range

validate_balanced_sound : (es : List Entry) → validate_balanced es ≡ ok tt → IsPosting es
unfolding validate_balanced
validate_balanced_sound es h = elim (Result-cases (count_entries es [])) [
  | inl (after, e) ↦
      let counted = count_entries-AllCounted es [] after e in
      let zero_sums : all_zero after ≡ true = ground arith in
      record {
        two_legs = ground arith;
        well_formed = counted.well_formed;
        balanced = λ c.
            unfold residue sum_of in
            omega (arith, counted.moved c, ap residue (all_zero-sum_of c after zero_sums));
      }
  | inr (x, e) ↦ absurd (ground arith)
]

validate_balanced_complete : (es : List Entry) → IsPosting es → validate_balanced es ≡ ok tt
unfolding validate_balanced
validate_balanced_complete es h =
    let (after, e) = count_entries_total es [] h.well_formed in
    let counted = count_entries-AllCounted es [] after e in
    ground (
      arith,
      h.two_legs,
      all_zero_of after (count_entries-Distinct es [] after tt e) (λ c.
          residue-zero (sum_of c after)
            (counted.in_range (λ k. unfold sum_of in (omega arith, omega arith)) c)
            (unfold residue sum_of in
              omega (arith, counted.moved c, h.balanced c, residue-lt (sum_of c after)))),
    )

-- `ValidateBalanced` accepts exactly the postings of at least two entries, all of positive amount
-- and with direction debit or credit, whose debits and credits agree modulo 2^64 in each currency.
pub validate_balanced_iff : (es : List Entry) → (validate_balanced es ≡ ok tt) ↔ IsPosting es
validate_balanced_iff es = (validate_balanced_sound es, validate_balanced_complete es)

-- If the debits and the credits in a currency are below 2^64, those of an accepted posting are
-- equal.
pub validate_balanced_exact :
    (es : List Entry) (c : String)
    → validate_balanced es ≡ ok tt
    → total "debit" c es < full_range
    → total "credit" c es < full_range
    → total "debit" c es ≡ total "credit" c es
validate_balanced_exact es c h small_debits small_credits =
    omega (arith, (validate_balanced_sound es h).balanced c)

abbrev pub leg : Uuid → String → ℕ → String → Entry
leg account direction amount currency = record {
  account_id = account;
  direction = direction;
  amount = pos amount;
  currency = currency;
}

-- Three debits in one currency, each an int64, that add up to 2^64 are accepted with no credit at
-- all.
pub validate_balanced_wraps :
    (a b c : Uuid) (n m : ℕ) (currency : String)
    → n ≤ max_int64
    → m ≤ max_int64
    → full_range ≤ n + m + max_int64
    → let es =
        leg a "debit" n currency
        ∷ leg b "debit" m currency
        ∷ leg c "debit" (full_range - (n + m)) currency
        ∷ [] in
      (validate_balanced es ≡ ok tt)
      × (total "credit" currency es ≡ 0)
      × (total "debit" currency es ≡ full_range)
unfolding total
validate_balanced_wraps a b c n m currency hn hm h = (
  validate_balanced_complete _ (record {
    two_legs = omega arith;
    well_formed = (
      (ground arith, ground arith),
      ((ground arith, ground arith), ((ground arith, ground arith), tt)),
    );
    balanced = λ k. ground arith;
  }),
  ground (arith, eq_refl currency),
  ground (arith, eq_refl currency),
)
