-- ===== src/Ledger/Reconcile/Drift.antt =====
-- The test of a row against the same test in natural numbers.
use peikonpurekkusu_account.Prelude.{
  ℕ, ◌+◌, ◌≤◌, ◌≡◌, Bool, not, ◌||◌, arith, ◌==◌, if◌then◌else◌, Bool-cases, inl, inr,
}
use peikonpurekkusu_account.Prelude.Int.{pos, ◌-ℤ◌}
use peikonpurekkusu_account.Prelude.Word.{
  max_int64, sub64, sub64-exact, sub64-in_range, sub_twice-IsInt64,
}
use peikonpurekkusu_account.Ledger.Reconcile.{Row, is_debit_normal, drifts, same_int}

-- The row breaks the sign convention of its account's type, or its held amount is not the sum of
-- its active holds.
unfoldable pub disagrees : Row → Bool
disagrees r =
    not (
      if is_debit_normal r.type
      then r.available + r.credits == r.debits
      else r.available + r.debits + r.active_held == r.credits)
    || not (r.held == r.active_held)

-- The sums of a row are small enough for the int64 arithmetic of the reconciliation.
abbrev pub InRange : Row → Type 0
InRange r =
    (r.debits + r.active_held ≤ max_int64) × (r.credits ≤ max_int64) × (r.available ≤ max_int64)

debit_side :
    (n d c : ℕ)
    → d ≤ max_int64
    → c ≤ max_int64
    → same_int (pos n) (sub64 (pos d) (pos c)) ≡ (n + c == d)
unfolding same_int ◌-ℤ◌
debit_side n d c hd hc = rw (sub64-exact d c hd hc) (ground arith)

credit_side :
    (n d c h : ℕ)
    → d + h ≤ max_int64
    → c ≤ max_int64
    → same_int (pos n) (sub64 (sub64 (pos c) (pos d)) (pos h)) ≡ (n + d + h == c)
unfolding same_int ◌-ℤ◌
credit_side n d c h hd hc =
    rw (sub64-exact c d hc (omega arith))
      (rw (sub64-in_range (pos c -ℤ pos d) (pos h) (sub_twice-IsInt64 c d h hd hc)) (ground arith))

-- Within the range of the sums the int64 test is the test in natural numbers.
pub drifts-eq-disagrees : (r : Row) → InRange r → drifts r ≡ disagrees r
unfolding drifts disagrees
drifts-eq-disagrees r h = elim (Bool-cases (is_debit_normal r.type)) [
  | inl debit_normal ↦
      rw debit_normal (rw (debit_side r.available r.debits r.credits (omega arith) h.1))
  | inr credit_normal ↦
      rw credit_normal (rw (credit_side r.available r.debits r.credits r.active_held h.0 h.1))
]
