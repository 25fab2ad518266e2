-- ===== src/Platform/Values.antt =====
-- What the numbers of the environment become.
use peikonpurekkusu_account.Prelude.{
  ℕ, none, [], Option, String, ◌≡◌, ◌↔◌, ◌≤◌, str_eq, false, arith, Bool-cases, inl, ap, eq_iff,
  inr, ◌∙◌,
}
use peikonpurekkusu_account.Prelude.Int.{ℤ, pos}
use peikonpurekkusu_account.Platform.{getint64, load, or_else}
use peikonpurekkusu_account.Prelude.Decimal.{
  codes, print_nat, print_nat_head, parse_int64, parse_int64-print_nat,
}
use peikonpurekkusu_account.Prelude.Word.{max_int64}

module _ (env : String → String) (parse_duration : String → Option ℤ) where
  -- A variable that is set to the decimal form of a number within 64 bits has this number as its
  -- value; one that is set to a text that is no number counts as not set.
  pub getint64-print_nat :
      (key : String) (def : ℤ) (n : ℕ)
      → codes (env key) ≡ print_nat n
      → n ≤ max_int64
      → getint64 env parse_duration key def ≡ pos n
  unfolding getint64
  getint64-print_nat key def n e h = elim (Bool-cases (str_eq (env key) "")) [
    | inl empty ↦
        let (c, cs, head, digit) = print_nat_head n in
        let unset : codes (env key) ≡ [] = ap codes ((eq_iff (env key) "").0 empty) in
        absurd (ground (arith, e, head))
    | inr set_to ↦ rw set_to (ap (or_else def) (ap parse_int64 e ∙ parse_int64-print_nat n h))
  ]

  -- The configuration is accepted just when the three names of the database are set.
  pub load_accepts : ((load env parse_duration).1 ≡ none) ↔ (
      (str_eq (env "ACCOUNT_DB_USER") "" ≡ false)
      × (str_eq (env "ACCOUNT_DB_PASSWORD") "" ≡ false)
      × (str_eq (env "ACCOUNT_DB_NAME") "" ≡ false))
  unfolding load
  load_accepts = (λ e. ground arith, λ e. ground arith)
