-- ===== src/Tests/Settings.antt =====
-- The configuration in an environment, and a list of brokers.
use peikonpurekkusu_account.Prelude.{
  none, [], ◌∷◌, Option, String, if◌then◌else◌, str_eq, ◌≡◌, refl,
}
use peikonpurekkusu_account.Prelude.Int.{ℤ}
use peikonpurekkusu_account.Startup.{split_csv, split_from}
use peikonpurekkusu_account.Prelude.Decimal.{print_nat, codes}
use peikonpurekkusu_account.Startup.Csv.{nonempty, parts, split_csv-parts}

abbrev environment : String → String
environment key =
    if str_eq key "WELCOME_SEED_MINOR_UNITS"
    then "2500"
    else if str_eq key "ACCOUNT_DB_USER"
    then "account"
    else ""

abbrev no_duration : String → Option ℤ
no_duration s = none

prints : codes (environment "WELCOME_SEED_MINOR_UNITS") ≡ print_nat 2500
unfolding print_nat
prints = refl

-- "a,,b"
split_csv-parts_example :
    split_csv (97 ∷ 44 ∷ 44 ∷ 98 ∷ [])
    ≡ nonempty ((parts (97 ∷ 44 ∷ 44 ∷ 98 ∷ [])).0 ∷ (parts (97 ∷ 44 ∷ 44 ∷ 98 ∷ [])).1)
split_csv-parts_example = split_csv-parts (97 ∷ 44 ∷ 44 ∷ 98 ∷ [])

runs_split : split_csv (97 ∷ 44 ∷ 44 ∷ 98 ∷ []) ≡ (97 ∷ []) ∷ (98 ∷ []) ∷ []
unfolding split_csv split_from
runs_split = refl
