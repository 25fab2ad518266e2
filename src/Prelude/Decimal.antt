-- ===== src/Prelude/Decimal.antt =====
-- Decimal numbers as code points: `strconv.ParseInt` in base 10 at 64 bits, and `fmt.Sprint`.
use Prim.Native.Nat.{ℕ, zero, suc, ◌+◌, ◌-◌, ◌*◌, ◌/◌, ◌%◌, ◌≤◌, ◌<◌}
use Prim.Native.Char.{code}
use Prim.Native.String.{String}
use mathlib.Core.Path.{◌≡◌, ◌∙◌, ap, sym}
use mathlib.Core.Logic.{inl, inr}
use mathlib.Core.Bool.{Bool, true, false, ◌&&◌}
use mathlib.Core.Option.{Option, none, some}
use mathlib.Core.List.{List, [], ◌∷◌}
use native.Mathlib.Omega.{arith}
use peikonpurekkusu_account.Prelude.Tests.{ltb, leb, ◌==◌, if◌then◌else◌, Bool-cases}
use peikonpurekkusu_account.Prelude.Int.{ℤ, pos, negsuc}
use peikonpurekkusu_account.Prelude.Word.{max_int64, half_range}

abbrev pub codes : String → List ℕ
codes String.[] = []
codes (String.◌∷◌ c s) = code c ∷ codes s

abbrev is_digit : ℕ → Bool
is_digit c = leb b'0' c && leb c b'9'

unfoldable pub parse_digits : List ℕ → ℕ → Option ℕ
parse_digits [] acc = some acc
parse_digits (c ∷ cs) acc = if is_digit c then parse_digits cs (acc * 10 + (c - b'0')) else none

abbrev pub parse_unsigned : List ℕ → Option ℕ
parse_unsigned [] = none
parse_unsigned (c ∷ cs) = parse_digits (c ∷ cs) 0

abbrev pub negate : ℕ → ℤ
negate zero = pos 0
negate (suc n) = negsuc n

abbrev pub in_range : Bool → Option ℕ → Option ℤ
in_range negative none = none
in_range true (some n) = if leb n half_range then some (negate n) else none
in_range false (some n) = if leb n max_int64 then some (pos n) else none

unfoldable pub parse_int64 : List ℕ → Option ℤ
unfolding parse_digits
parse_int64 [] = none
parse_int64 (c ∷ cs) =
    if c == b'-'
    then in_range true (parse_unsigned cs)
    else if c == b'+'
    then in_range false (parse_unsigned cs)
    else in_range false (parse_unsigned (c ∷ cs))

print_from : ℕ → ℕ → List ℕ → List ℕ
print_from zero n out = out
print_from (suc fuel) n out =
    let more = print_from fuel (n / 10) ((b'0' + n % 10) ∷ out) in
    if ltb n 10 then (b'0' + n) ∷ out else more

-- A number has fewer digits than its value and one.
unfoldable pub print_nat : ℕ → List ℕ
unfolding print_from
print_nat n = print_from (suc n) n []

parse_digits-print_from :
    (fuel n : ℕ) (out : List ℕ)
    → n < fuel
    → parse_digits (print_from fuel n out) 0 ≡ parse_digits out n
unfolding parse_digits print_from
parse_digits-print_from zero n out h = absurd (omega arith)
parse_digits-print_from (suc fuel) n out h = elim (Bool-cases (ltb n 10)) [
  | inl small ↦ ground arith
  | inr large ↦ ground (arith, parse_digits-print_from fuel (n / 10) ((b'0' + n % 10) ∷ out))
]

-- The text starts with a digit.
print_from_head :
    (fuel n : ℕ) (out : List ℕ)
    → n < fuel
    → (c : ℕ) × (cs : List ℕ) × (print_from fuel n out ≡ c ∷ cs) × (b'0' ≤ c)
unfolding print_from
print_from_head zero n out h = absurd (omega arith)
print_from_head (suc fuel) n out h = elim (Bool-cases (ltb n 10)) [
  | inl small ↦ (b'0' + n, out, ground arith, omega arith)
  | inr large ↦
      let (c, cs, e, digit) =
        print_from_head fuel (n / 10) ((b'0' + n % 10) ∷ out) (ground arith) in
      (c, cs, ground arith, digit)
]

parse_int64_digit :
    (c : ℕ) (cs : List ℕ) (n : ℕ)
    → b'0' ≤ c
    → n ≤ max_int64
    → parse_digits (c ∷ cs) 0 ≡ some n
    → parse_int64 (c ∷ cs) ≡ some (pos n)
unfolding parse_int64
parse_int64_digit c cs n digit h read = rw read (ground arith)

pub print_nat_head : (n : ℕ) → (c : ℕ) × (cs : List ℕ) × (print_nat n ≡ c ∷ cs) × (b'0' ≤ c)
unfolding print_nat
print_nat_head n = print_from_head (suc n) n [] (omega arith)

-- A printed number is read back.
pub parse_int64-print_nat : (n : ℕ) → n ≤ max_int64 → parse_int64 (print_nat n) ≡ some (pos n)
unfolding print_nat parse_digits
parse_int64-print_nat n h =
    let (c, cs, e, digit) = print_nat_head n in
    ap parse_int64 e
    ∙ parse_int64_digit c cs n digit h
        (ap (λ l. parse_digits l 0) (sym e) ∙ parse_digits-print_from (suc n) n [] (omega arith))
