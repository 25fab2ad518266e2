-- ===== src/Startup/Csv.antt =====
-- The split of a list at its commas.
use peikonpurekkusu_account.Prelude.{
  ℕ, [], ◌∷◌, List, ◌++◌, ◌≡◌, if◌then◌else◌, ap, ◌∙◌, ◌==◌, suc, ◌+◌, sym, refl, ◌-◌, arith,
  Bool-cases, inl, inr,
}
use peikonpurekkusu_account.Startup.{drop, flush, slice, split_csv, split_from}
use peikonpurekkusu_account.Prelude.Lists.{take, length, length-append}
use mathlib.Core.List.{append_assoc, append-nil}

-- The parts between the commas, the empty ones included: the first one and the others.
unfoldable pub parts : List ℕ → List ℕ × List (List ℕ)
parts [] = ([], [])
parts (c ∷ rest) =
    let (first, others) = parts rest in
    if c == b',' then ([], first ∷ others) else (c ∷ first, others)

abbrev pub add_nonempty : List ℕ → List (List ℕ) → List (List ℕ)
add_nonempty [] out = out
add_nonempty (c ∷ cs) out = (c ∷ cs) ∷ out

abbrev pub nonempty : List (List ℕ) → List (List ℕ)
nonempty [] = []
nonempty (p ∷ rest) = add_nonempty p (nonempty rest)

drop-append : (pre l : List ℕ) → drop (length pre) (pre ++ l) ≡ l
drop-append [] l = refl
drop-append (c ∷ pre) l = drop-append pre l

take-append : (cur l : List ℕ) → take (length cur) (cur ++ l) ≡ cur
take-append [] l = refl
take-append (c ∷ cur) l = ap (λ t. c ∷ t) (take-append cur l)

-- What the loop has read: `pre` up to `start`, `cur` from there to `i`.
slice-append :
    (pre cur rest : List ℕ)
    → slice (length pre) (length pre + length cur) (pre ++ (cur ++ rest)) ≡ cur
slice-append pre cur rest =
    let read : length pre + length cur - length pre ≡ length cur = omega arith in
    ap (λ n. take n (drop (length pre) (pre ++ (cur ++ rest)))) read
    ∙ ap (take (length cur)) (drop-append pre (cur ++ rest))
    ∙ take-append cur rest

flush-append :
    (pre cur rest : List ℕ) (out : List (List ℕ))
    → flush (pre ++ (cur ++ rest)) (length pre) (length pre + length cur) out ≡ add_nonempty cur out
flush-append pre [] rest out = ground arith
flush-append pre (c ∷ cur) rest out = ground (arith, slice-append pre (c ∷ cur) rest)

-- How far the loop has come.
record At (s pre cur rest : List ℕ) (start i : ℕ) : Type 0 where
  whole : s ≡ pre ++ (cur ++ rest)
  left : start ≡ length pre
  right : i ≡ length pre + length cur

flush-At :
    (s pre cur rest : List ℕ) (start i : ℕ) (out : List (List ℕ))
    → At s pre cur rest start i
    → flush s start i out ≡ add_nonempty cur out
flush-At s pre cur rest start i out here =
    ap (λ l. flush l start i out) here.whole
    ∙ ap (λ n. flush (pre ++ (cur ++ rest)) n i out) here.left
    ∙ ap (λ n. flush (pre ++ (cur ++ rest)) (length pre) n out) here.right
    ∙ flush-append pre cur rest out

At-cut :
    (s pre cur rest : List ℕ) (c start i : ℕ)
    → At s pre cur (c ∷ rest) start i
    → At s (pre ++ (cur ++ (c ∷ []))) [] rest (suc i) (suc i)
At-cut s pre cur rest c start i here =
    let count = length-append pre (cur ++ (c ∷ [])) in
    let count' = length-append cur (c ∷ []) in
    record {
      whole =
          here.whole
          ∙ ap (λ l. pre ++ l) (sym (append_assoc cur (c ∷ []) rest))
          ∙ sym (append_assoc pre (cur ++ (c ∷ [])) rest);
      left = omega (arith, here.right);
      right = omega (arith, here.right);
    }

At-onward :
    (s pre cur rest : List ℕ) (c start i : ℕ)
    → At s pre cur (c ∷ rest) start i
    → At s pre (cur ++ (c ∷ [])) rest start (suc i)
At-onward s pre cur rest c start i here =
    let count = length-append cur (c ∷ []) in
    record {
      whole = here.whole ∙ ap (λ l. pre ++ l) (sym (append_assoc cur (c ∷ []) rest));
      left = here.left;
      right = omega (arith, here.right);
    }

split_from-parts :
    (s pre cur rest : List ℕ) (start i : ℕ)
    → At s pre cur rest start i
    → split_from s start i rest ≡ add_nonempty (cur ++ (parts rest).0) (nonempty (parts rest).1)
unfolding split_from parts
split_from-parts s pre cur [] start i here =
    flush-At s pre cur [] start i [] here ∙ ap (λ l. add_nonempty l []) (sym (append-nil cur))
split_from-parts s pre cur (c ∷ rest) start i here =
    let ends =
      split_from-parts s (pre ++ (cur ++ (c ∷ []))) [] rest (suc i) (suc i)
        (At-cut s pre cur rest c start i here) in
    let goes =
      split_from-parts s pre (cur ++ (c ∷ [])) rest start (suc i)
        (At-onward s pre cur rest c start i here) in
    elim (Bool-cases (c == b',')) [
      | inl comma_here ↦ rw comma_here (
          flush-At s pre cur (c ∷ rest) start i (split_from s (suc i) (suc i) rest) here
          ∙ ap (add_nonempty cur) ends
          ∙ ap (λ l. add_nonempty l (nonempty ((parts rest).0 ∷ (parts rest).1)))
              (sym (append-nil cur)))
      | inr other_here ↦ rw other_here (
          goes
          ∙ ap (λ l. add_nonempty l (nonempty (parts rest).1))
              (append_assoc cur (c ∷ []) (parts rest).0))
    ]

-- The brokers are the parts of the text between its commas that are not empty, in order.
pub split_csv-parts : (s : List ℕ) → split_csv s ≡ nonempty ((parts s).0 ∷ (parts s).1)
unfolding split_csv
split_csv-parts s =
    split_from-parts s [] [] s 0 0 (record { whole = refl; left = refl; right = refl })
