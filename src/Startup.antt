-- ===== src/Startup.antt =====
-- cmd/server/main.go: the list of brokers and the probe of the container.
pub mod Csv
pub mod Boot
use peikonpurekkusu_account.Prelude.{
  ℕ, none, some, [], ◌∷◌, List, Option, String, suc, if◌then◌else◌, ltb, zero, str_eq, ◌==◌, ◌-◌,
  ◌<>◌,
}
use peikonpurekkusu_account.Prelude.Lists.{take}

abbrev comma : ℕ
comma = b','

abbrev pub drop {ℓ} : {A : Type ℓ} → ℕ → List A → List A
drop zero xs = xs
drop (suc n) [] = []
drop (suc n) (x ∷ xs) = drop n xs

-- `s[start:i]`
abbrev pub slice : ℕ → ℕ → List ℕ → List ℕ
slice start i s = take (i - start) (drop start s)

abbrev pub flush : List ℕ → ℕ → ℕ → List (List ℕ) → List (List ℕ)
flush s start i out = if ltb start i then slice start i s ∷ out else out

-- The loop at the index `i`, where `rest` is `s[i:]`; what it appends comes in order.
unfoldable pub split_from : List ℕ → ℕ → ℕ → List ℕ → List (List ℕ)
split_from s start i [] = flush s start i []
split_from s start i (c ∷ rest) =
    let onward = split_from s start (suc i) rest in
    let cut = split_from s (suc i) (suc i) rest in
    if c == comma then flush s start i cut else onward

-- `splitCSV`
unfoldable pub split_csv : List ℕ → List (List ℕ)
unfolding split_from
split_csv s = split_from s 0 0 s

-- `selfProbe`: the exit code, by the status that the client gives for a URL, or none for an error.
abbrev pub exit_code : Option ℕ → ℕ
exit_code none = 1
exit_code (some status) = if status == 200 then 0 else 1

unfoldable pub self_probe : (String → String) → (String → Option ℕ) → ℕ
self_probe env get =
    let port = if str_eq (env "HTTP_PORT") "" then "8080" else env "HTTP_PORT" in
    exit_code (get ("http://localhost:" <> (port <> "/health/ready")))
