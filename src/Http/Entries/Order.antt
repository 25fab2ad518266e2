-- ===== src/Http/Entries/Order.antt =====
-- The order of the entries, and what a page takes of it.
use peikonpurekkusu_account.Prelude.{
  ℕ, none, some, [], ◌∷◌, List, if◌then◌else◌, ◌≤◌, ◌<◌, ◌≡◌, Bool, suc, ltb, ◌-◌, zero, ◌⊎◌, ap,
  Option, ◌++◌, arith, inl, ◌==◌, refl, ◌∙◌, Option-cases, inr, true, false,
}
use peikonpurekkusu_account.Schema.{LedgerEntry, Runtime, Uuid, LedgerTransaction}
use peikonpurekkusu_account.Http.{EntryView}
use peikonpurekkusu_account.Http.Entries.{
  newest_first, entries_before, last_id, insert_newest, with_transaction, find_transaction,
}
use peikonpurekkusu_account.Prelude.Lists.{take, length}
use peikonpurekkusu_account.Prelude.Int.{pos}

-- All entries of the account that have their transaction, in the order of the table.
unfoldable pub entries_of :
    Runtime → Uuid → List LedgerTransaction → List LedgerEntry → List EntryView
entries_of x account txns [] = []
entries_of x account txns (e ∷ rest) =
    let others = entries_of x account txns rest in
    if e.account_id == account
    then with_transaction x e (find_transaction e.transaction_id txns) others
    else others

-- The table has its newest row first, under the greatest id.
abbrev pub NewestFirst : ℕ → List LedgerEntry → Type 0
NewestFirst bound [] = Unit
NewestFirst bound (e ∷ rest) = (e.id < bound) × NewestFirst e.id rest

abbrev pub Descending : ℕ → List EntryView → Type 0
Descending bound [] = Unit
Descending bound (v ∷ rest) = (v.id < bound) × Descending v.id rest

unfoldable pub before : ℕ → List EntryView → List EntryView
before n [] = []
before n (v ∷ rest) = if ltb v.id n then v ∷ before n rest else before n rest

abbrev pub drop : ℕ → List EntryView → List EntryView
drop zero vs = vs
drop (suc n) [] = []
drop (suc n) (v ∷ vs) = drop n vs

Descending-weaken : (b c : ℕ) (vs : List EntryView) → b ≤ c → Descending b vs → Descending c vs
Descending-weaken b c [] h d = tt
Descending-weaken b c (v ∷ vs) h d = (omega (arith, d.0), d.1)

Descending-with_transaction :
    (x : Runtime) (b : ℕ) (e : LedgerEntry) (mine : Bool) (t : Option LedgerTransaction)
    (others : List EntryView)
    → e.id < b
    → Descending e.id others
    → Descending b (if mine then with_transaction x e t others else others)
Descending-with_transaction x b e true (some t) others h d = (h, d)
Descending-with_transaction x b e true none others h d =
    Descending-weaken e.id b others (omega arith) d
Descending-with_transaction x b e false t others h d =
    Descending-weaken e.id b others (omega arith) d

pub Descending-entries_of :
    (x : Runtime) (account : Uuid) (txns : List LedgerTransaction) (b : ℕ) (es : List LedgerEntry)
    → NewestFirst b es
    → Descending b (entries_of x account txns es)
unfolding entries_of
Descending-entries_of x account txns b [] h = tt
Descending-entries_of x account txns b (e ∷ es) h =
    Descending-with_transaction x b e (e.account_id == account)
      (find_transaction e.transaction_id txns) (entries_of x account txns es) h.0
      (Descending-entries_of x account txns e.id es h.1)

pub entries_before_filter :
    (x : Runtime) (account : Uuid) (n : ℕ) (txns : List LedgerTransaction) (es : List LedgerEntry)
    → entries_before x account (pos n) txns es ≡ before n (entries_of x account txns es)
unfolding entries_before entries_of before
entries_before_filter x account n txns [] = refl
entries_before_filter x account n txns (e ∷ es) =
    let rest = entries_before_filter x account n txns es in
    elim (Option-cases (find_transaction e.transaction_id txns)) [
      | inl missing ↦ ground (arith, rest)
      | inr (t, found) ↦ ground (arith, rest)
    ]

pub newest_first_sorted : (b : ℕ) (vs : List EntryView) → Descending b vs → newest_first vs ≡ vs
unfolding newest_first insert_newest
newest_first_sorted b [] d = refl
newest_first_sorted b (v ∷ []) d = refl
newest_first_sorted b (v ∷ w ∷ vs) d =
    ap (insert_newest v) (newest_first_sorted v.id (w ∷ vs) d.1) ∙ ground (arith, d.1.0)

pub before_all : (b : ℕ) (vs : List EntryView) → Descending b vs → before b vs ≡ vs
unfolding before
before_all b [] d = refl
before_all b (v ∷ vs) d =
    let rest = before_all b vs (Descending-weaken v.id b vs (omega (arith, d.0)) d.1) in
    ground (arith, rest, d.0)

pub before_before : (m n : ℕ) (vs : List EntryView) → m ≤ n → before m (before n vs) ≡ before m vs
unfolding before
before_before m n [] h = refl
before_before m n (v ∷ vs) h = ground (arith, before_before m n vs h)

pub last_id-take : (b k : ℕ) (vs : List EntryView) → Descending b vs → last_id b (take k vs) ≤ b
last_id-take b zero vs d = omega arith
last_id-take b (suc k) [] d = omega arith
last_id-take b (suc k) (v ∷ vs) d = omega (arith, d.0, last_id-take v.id k vs d.1)

-- What is before the last id of a page is what follows the page.
pub before_page :
    (b k : ℕ) (vs : List EntryView)
    → Descending b vs
    → before (last_id b (take k vs)) vs ≡ drop k vs
unfolding before
before_page b zero vs d = before_all b vs d
before_page b (suc k) [] d = refl
before_page b (suc k) (v ∷ vs) d =
    ground (arith, before_page v.id k vs d.1, last_id-take v.id k vs d.1)

pub Descending-drop :
    (b k : ℕ) (vs : List EntryView)
    → Descending b vs
    → Descending (last_id b (take k vs)) (drop k vs)
Descending-drop b zero vs d = d
Descending-drop b (suc k) [] d = tt
Descending-drop b (suc k) (v ∷ vs) d = Descending-drop v.id k vs d.1

pub length-drop : (k : ℕ) (vs : List EntryView) → length (drop k vs) ≡ length vs - k
length-drop zero vs = omega arith
length-drop (suc k) [] = omega arith
length-drop (suc k) (v ∷ vs) = omega (arith, length-drop k vs)

pub take-drop : (k : ℕ) (vs : List EntryView) → take k vs ++ drop k vs ≡ vs
take-drop zero vs = refl
take-drop (suc k) [] = refl
take-drop (suc k) (v ∷ vs) = ap (λ l. v ∷ l) (take-drop k vs)

pub take_cases : (k : ℕ) (vs : List EntryView) → (length (take k vs) ≡ k) ⊎ (take k vs ≡ vs)
take_cases zero vs = inl refl
take_cases (suc k) [] = inr refl
take_cases (suc k) (v ∷ vs) = elim (take_cases k vs) [
  | inl full ↦ inl (ap suc full)
  | inr whole_list ↦ inr (ap (λ l. v ∷ l) whole_list)
]

pub length-take : (k : ℕ) (vs : List EntryView) → length (take k vs) ≡ k → k ≤ length vs
length-take zero vs h = omega arith
length-take (suc k) [] h = absurd (omega arith)
length-take (suc k) (v ∷ vs) h = omega (arith, length-take k vs (omega arith))

pub length-take_bound : (k : ℕ) (vs : List EntryView) → length (take k vs) ≤ k
length-take_bound zero vs = omega arith
length-take_bound (suc k) [] = omega arith
length-take_bound (suc k) (v ∷ vs) = omega (arith, length-take_bound k vs)

pub last_id_full :
    (b c k : ℕ) (page : List EntryView) → length page ≡ suc k → last_id b page ≡ last_id c page
last_id_full b c k [] h = absurd (omega arith)
last_id_full b c k (v ∷ page) h = refl
