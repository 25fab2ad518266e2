-- ===== src/Http/Accounts/Listing.antt =====
-- What `listAccounts` lists.
use mathlib.Core.List.{Memᴰ}
use mathlib.Core.List.Memᴰ.{head, tail}
use peikonpurekkusu_account.Prelude.{
  none, some, [], ◌∷◌, List, Option, arith, Bool-cases, ◌≤◌, sym, leb, inl, inr, ◌≡◌, ◌==◌, ap,
  true, ◌∙◌, Bool, if◌then◌else◌, refl, false,
}
use peikonpurekkusu_account.Http.{
  AccountView, Request, caller_id, whole, write_json, Body, Response, failed,
}
use peikonpurekkusu_account.Http.Accounts.{
  order_by_created, insert_view, list_accounts, owned_accounts, view, accounts_of, with_balance,
  accounts_reply,
}
use peikonpurekkusu_account.Schema.{Runtime, Uuid, Store, Account, Balance}
use peikonpurekkusu_account.Prelude.Lists.{All, take}
use mathlib.Core.Path.{subst}
use peikonpurekkusu_account.Sql.Balances.{find_balance}
use peikonpurekkusu_account.Sql.Fetch.{Fetch, fetch, broken_after, refused}

-- Ordered by the time of creation.
abbrev pub IsOrdered : List AccountView → Type 0
IsOrdered [] = Unit
IsOrdered (v ∷ []) = Unit
IsOrdered (v ∷ w ∷ rest) = (v.created_at ≤ w.created_at) × IsOrdered (w ∷ rest)

insert_view-IsOrdered :
    (v : AccountView) (views : List AccountView) → IsOrdered views → IsOrdered (insert_view v views)
unfolding insert_view
insert_view-IsOrdered v [] h = tt
insert_view-IsOrdered v (w ∷ []) h = ground arith
insert_view-IsOrdered v (w ∷ u ∷ rest) h = ground (arith, insert_view-IsOrdered v (u ∷ rest))

order_by_created-IsOrdered : (views : List AccountView) → IsOrdered (order_by_created views)
unfolding order_by_created
order_by_created-IsOrdered [] = tt
order_by_created-IsOrdered (v ∷ rest) =
    insert_view-IsOrdered v (order_by_created rest) (order_by_created-IsOrdered rest)

module _ {ℓ} (P : AccountView → Type ℓ) where
  All-insert_view :
      (v : AccountView) (views : List AccountView) → P v → All P views → All P (insert_view v views)
  unfolding insert_view
  All-insert_view v [] h each = (h, tt)
  All-insert_view v (w ∷ rest) h each = elim (Bool-cases (leb v.created_at w.created_at)) [
    | inl first ↦ rw first (h, each)
    | inr later ↦ rw later (each.0, All-insert_view v rest h each.1)
  ]

  All-order_by_created : (views : List AccountView) → All P views → All P (order_by_created views)
  unfolding order_by_created
  All-order_by_created [] each = tt
  All-order_by_created (v ∷ rest) each =
      All-insert_view v (order_by_created rest) each.0 (All-order_by_created rest each.1)

insert_view_head : (v : AccountView) (views : List AccountView) → Memᴰ v (insert_view v views)
unfolding insert_view
insert_view_head v [] = head refl
insert_view_head v (w ∷ rest) = elim (Bool-cases (leb v.created_at w.created_at)) [
  | inl first ↦ rw first (head refl)
  | inr later ↦ rw later (tail (insert_view_head v rest))
]

insert_view_tail :
    (u v : AccountView) (views : List AccountView) → Memᴰ u views → Memᴰ u (insert_view v views)
unfolding insert_view
insert_view_tail u v [] m = elim m [ ]
insert_view_tail u v (w ∷ rest) (head e) = elim (Bool-cases (leb v.created_at w.created_at)) [
  | inl first ↦ rw first (tail (head e))
  | inr later ↦ rw later (head e)
]
insert_view_tail u v (w ∷ rest) (tail m) = elim (Bool-cases (leb v.created_at w.created_at)) [
  | inl first ↦ rw first (tail (tail m))
  | inr later ↦ rw later (tail (insert_view_tail u v rest m))
]

order_by_created_mem :
    (u : AccountView) (views : List AccountView) → Memᴰ u views → Memᴰ u (order_by_created views)
unfolding order_by_created
order_by_created_mem u [] m = elim m [ ]
order_by_created_mem u (v ∷ rest) (head e) =
    subst (λ w. Memᴰ w (insert_view v (order_by_created rest))) (sym e)
      (insert_view_head v (order_by_created rest))
order_by_created_mem u (v ∷ rest) (tail m) =
    insert_view_tail u v (order_by_created rest) (order_by_created_mem u rest m)

module _ (x : Runtime) (user : Uuid) (s : Store) where
  -- The view of an account of the user that has a balance.
  abbrev pub IsOwned : List Account → AccountView → Type 0
  IsOwned table v =
      (a : Account) × (b : Balance) × Memᴰ a table
      × (a.user_id ≡ user)
      × (find_balance a.id s.balances ≡ some b)
      × (v ≡ view x a b)

  pub record IsListing (views : List AccountView) : Type 0 where
    pub ordered : IsOrdered views
    pub owned : All (IsOwned s.accounts) views
    pub complete :
        (a : Account) (b : Balance)
        → Memᴰ a s.accounts
        → a.user_id ≡ user
        → find_balance a.id s.balances ≡ some b
        → Memᴰ (view x a b) views

  IsOwned-tail :
      (a : Account) (table : List Account) (views : List AccountView)
      → All (IsOwned table) views
      → All (IsOwned (a ∷ table)) views
  IsOwned-tail a table [] each = tt
  IsOwned-tail a table (v ∷ views) each =
      let (o, b, m, u, f, e) = each.0 in
      ((o, b, tail m, u, f, e), IsOwned-tail a table views each.1)

  joined-IsOwned :
      (a : Account) (table : List Account) (others : List AccountView) (mine : Bool)
      (b : Option Balance)
      → (a.user_id == user) ≡ mine
      → find_balance a.id s.balances ≡ b
      → All (IsOwned (a ∷ table)) others
      → All (IsOwned (a ∷ table)) (if mine then with_balance x a b others else others)
  joined-IsOwned a table others true (some b) e f rest =
      ((a, b, head refl, ground arith, f, refl), rest)
  joined-IsOwned a table others true none e f rest = rest
  joined-IsOwned a table others false b e f rest = rest

  owned_accounts-IsOwned :
      (table : List Account) → All (IsOwned table) (owned_accounts x user s.balances table)
  unfolding owned_accounts
  owned_accounts-IsOwned [] = tt
  owned_accounts-IsOwned (a ∷ table) =
      let others = owned_accounts x user s.balances table in
      joined-IsOwned a table others (a.user_id == user) (find_balance a.id s.balances) refl refl
        (IsOwned-tail a table others (owned_accounts-IsOwned table))

  joined_mem :
      (v : AccountView) (c : Account) (others : List AccountView) (mine : Bool) (d : Option Balance)
      → Memᴰ v others
      → Memᴰ v (if mine then with_balance x c d others else others)
  joined_mem v c others true (some d) m = tail m
  joined_mem v c others true none m = m
  joined_mem v c others false d m = m

  owned_accounts_complete :
      (table : List Account) (a : Account) (b : Balance)
      → Memᴰ a table
      → a.user_id ≡ user
      → find_balance a.id s.balances ≡ some b
      → Memᴰ (view x a b) (owned_accounts x user s.balances table)
  unfolding owned_accounts
  owned_accounts_complete [] a b m e f = elim m [ ]
  owned_accounts_complete (c ∷ table) a b (head same) e f =
      let mine : (c.user_id == user) ≡ true =
        ground (arith, ap (λ (t : Account). t.user_id) same) in
      let found : find_balance c.id s.balances ≡ some b =
        ap (λ (t : Account). find_balance t.id s.balances) (sym same) ∙ f in
      rw mine (rw found (head (ap (λ t. view x t b) same)))
  owned_accounts_complete (c ∷ table) a b (tail m) e f =
      joined_mem (view x a b) c (owned_accounts x user s.balances table) (c.user_id == user)
        (find_balance c.id s.balances) (owned_accounts_complete table a b m e f)

  -- The answer that shows these accounts, if the query gives all its rows: a refused query is
  -- answered with 500, and a connection that breaks behind n rows with the first n accounts.
  abbrev pub shows : Fetch → List AccountView → Response
  shows refused views = failed
  shows whole views = write_json (Body.accounts views s.clock)
  shows (broken_after n) views = write_json (Body.accounts (take n views) s.clock)

  accounts_reply-shows :
      (f : Fetch) (views : List AccountView)
      → accounts_reply s.clock (fetch f views) ≡ shows f views
  accounts_reply-shows refused views = refl
  accounts_reply-shows whole views = refl
  accounts_reply-shows (broken_after n) views = refl

  -- The caller is shown the accounts that have its user id and a balance, all of them and no
  -- others, the oldest first.
  pub list_accounts-IsListing :
      (f : Fetch) (r : Request)
      → caller_id x r ≡ some user
      → (views : List AccountView) × (list_accounts x f r s ≡ shows f views) × IsListing views
  unfolding list_accounts
  list_accounts-IsListing f r e = (
    order_by_created (owned_accounts x user s.balances s.accounts),
    ap (λ u. accounts_of x f u s) e
        ∙ accounts_reply-shows f (order_by_created (owned_accounts x user s.balances s.accounts)),
    record {
      ordered = order_by_created-IsOrdered (owned_accounts x user s.balances s.accounts);
      owned =
          All-order_by_created (IsOwned s.accounts) (owned_accounts x user s.balances s.accounts)
            (owned_accounts-IsOwned s.accounts);
      complete = λ a b m u f.
          order_by_created_mem (view x a b) (owned_accounts x user s.balances s.accounts)
            (owned_accounts_complete s.accounts a b m u f);
    },
  )
