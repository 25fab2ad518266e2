-- ===== src/Ledger/Books/Clean.antt =====
-- Consistent books reconcile.
use peikonpurekkusu_account.Prelude.{
  ◌≡◌, refl, false, some, List, [], ◌∷◌, arith, Option-cases, inl, inr, ◌∙◌, ap, sym, true,
}
use peikonpurekkusu_account.Prelude.Lists.{All, take}
use peikonpurekkusu_account.Schema.{Account, Balance, Store}
use peikonpurekkusu_account.Sql.Journal.{find_account, account_exists}
use peikonpurekkusu_account.Sql.Balances.{find_balance}
use peikonpurekkusu_account.Ledger.Reconcile.{query_row, reconcile}
use peikonpurekkusu_account.Ledger.Reconcile.Exact.{
  RowsInRange, disagrees-is_off, All-take, reconcile-count,
}
use peikonpurekkusu_account.Ledger.Reconcile.Drift.{disagrees}
use peikonpurekkusu_account.Ledger.Reconcile.Expected.{
  tally, audited, is_off, expected_report, off_count,
}
use peikonpurekkusu_account.Ledger.Books.{IsConsistent, UniqueAccounts}
use peikonpurekkusu_account.Sql.Fetch.{Fetch, breaks, broken_after, refused, whole}

abbrev FoundIn : List Account → Account → Type 0
FoundIn accounts a = find_account a.id accounts ≡ some a

still_found :
    (b : Account) (accounts rest : List Account)
    → account_exists b.id accounts ≡ false
    → All (FoundIn accounts) rest
    → All (FoundIn (b ∷ accounts)) rest
unfolding account_exists
still_found b accounts [] new all = tt
still_found b accounts (a ∷ rest) new all =
    (ground (arith, all.0), still_found b accounts rest new all.1)

-- With unique ids each account is the one that its id finds.
each_found : (accounts : List Account) → UniqueAccounts accounts → All (FoundIn accounts) accounts
unfolding account_exists
each_found [] u = tt
each_found (a ∷ rest) u = (ground arith, still_found a rest rest u.0 (each_found rest u.1))

module _ (s : Store) (books : IsConsistent s) where
  agrees :
      (a : Account) (b : Balance)
      → FoundIn s.accounts a
      → find_balance a.id s.balances ≡ some b
      → disagrees (query_row s a b) ≡ false
  unfolding disagrees query_row
  agrees a b found eb = ground (
    arith,
    books.held_agrees a.id b eb,
    books.available_agrees a.id b a eb found,
    books.no_asset_holds a.id a found,
  )

  none_off :
      (rest : List Account)
      → All (FoundIn s.accounts) rest
      → All (λ r. is_off s r ≡ false) (audited s rest)
  unfolding audited
  none_off [] all = tt
  none_off (a ∷ rest) all = elim (Option-cases (find_balance a.id s.balances)) [
    | inl absent ↦ rw (absent, audited) (none_off rest all.1)
    | inr (b, found) ↦
        rw (found, audited)
          (sym (disagrees-is_off s a b) ∙ agrees a b all.0 found, none_off rest all.1)
  ]

  off_count-zero :
      (rows : List (Account × Balance)) → All (λ r. is_off s r ≡ false) rows → off_count s rows ≡ 0
  unfolding tally
  off_count-zero [] all = refl
  off_count-zero (r ∷ rest) all = rw (all.0, off_count-zero rest all.1) refl

  -- No drift is reported on consistent books, whatever comes of the query.
  pub reconcile-IsConsistent :
      (f : Fetch)
      → RowsInRange s s.accounts
      → reconcile f s ≡ record { drifted = 0; failed = breaks f }
  reconcile-IsConsistent f range = reconcile-count f s range ∙ clean f
    where
      off : All (λ r. is_off s r ≡ false) (audited s s.accounts)
      off = none_off s.accounts (each_found s.accounts books.unique_accounts)

      clean : (f : Fetch) → expected_report f s ≡ record { drifted = 0; failed = breaks f }
      clean refused = refl
      clean whole =
          ap (λ n. record { drifted = n; failed = false })
            (off_count-zero (audited s s.accounts) off)
      clean (broken_after n) =
          ap (λ k. record { drifted = k; failed = true })
            (off_count-zero (take n (audited s s.accounts))
              (All-take _ n (audited s s.accounts) off))
