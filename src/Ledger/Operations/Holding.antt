-- ===== src/Ledger/Operations/Holding.antt =====
-- `hold`: when it succeeds, and what it does to the balances.
use peikonpurekkusu_account.Prelude.{
  ℕ, ◌+◌, ◌-◌, ◌≤◌, ◌≡◌, ◌≢◌, String, some, arith, none, ◌<◌, false, eq_iff, ◌↔◌, inl, inr,
}
use peikonpurekkusu_account.Prelude.Int.{ℤ, pos, pos_part, negsuc}
use peikonpurekkusu_account.Prelude.Word.{max_int64, neg64, neg64-pos, sub64-pos}
use peikonpurekkusu_account.Schema.{Uuid, Balance, Store, Runtime, Account}
use peikonpurekkusu_account.Tx.{ok, Result-cases}
use peikonpurekkusu_account.Sql.Balances.{
  find_balance, rows_affected, lock_balance, bump_balance, row_error,
}
use peikonpurekkusu_account.Sql.Balances.Laws.{
  find_balance-adjust, row_error-none_iff, rows_error-single, rows_error-row_error,
}
use peikonpurekkusu_account.Ledger.Operations.{
  HoldResult, hold, lock_balance, none, insert_hold, active_hold_of, pos_part, bump_balance, false,
  write,
}
use peikonpurekkusu_account.Ledger.Effects.{hold-eq-ok}
use peikonpurekkusu_account.Sql.Holds.{hold_error, insert_hold, active_hold_of, hold_exists}
use peikonpurekkusu_account.Sql.Journal.{
  outbox_has, account_exists, find_account, amount_error, write,
}
use peikonpurekkusu_account.Ledger.Books.Preserve.{hold_error-none}
use peikonpurekkusu_account.Ledger.Books.Rows.{amount_error-positive}

module _ (x : Runtime) (account payment : Uuid) (n : ℕ) (currency : String) (ttl : ℤ)
    (s : Store) where
  -- A hold that succeeds, on an account whose available amount is an int64, moves its amount from
  -- available to held, reports what is left, and touches no other account.
  pub hold_moves :
      (b : Balance) {r : HoldResult} {t : Store}
      → find_balance account s.balances ≡ some b
      → b.available ≤ max_int64
      → hold x account payment (pos n) currency ttl s ≡ ok (r, t)
      → (n ≤ b.available)
        × (find_balance account t.balances
            ≡ some (record b {
              available = b.available - n;
              held = b.held + n;
              version = b.version + 1;
            }))
        × (r.available_after ≡ pos (b.available - n))
        × ((c : Uuid) → c ≢ account → find_balance c t.balances ≡ find_balance c s.balances)
  hold_moves b eb bigint e =
      let (b', a, d) = hold-eq-ok x account payment (pos n) currency ttl s e in
      let same : b' ≡ b = ground (arith, d.balance) in
      let enough : n ≤ b.available = ground (arith, d.enough) in
      (
        enough,
        rw d.balances (
            ground (
              arith,
              find_balance-adjust account (neg64 (pos n)) (pos n) account s.balances,
              neg64-pos n,
            )),
        rw (d.result, same) (sub64-pos b.available n bigint enough),
        λ c ne.
            rw d.balances
              (ground (arith, find_balance-adjust account (neg64 (pos n)) (pos n) c s.balances)),
      )

-- When a hold is accepted: the account is there, in the currency asked for, with enough available
-- funds and room in the columns; the amount is positive, the ids drawn for the hold and its outbox
-- row are new, and the payment has no active hold.
pub record HoldAllowed (x : Runtime) (account payment : Uuid) (amount : ℤ) (currency : String)
    (s : Store) (b : Balance) (a : Account) : Type 0 where
  pub balance : find_balance account s.balances ≡ some b
  pub found : find_account account s.accounts ≡ some a
  pub same_currency : a.currency ≡ currency
  pub positive : 0 < pos_part amount
  pub enough : pos_part amount ≤ b.available
  pub held_room : b.held + pos_part amount ≤ max_int64
  pub version_room : b.version < max_int64
  pub new_id : hold_exists (x.fresh s.drawn) s.holds ≡ false
  pub no_active_hold : active_hold_of payment s.holds ≡ none
  pub new_row : outbox_has (x.fresh (s.drawn + 1)) s.outbox ≡ false

abbrev pub Succeeds : Runtime → Uuid → Uuid → ℤ → String → ℤ → Store → Type 0
Succeeds x account payment amount currency ttl s =
    (r : HoldResult) × (t : Store) × (hold x account payment amount currency ttl s ≡ ok (r, t))

hold_error-free :
    (id account payment : Uuid) (amount : ℤ) (s : Store)
    → hold_error id account payment amount s ≡ none
    → active_hold_of payment s.holds ≡ none
unfolding hold_error
hold_error-free id account payment amount s e = ground arith

hold_error_of :
    (id account payment : Uuid) (n : ℕ) (s : Store) (a : Account)
    → 0 < n
    → n ≤ max_int64
    → hold_exists id s.holds ≡ false
    → active_hold_of payment s.holds ≡ none
    → find_account account s.accounts ≡ some a
    → hold_error id account payment (pos n) s ≡ none
unfolding hold_error account_exists amount_error
hold_error_of id account payment n s a p m new free found = ground arith

module _ (x : Runtime) (account payment : Uuid) (currency : String) (ttl : ℤ) (s : Store)
    (single : rows_affected account s.balances ≡ 1) where
  hold-Succeeds :
      (amount : ℤ) (b : Balance) (a : Account)
      → b.available ≤ max_int64
      → HoldAllowed x account payment amount currency s b a
      → Succeeds x account payment amount currency ttl s
  unfolding hold lock_balance insert_hold bump_balance write
  hold-Succeeds (negsuc n) b a bigint h = absurd (omega (arith, h.positive))
  hold-Succeeds (pos n) b a bigint h =
      let fits : row_error (neg64 (pos n)) (pos n) b ≡ none =
        (row_error-none_iff account (neg64 (pos n)) (pos n) b).1
          (ground (arith, neg64-pos n, h.enough, h.held_room, h.version_room)) in
      let inserts =
        hold_error_of (x.fresh s.drawn) account payment n s a h.positive (omega (arith, h.enough))
          h.new_id h.no_active_hold h.found in
      let adjusts =
        rows_error-single account (neg64 (pos n)) (pos n) s.balances b single h.balance fits in
      elim (Result-cases (hold x account payment (pos n) currency ttl s)) [
        | inl ((r, t), e) ↦ (r, t, e)
        | inr (f, e) ↦ absurd (
            ground (
              arith,
              h.balance,
              h.found,
              h.same_currency,
              eq_iff a.currency currency,
              h.enough,
              inserts,
              h.new_row,
              adjusts,
              single,
            ))
      ]

  hold-Succeeds_only :
      (amount : ℤ)
      → Succeeds x account payment amount currency ttl s
      → (b : Balance) × (a : Account) × HoldAllowed x account payment amount currency s b a
  hold-Succeeds_only (negsuc n) (r, t, e) =
      let (b, a, d) = hold-eq-ok x account payment (negsuc n) currency ttl s e in
      absurd (
        unfold amount_error in
        ground (arith, hold_error-none (x.fresh s.drawn) account payment (negsuc n) s d.inserts))
  hold-Succeeds_only (pos n) (r, t, e) =
      let (b, a, d) = hold-eq-ok x account payment (pos n) currency ttl s e in
      let (accepted, new, _) =
        hold_error-none (x.fresh s.drawn) account payment (pos n) s d.inserts in
      let (positive, small, _) = amount_error-positive (pos n) accepted in
      let fits =
        (row_error-none_iff account (neg64 (pos n)) (pos n) b).0
          (rows_error-row_error account (neg64 (pos n)) (pos n) s.balances b d.adjusts d.balance) in
      (
        b,
        a,
        record {
          balance = d.balance;
          found = d.account_found;
          same_currency = (eq_iff a.currency currency).0 d.same_currency;
          positive = positive;
          enough = ground (arith, d.enough);
          held_room = omega (arith, fits.3);
          version_room = fits.4;
          new_id = new;
          no_active_hold = hold_error-free (x.fresh s.drawn) account payment (pos n) s d.inserts;
          new_row = d.new_row;
        },
      )

  -- Where the account has one balance row and its available amount is an int64, a hold succeeds
  -- exactly when it is allowed: the account is there, in the currency asked for, with enough
  -- available funds and room in the columns; the amount is positive, the ids drawn for the hold and
  -- its outbox row are new, and the payment has no active hold.
  pub hold-Succeeds_iff :
      (amount : ℤ)
      → ((b : Balance) → find_balance account s.balances ≡ some b → b.available ≤ max_int64)
      → Succeeds x account payment amount currency ttl s
        ↔ ((b : Balance) × (a : Account) × HoldAllowed x account payment amount currency s b a)
  hold-Succeeds_iff amount bigint =
      (hold-Succeeds_only amount, λ (b, a, h). hold-Succeeds amount b a (bigint b h.balance) h)
