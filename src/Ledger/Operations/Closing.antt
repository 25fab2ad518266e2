-- ===== src/Ledger/Operations/Closing.antt =====
-- `capture` and `release`: what they do to the balances.
use peikonpurekkusu_account.Prelude.{ℕ, ◌+◌, ◌-◌, ◌≤◌, ◌<◌, ◌≡◌, ◌≢◌, String, some, arith, ◌∙◌, ap}
use peikonpurekkusu_account.Prelude.Int.{ℤ, pos}
use peikonpurekkusu_account.Prelude.Word.{max_int64, neg64, neg64-pos, sub64-pos}
use peikonpurekkusu_account.Schema.{Uuid, HoldRecord, captured, Balance, Store, Runtime}
use peikonpurekkusu_account.Tx.{ok}
use peikonpurekkusu_account.Sql.Balances.{find_balance, adjust}
use peikonpurekkusu_account.Sql.Balances.Laws.{find_balance-adjust}
use peikonpurekkusu_account.Sql.Holds.{find_hold, active_row}
use peikonpurekkusu_account.Sql.Holds.Laws.{find_hold-with_status}
use peikonpurekkusu_account.Ledger.Posting.{merchant_payable_account}
use peikonpurekkusu_account.Ledger.Operations.{
  HoldResult, hold, capture, release, released_status, add_duration,
}
use peikonpurekkusu_account.Ledger.Effects.{hold-eq-ok, capture-eq-ok, release-eq-ok}
use peikonpurekkusu_account.Ledger.Operations.Holding.{hold_moves}

-- The row of a user's account, and that of the payable account, after a capture.
abbrev pub after_capture : ℕ → ℕ → Balance → Balance
after_capture amount n b = record b {
  available = b.available + (amount - n);
  held = b.held - amount;
  version = b.version + 1;
}

abbrev pub after_gain : ℕ → Balance → Balance
after_gain n b = record b { available = b.available + n; version = b.version + 1 }

module _ (x : Runtime) (id : Uuid) (n : ℕ) (s : Store) (h : HoldRecord)
    (found : find_hold id s.holds ≡ some h) (bigint : h.amount ≤ max_int64) where
  -- A capture that succeeds, of a hold whose amount is an int64 and whose account is not the
  -- merchant-payable account of its currency, takes the whole hold out of held, returns the rest to
  -- available, gives the captured amount to the merchant-payable account, marks the hold captured,
  -- and touches no other balance.
  pub capture_moves :
      (p : Uuid) (b q : Balance) {txn : Uuid} {t : Store}
      → merchant_payable_account h.currency ≡ some p
      → h.account_id ≢ p
      → find_balance h.account_id s.balances ≡ some b
      → find_balance p s.balances ≡ some q
      → capture x id (pos n) s ≡ ok (txn, t)
      → (0 < n)
        × (n ≤ h.amount)
        × (find_balance h.account_id t.balances ≡ some (after_capture h.amount n b))
        × (find_balance p t.balances ≡ some (after_gain n q))
        × (find_hold id t.holds ≡ some (record h { status = captured }))
        × ((c : Uuid)
            → c ≢ h.account_id
            → c ≢ p
            → find_balance c t.balances ≡ find_balance c s.balances)
  capture_moves p b q {t} payable differ eb eq e =
      let (h', p', d) = capture-eq-ok x id (pos n) s e in
      let same_hold : h' ≡ h = ground (arith, d.found) in
      let same_payable : p' ≡ p = ground (arith, d.payable) in
      let part : n ≤ h.amount = ground (arith, d.covered) in
      let rest = sub64-pos h.amount n bigint part in
      let take = neg64-pos h.amount bigint in
      let mid = adjust h.account_id (pos (h.amount - n)) (neg64 (pos h.amount)) s.balances in
      let first = λ (c : Uuid).
        find_balance-adjust h.account_id (pos (h.amount - n)) (neg64 (pos h.amount)) c s.balances in
      let second = λ (c : Uuid). find_balance-adjust p (pos n) (pos 0) c mid in
      let moved : t.balances ≡ adjust p (pos n) (pos 0) mid = ground (arith, d.balances, rest) in
      (
        ground (arith, d.positive),
        part,
        rw moved (ground (arith, first h.account_id, second h.account_id, take)),
        rw moved (ground (arith, first p, second p)),
        rw d.holds (ground (arith, find_hold-with_status id captured id s.holds)),
        λ c other_account other_payable. rw moved (ground (arith, first c, second c)),
      )

-- A release that succeeds, of a hold whose amount is an int64, returns the whole hold from held to
-- available, marks it, and touches no other balance.
pub release_moves :
    (x : Runtime) (id : Uuid) (reason : String) (s : Store) (h : HoldRecord) (b : Balance)
    {t : Store}
    → find_hold id s.holds ≡ some h
    → h.amount ≤ max_int64
    → find_balance h.account_id s.balances ≡ some b
    → release x id reason s ≡ ok (tt, t)
    → (find_balance h.account_id t.balances
        ≡ some (record b {
          available = b.available + h.amount;
          held = b.held - h.amount;
          version = b.version + 1;
        }))
      × (find_hold id t.holds ≡ some (record h { status = released_status reason }))
      × ((c : Uuid) → c ≢ h.account_id → find_balance c t.balances ≡ find_balance c s.balances)
release_moves x id reason s h b {t} found bigint eb e =
    let (h', d) = release-eq-ok x id reason s e in
    let same : h' ≡ h = ground (arith, d.found) in
    let moved : t.balances ≡ adjust h.account_id (pos h.amount) (neg64 (pos h.amount)) s.balances =
      ground (arith, d.balances) in
    let each = λ (c : Uuid).
      find_balance-adjust h.account_id (pos h.amount) (neg64 (pos h.amount)) c s.balances in
    (
      rw moved (ground (arith, each h.account_id, neg64-pos h.amount bigint)),
      rw d.holds (ground (arith, find_hold-with_status id (released_status reason) id s.holds)),
      λ c other_account. rw moved (ground (arith, each c)),
    )

find_hold-hold :
    (x : Runtime) (account payment : Uuid) (n : ℕ) (currency : String) (ttl : ℤ) (s : Store)
    {r : HoldResult} {t : Store}
    → hold x account payment (pos n) currency ttl s ≡ ok (r, t)
    → find_hold r.hold_id t.holds
      ≡ some
          (active_row (x.fresh s.drawn) account payment (pos n) currency (add_duration s.clock ttl))
unfolding find_hold
find_hold-hold x account payment n currency ttl s e =
    let (b, a, d) = hold-eq-ok x account payment (pos n) currency ttl s e in
    rw (d.holds, d.result) (ground arith)

unshifted :
    (b : Balance) (n : ℕ)
    → n ≤ b.available
    → ◌≡◌ {A = Balance}
        (record {
          account_id = b.account_id;
          available = b.available - n + n;
          held = b.held + n - n;
          version = b.version + 1 + 1;
        })
        (record b { version = b.version + 1 + 1 })
unshifted b n h = ground arith

-- A release straight after a hold, on an account whose available amount is an int64, gives back
-- what the hold took: every balance is what it was, but for the version of the account's.
pub release-hold :
    (x : Runtime) (account payment : Uuid) (n : ℕ) (currency reason : String) (ttl : ℤ) (s : Store)
    (b : Balance) {r : HoldResult} {t u : Store}
    → find_balance account s.balances ≡ some b
    → b.available ≤ max_int64
    → hold x account payment (pos n) currency ttl s ≡ ok (r, t)
    → release x r.hold_id reason t ≡ ok (tt, u)
    → (find_balance account u.balances ≡ some (record b { version = b.version + 1 + 1 }))
      × ((c : Uuid) → c ≢ account → find_balance c u.balances ≡ find_balance c s.balances)
release-hold x account payment n currency reason ttl s b {r} {t} {u} eb bigint e f =
    let (enough, now, _, others) = hold_moves x account payment n currency ttl s b eb bigint e in
    let found = find_hold-hold x account payment n currency ttl s e in
    let (after, _, others') =
      release_moves x r.hold_id reason t _ _ found (omega (arith, enough)) now f in
    (after ∙ ap some (unshifted b n enough), λ c ne. others' c ne ∙ others c ne)
