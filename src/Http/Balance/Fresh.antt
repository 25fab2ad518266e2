-- ===== src/Http/Balance/Fresh.antt =====
-- How old a balance can be that `getBalance` shows.
use mathlib.Core.Path.{subst}
use peikonpurekkusu_account.Prelude.{
  ℕ, none, some, true, ◌≡◌, List, ◌<◌, arith, inl, if◌then◌else◌, inr, sym, Bool, Option,
  Option-cases, refl, false, String,
}
use peikonpurekkusu_account.Schema.{Runtime, Time, Store, Uuid, Bytes}
use peikonpurekkusu_account.Grpc.{Codec}
use peikonpurekkusu_account.Http.{BalanceView, Body, failed, Request, caller_id}
use peikonpurekkusu_account.Http.Balance.{
  get_balance, Cached, lookup_balance, owned_balance, Conditions, keep, hit_or_read, from_ledger,
  balance_for,
}
use peikonpurekkusu_account.Sql.Journal.{find_account}
use peikonpurekkusu_account.Sql.Balances.{find_balance}
use peikonpurekkusu_account.Prelude.Lists.{All}
use peikonpurekkusu_account.Grpc.Replay.{IsFaithful}
use peikonpurekkusu_account.Http.Balance.Snapshots.{
  Shows, IsSnapshot, IsGenuine, IsRecent, expiry_of_pos, lookup_balance-IsRecent,
}

module _ (x : Runtime) (json : Codec BalanceView) (ttl : ℕ) (past : Time → Store) where
  module _ (injective : (a b : Uuid) → x.uuid_string a ≡ x.uuid_string b → a ≡ b) where
    module _ (faithful : IsFaithful json) (positive : 0 < ttl) where
      owned_balance-IsSnapshot :
          (user id : Uuid) (s : Store) (v : BalanceView)
          → past s.clock ≡ s
          → owned_balance x user id s ≡ some v
          → IsSnapshot x json ttl past id s.clock v
      unfolding owned_balance
      owned_balance-IsSnapshot user id s v present e =
          elim (Option-cases (find_account id s.accounts)) [
            | inl unknown ↦ absurd (ground arith)
            | inr (a, ea) ↦ elim (Option-cases (find_balance id s.balances)) [
              | inl empty ↦ absurd (ground arith)
              | inr (b, eb) ↦ record {
                owner = a;
                balance_then = b;
                account_found =
                    subst (λ (t : Store). find_account id t.accounts ≡ some a) (sym present) ea;
                balance_found =
                    subst (λ (t : Store). find_balance id t.balances ≡ some b) (sym present) eb;
                account_id = ground arith;
                available = ground arith;
                held = ground arith;
                currency = ground arith;
                as_of = ground arith;
              }
            ]
          ]

      keep-IsGenuine :
          (fails : Bool) (id : Uuid) (now : Time) (v : BalanceView) (cached : List Cached)
          (bytes : Option Bytes)
          → json.marshal v ≡ bytes
          → IsSnapshot x json ttl past id now v
          → All (IsGenuine x json ttl past now) cached
          → All (IsGenuine x json ttl past now) (keep x json ttl fails id now bytes cached)
      keep-IsGenuine fails id now v cached none e snap all = all
      keep-IsGenuine true id now v cached (some bytes) e snap all = all
      keep-IsGenuine false id now v cached (some bytes) e snap all = (
        record {
          id = id;
          taken = now;
          value = v;
          named = refl;
          reads = faithful v bytes e;
          snapshot = snap;
          not_later = omega arith;
          expires = expiry_of_pos now ttl positive;
        },
        all,
      )

      read-Shows :
          (fails : Bool) (c : Conditions) (user id : Uuid) (s : Store) (cached : List Cached)
          (found : Option BalanceView)
          → past s.clock ≡ s
          → All (IsGenuine x json ttl past s.clock) cached
          → owned_balance x user id s ≡ found
          → Shows x json ttl past injective id s.clock
              (if fails then (failed, cached) else from_ledger x json ttl c id s.clock found cached)
      read-Shows true c user id s cached found present all e =
          (all, λ w f. absurd (ground (arith, f)))
      read-Shows false c user id s cached none present all e =
          (all, λ w f. absurd (ground (arith, f)))
      read-Shows false c user id s cached (some v) present all e =
          let snap = owned_balance-IsSnapshot user id s v present e in
          let shown : IsRecent x json ttl past id s.clock v = record {
            taken = s.clock;
            snapshot = snap;
            not_later = omega arith;
            recent = inl refl;
          } in
          (
            keep-IsGenuine c.set_fails id s.clock v cached (json.marshal v) refl snap all,
            λ w f. subst (IsRecent x json ttl past id s.clock) (ground (arith, f)) shown,
          )

      hit_or_read-Shows :
          (c : Conditions) (user id : Uuid) (hit : Option BalanceView) (s : Store)
          (cached : List Cached)
          → past s.clock ≡ s
          → All (IsGenuine x json ttl past s.clock) cached
          → ((v : BalanceView) → hit ≡ some v → IsRecent x json ttl past id s.clock v)
          → Shows x json ttl past injective id s.clock
              (hit_or_read x json ttl c user id hit s cached)
      hit_or_read-Shows c user id (some v) s cached present all fresh = (
        all,
        λ w e. subst (IsRecent x json ttl past id s.clock) (ground (arith, e)) (fresh v refl),
      )
      hit_or_read-Shows c user id none s cached present all fresh =
          read-Shows c.query_fails c user id s cached (owned_balance x user id s) present all refl

      -- Every balance that the endpoint shows is one that the ledger had for the account of the
      -- request, at the time of the call or less than the lifetime of the cache before it, if the
      -- cache holds such values at first; and the cache holds such values afterwards. The lifetime
      -- is positive, the text form of an id determines it, and JSON texts are read back.
      pub get_balance-IsRecent :
          (c : Conditions) (r : Request) (text : String) (s : Store) (cached : List Cached)
          → past s.clock ≡ s
          → All (IsGenuine x json ttl past s.clock) cached
          → All (IsGenuine x json ttl past s.clock) (get_balance x json ttl c r text s cached).1
            × ((v : BalanceView)
                → (get_balance x json ttl c r text s cached).0.body ≡ Body.balance v
                → (id : Uuid) × (x.uuid_parse text ≡ some id)
                  × IsRecent x json ttl past id s.clock v)
      unfolding get_balance
      get_balance-IsRecent c r text s cached present all =
          go (caller_id x r) (x.uuid_parse text) refl
        where
          go :
              (caller id : Option Uuid)
              → x.uuid_parse text ≡ id
              → All
                  (IsGenuine x json ttl past s.clock)
                  (balance_for x json ttl c caller id s cached).1
                × ((v : BalanceView)
                    → (balance_for x json ttl c caller id s cached).0.body ≡ Body.balance v
                    → (i : Uuid) × (x.uuid_parse text ≡ some i)
                      × IsRecent x json ttl past i s.clock v)
          go none id e = (all, λ v f. absurd (ground (arith, f)))
          go (some user) none e = (all, λ v f. absurd (ground (arith, f)))
          go (some user) (some id) e =
              let (kept, shown) =
                hit_or_read-Shows c user id (lookup_balance x json ttl c id s.clock cached) s cached
                  present all
                  (λ v f.
                    lookup_balance-IsRecent x json ttl past injective c id s.clock cached v all
                      f) in
              (kept, λ v f. (id, e, shown v f))
