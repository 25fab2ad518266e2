-- ===== src/Http/Balance/Owner.antt =====
-- Whose balance `getBalance` shows: the query asks for the caller's account, the cache does not.
use peikonpurekkusu_account.Prelude.{
  ℕ, none, some, ◌+◌, true, false, String, Option, List, ◌≡◌, Option-cases, arith, inl, inr, refl,
  Bool, ap, ◌∙◌, ◌<◌, sym, eq_iff, str_eq,
}
use peikonpurekkusu_account.Schema.{Runtime, Uuid, Time, Store, Account, Bytes}
use peikonpurekkusu_account.Grpc.{Codec}
use peikonpurekkusu_account.Http.{BalanceView, Request, caller_id, Source, write_json, Body}
use peikonpurekkusu_account.Http.Balance.Snapshots.{expiry_of_pos}
use peikonpurekkusu_account.Http.Balance.{
  get_balance, balance_for, Conditions, lookup_balance, Cached, owned_balance, hit_or_read, keep,
  cache_get, cache_key,
}
use peikonpurekkusu_account.Grpc.Replay.{IsFaithful}
use peikonpurekkusu_account.Sql.Journal.{find_account}
use peikonpurekkusu_account.Sql.Balances.{find_balance}

module _ (x : Runtime) (json : Codec BalanceView) (ttl : ℕ) where
  -- A balance that is labelled as the ledger's was read behind the cache, and kept for its lifetime
  -- if Redis took it.
  pub record WasRead (c : Conditions) (user id : Uuid) (s : Store) (cached : List Cached)
      (v : BalanceView) (cached' : List Cached) : Type 0 where
    pub owned : owned_balance x user id s ≡ some v
    pub kept : cached' ≡ keep x json ttl c.set_fails id s.clock (json.marshal v) cached

  hit_or_read-WasRead :
      (c : Conditions) (user id : Uuid) (hit : Option BalanceView) (s : Store)
      (cached cached' : List Cached) (v : BalanceView)
      → ((w : BalanceView) → hit ≡ some w → w.source ≡ Source.cache)
      → v.source ≡ Source.ledger
      → hit_or_read x json ttl c user id hit s cached ≡ (write_json (Body.balance v), cached')
      → WasRead c user id s cached v cached'
  hit_or_read-WasRead c user id (some w) s cached cached' v labelled ledger e =
      absurd (ground (arith, labelled w refl, e))
  hit_or_read-WasRead c user id none s cached cached' v labelled ledger e =
      elim (Option-cases (owned_balance x user id s)) [
        | inl missing ↦ absurd (ground (arith, e))
        | inr (w, found) ↦ record { owned = ground (arith, e); kept = ground (arith, e) }
      ]

  lookup_balance_source :
      (c : Conditions) (id : Uuid) (now : Time) (cached : List Cached) (v : BalanceView)
      → lookup_balance x json ttl c id now cached ≡ some v
      → v.source ≡ Source.cache
  unfolding lookup_balance
  lookup_balance_source c id now cached v e =
      elim (Option-cases (cache_get now (cache_key x id) cached)) [
        | inl missing ↦ absurd (ground arith)
        | inr (bytes, found) ↦ elim (Option-cases (json.unmarshal bytes)) [
          | inl unreadable ↦ absurd (ground arith)
          | inr (w, reads) ↦ ground arith
        ]
      ]

  -- The caller and the account of a call.
  abbrev pub Asks : Request → String → Uuid → Uuid → Type 0
  Asks r text user id = (caller_id x r ≡ some user) × (x.uuid_parse text ≡ some id)

  get_balance-Asks :
      (c : Conditions) (r : Request) (text : String) (user id : Uuid) (s : Store)
      (cached : List Cached)
      → Asks r text user id
      → get_balance x json ttl c r text s cached
        ≡ hit_or_read x json ttl c user id (lookup_balance x json ttl c id s.clock cached) s cached
  unfolding get_balance
  get_balance-Asks c r text user id s cached (who, what) =
      ap (λ u. balance_for x json ttl c u (x.uuid_parse text) s cached) who
      ∙ ap (λ i. balance_for x json ttl c (some user) i s cached) what

  owned_balance_owner :
      (user id : Uuid) (s : Store) (v : BalanceView)
      → owned_balance x user id s ≡ some v
      → (a : Account) × (find_account id s.accounts ≡ some a) × (a.user_id ≡ user)
  unfolding owned_balance
  owned_balance_owner user id s v e = elim (Option-cases (find_account id s.accounts)) [
    | inl unknown ↦ absurd (ground arith)
    | inr (a, ea) ↦ elim (Option-cases (find_balance id s.balances)) [
      | inl empty ↦ absurd (ground arith)
      | inr (b, eb) ↦ (a, ea, ground arith)
    ]
  ]

  lookup_balance-keep :
      (c : Conditions) (fails : Bool) (id : Uuid) (taken now : Time) (v : BalanceView)
      (bytes : Bytes) (written : Option Bytes) (cached : List Cached)
      → c.get_fails ≡ false
      → fails ≡ false
      → written ≡ some bytes
      → json.unmarshal bytes ≡ some v
      → 0 < ttl
      → now < taken + ttl
      → lookup_balance x json ttl c id now (keep x json ttl fails id taken written cached)
        ≡ some (record v { source = Source.cache })
  unfolding lookup_balance cache_get
  lookup_balance-keep c true id taken now v bytes written cached answers takes w r positive recent =
      absurd (ground arith)
  lookup_balance-keep c false id taken now v bytes none cached answers takes w r positive recent =
      absurd (ground arith)
  lookup_balance-keep c false id taken now v bytes (some b) cached answers takes w r positive
        recent =
      let same : str_eq (cache_key x id) (cache_key x id) ≡ true =
        (eq_iff (cache_key x id) (cache_key x id)).1 refl in
      let expires = expiry_of_pos taken ttl positive in ground (arith, same, expires)

  module _ (faithful : IsFaithful json) (positive : 0 < ttl) where
    -- A first call shows a balance from the ledger, and Redis takes it. Then the account is the
    -- first caller's; and a call for the same account that Redis answers within the lifetime shows
    -- the same balance, labelled as cached, to every caller.
    pub get_balance_shared :
        (c c' : Conditions) (r r' : Request) (text : String) (user user' id : Uuid) (s s' : Store)
        (cached cached' : List Cached) (v : BalanceView) (bytes : Bytes)
        → Asks r text user id
        → get_balance x json ttl c r text s cached ≡ (write_json (Body.balance v), cached')
        → v.source ≡ Source.ledger
        → c.set_fails ≡ false
        → json.marshal v ≡ some bytes
        → Asks r' text user' id
        → c'.get_fails ≡ false
        → s'.clock < s.clock + ttl
        → ((a : Account) × (find_account id s.accounts ≡ some a) × (a.user_id ≡ user))
          × (get_balance x json ttl c' r' text s' cached'
              ≡ (write_json (Body.balance (record v { source = Source.cache })), cached'))
    get_balance_shared c c' r r' text user user' id s s' cached cached' v bytes asks e ledger takes
          written asks' answers recent =
        let read =
          hit_or_read-WasRead c user id (lookup_balance x json ttl c id s.clock cached) s cached
            cached' v (λ w f. lookup_balance_source c id s.clock cached w f) ledger
            (sym (get_balance-Asks c r text user id s cached asks) ∙ e) in
        let hit : lookup_balance x json ttl c' id s'.clock cached'
            ≡ some (record v { source = Source.cache }) =
          ap (lookup_balance x json ttl c' id s'.clock) read.kept
          ∙ lookup_balance-keep c' c.set_fails id s.clock s'.clock v bytes (json.marshal v) cached
              answers takes written (faithful v bytes written) positive recent in
        (
          owned_balance_owner user id s v read.owned,
          get_balance-Asks c' r' text user' id s' cached' asks'
              ∙ ap (λ h. hit_or_read x json ttl c' user' id h s' cached') hit,
        )
