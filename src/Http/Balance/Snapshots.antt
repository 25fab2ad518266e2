-- ===== src/Http/Balance/Snapshots.antt =====
-- What the cache holds, and how old it is.
use mathlib.Core.Path.{subst}
use text.Mathlib.TextLemmas.{append_cancel_left}
use peikonpurekkusu_account.Prelude.{
  ℕ, none, some, [], ◌∷◌, ◌+◌, true, ◌≤◌, ◌≡◌, ◌⊎◌, List, ◌<◌, arith, str_eq, Bool-cases, inl,
  if◌then◌else◌, inr, sym, ◌∙◌, eq_iff, ltb→lt, Option-cases, refl, suc, zero,
}
use peikonpurekkusu_account.Schema.{Runtime, Time, Store, Uuid, Account, Balance, Bytes}
use peikonpurekkusu_account.Grpc.{Codec}
use peikonpurekkusu_account.Http.{BalanceView, Response, Source, Body}
use peikonpurekkusu_account.Http.Balance.{
  Cached, cache_key, cache_get, is_live, lookup_balance, Conditions, expiry,
}
use peikonpurekkusu_account.Sql.Journal.{find_account}
use peikonpurekkusu_account.Sql.Balances.{find_balance}
use peikonpurekkusu_account.Prelude.Lists.{All}

pub expiry_of_pos : (now : Time) (ttl : ℕ) → 0 < ttl → expiry now ttl ≡ some (now + ttl)
expiry_of_pos now zero h = absurd (omega arith)
expiry_of_pos now (suc ttl) h = refl

module _ (x : Runtime) (json : Codec BalanceView) (ttl : ℕ) (past : Time → Store) where
  -- The value is the balance of the account as the ledger had it at the time `t`.
  pub record IsSnapshot (id : Uuid) (t : Time) (v : BalanceView) : Type 0 where
    pub owner : Account
    pub balance_then : Balance
    pub account_found : find_account id (past t).accounts ≡ some owner
    pub balance_found : find_balance id (past t).balances ≡ some balance_then
    pub account_id : v.account_id ≡ x.uuid_string balance_then.account_id
    pub available : v.available_minor_units ≡ balance_then.available
    pub held : v.held_minor_units ≡ balance_then.held
    pub currency : v.currency_code ≡ owner.currency
    pub as_of : v.as_of ≡ t

  -- A value in the cache is such a balance, and expires `ttl` after its time.
  pub record IsGenuine (now : Time) (c : Cached) : Type 0 where
    pub id : Uuid
    pub taken : Time
    pub value : BalanceView
    pub named : c.key ≡ cache_key x id
    pub reads : json.unmarshal c.bytes ≡ some value
    pub snapshot : IsSnapshot id taken value
    pub not_later : taken ≤ now
    pub expires : c.expires_at ≡ some (taken + ttl)

  -- What the clients see: a balance of the account that the ledger had, now or less than `ttl` ago.
  pub record IsRecent (id : Uuid) (now : Time) (v : BalanceView) : Type 0 where
    pub taken : Time
    pub snapshot : IsSnapshot id taken v
    pub not_later : taken ≤ now
    pub recent : (taken ≡ now) ⊎ (now < taken + ttl)

  module _ (injective : (a b : Uuid) → x.uuid_string a ≡ x.uuid_string b → a ≡ b) where
    pub first-IsRecent :
        (now : Time) (id : Uuid) (c : Cached) (bytes : Bytes) (v : BalanceView)
        → IsGenuine now c
        → str_eq c.key (cache_key x id) ≡ true
        → (if is_live now c.expires_at then some c.bytes else none) ≡ some bytes
        → json.unmarshal bytes ≡ some v
        → IsRecent id now v
    first-IsRecent now id c bytes v g same e f =
        let key : cache_key x g.id ≡ cache_key x id =
          sym g.named ∙ (eq_iff c.key (cache_key x id)).0 same in
        let same_id : g.id ≡ id =
          injective g.id id
            (append_cancel_left "balance:" (x.uuid_string g.id) (x.uuid_string id) key) in
        let live : is_live now (some (g.taken + ttl)) ≡ true = ground (arith, g.expires) in
        let same_bytes : c.bytes ≡ bytes = ground (arith, g.expires) in
        let same_value : g.value ≡ v = ground (arith, g.reads) in
        record {
          taken = g.taken;
          snapshot =
              subst (λ i. IsSnapshot i g.taken v) same_id
                (subst (IsSnapshot g.id g.taken) same_value g.snapshot);
          not_later = g.not_later;
          recent = inr (ltb→lt now (g.taken + ttl) live);
        }

    pub cache_get-IsRecent :
        (now : Time) (id : Uuid) (cached : List Cached) (bytes : Bytes) (v : BalanceView)
        → All (IsGenuine now) cached
        → cache_get now (cache_key x id) cached ≡ some bytes
        → json.unmarshal bytes ≡ some v
        → IsRecent id now v
    unfolding cache_get
    cache_get-IsRecent now id [] bytes v all e f = cc
    cache_get-IsRecent now id (c ∷ cached) bytes v all e f =
        elim (Bool-cases (str_eq c.key (cache_key x id))) [
          | inl same ↦ first-IsRecent now id c bytes v all.0 same (ground arith) f
          | inr differ ↦ cache_get-IsRecent now id cached bytes v all.1 (ground arith) f
        ]

    -- Time passes.
    pub later-IsGenuine :
        (now later : Time) (cached : List Cached)
        → now ≤ later
        → All (IsGenuine now) cached
        → All (IsGenuine later) cached
    later-IsGenuine now later [] h all = tt
    later-IsGenuine now later (c ∷ cached) h all = (
      record {
        id = all.0.id;
        taken = all.0.taken;
        value = all.0.value;
        named = all.0.named;
        reads = all.0.reads;
        snapshot = all.0.snapshot;
        not_later = omega (arith, all.0.not_later);
        expires = all.0.expires;
      },
      later-IsGenuine now later cached h all.1,
    )

    -- What a call leaves in the cache and shows of the account.
    abbrev pub Shows : Uuid → Time → Response × List Cached → Type 0
    Shows id now (answer, cached) =
        All (IsGenuine now) cached
        × ((v : BalanceView) → answer.body ≡ Body.balance v → IsRecent id now v)

    pub IsRecent-cached :
        (id : Uuid) (now : Time) (v : BalanceView)
        → IsRecent id now v
        → IsRecent id now (record v { source = Source.cache })
    IsRecent-cached id now v h = record {
      taken = h.taken;
      snapshot = record {
        owner = h.snapshot.owner;
        balance_then = h.snapshot.balance_then;
        account_found = h.snapshot.account_found;
        balance_found = h.snapshot.balance_found;
        account_id = h.snapshot.account_id;
        available = h.snapshot.available;
        held = h.snapshot.held;
        currency = h.snapshot.currency;
        as_of = h.snapshot.as_of;
      };
      not_later = h.not_later;
      recent = h.recent;
    }

    pub lookup_balance-IsRecent :
        (c : Conditions) (id : Uuid) (now : Time) (cached : List Cached) (v : BalanceView)
        → All (IsGenuine now) cached
        → lookup_balance x json ttl c id now cached ≡ some v
        → IsRecent id now v
    unfolding lookup_balance
    lookup_balance-IsRecent c id now cached v all e =
        elim (Option-cases (cache_get now (cache_key x id) cached)) [
          | inl missing ↦ absurd (ground arith)
          | inr (bytes, found) ↦ elim (Option-cases (json.unmarshal bytes)) [
            | inl unreadable ↦ absurd (ground arith)
            | inr (w, reads) ↦
                let same : record w { source = Source.cache } ≡ v = ground arith in
                subst (IsRecent id now) same (
                  IsRecent-cached id now w
                    (cache_get-IsRecent now id cached bytes w all found reads))
          ]
        ]
