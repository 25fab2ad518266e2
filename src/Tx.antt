-- ===== src/Tx.antt =====
-- Errors as values, and code that runs inside one database transaction. An error leaves no store:
-- every caller returns it up to `pgx.BeginTxFunc`, which rolls the transaction back.
use peikonpurekkusu_account.Prelude.{
  ⊤, ◌+◌, ◌≡◌, refl, Bool, true, false, Option, none, some, ◌⊎◌, inl, inr,
}
use peikonpurekkusu_account.Schema.{Store, Uuid, Runtime}

-- The SQLSTATE of a `pgconn.PgError`: 23505, 23514, 23503, 22003, 40001, 40P01, and any other.
pub data SqlState : Type 0 where
  unique_violation check_violation foreign_key_violation numeric_out_of_range : SqlState
  serialization_failure deadlock_detected other : SqlState

pub data Error : Type 0 where
  insufficient_funds hold_not_active not_found currency_mismatch amount_exceeds_hold : Error
  no_payable_account no_settlement_account : Error
  too_few_entries non_positive_amount invalid_direction unbalanced : Error
  bad_payload bad_response : Error
  pg : SqlState → Error
  retries_exhausted : SqlState → Error

pub data Result (A : Type 0) : Type 0 where
  ok : A → Result A
  err : Error → Result A

abbrev pub Tx : Type 0 → Type 0
Tx A = Store → Result (A × Store)

module _ {A : Type 0} where
  abbrev pub pure : A → Tx A
  pure a s = ok (a, s)

  abbrev pub raise : Error → Tx A
  raise e s = err e

infixl 5 ◌>>=◌ ◌>>◌
abbrev pub ◌>>=◌ : {A B : Type 0} → Tx A → (A → Tx B) → Tx B
◌>>=◌ m f s = elim (m s) [ err e ↦ err e | ok (a, s') ↦ f a s' ]

abbrev pub ◌>>◌ : {B : Type 0} → Tx ⊤ → Tx B → Tx B
m >> k = m >>= λ _. k

-- `if test { return err }`
abbrev pub raise_if : Bool → Error → Tx ⊤
raise_if true e = raise e
raise_if false e = pure tt

-- Raise the error that a check found, if any.
abbrev pub check : Option SqlState → Tx ⊤
check none = pure tt
check (some e) = raise (pg e)

abbrev pub gets : {A : Type 0} → (Store → A) → Tx A
gets f s = ok (f s, s)

abbrev pub modify : (Store → Store) → Tx ⊤
modify f s = ok (tt, f s)

abbrev pub or_raise : {A : Type 0} → Option A → Error → Tx A
or_raise none e = raise e
or_raise (some a) e = pure a

-- `uuid.New()` and `events.UUIDv7()`
abbrev pub new_uuid : Runtime → Tx Uuid
new_uuid x s = ok (x.fresh s.drawn, record s { drawn = s.drawn + 1 })

-- Inversion of a successful bind.
pub >>=-eq-ok :
    {A B : Type 0} (m : Tx A) (f : A → Tx B) (s : Store) {r : B × Store}
    → (m >>= f) s ≡ ok r
    → (a : A) × (t : Store) × (m s ≡ ok (a, t)) × (f a t ≡ ok r)
>>=-eq-ok {A} {B} m f s {r} = go (m s)
  where
    go :
        (q : Result (A × Store))
        → (elim q [ err e ↦ err e | ok (a, s') ↦ f a s' ]) ≡ ok r
        → (a : A) × (t : Store) × (q ≡ ok (a, t)) × (f a t ≡ ok r)
    go (err e) h = cc
    go (ok (a, t)) h = (a, t, refl, h)

pub Result-cases :
    {A : Type 0} (q : Result A) → ((a : A) × (q ≡ ok a)) ⊎ ((e : Error) × (q ≡ err e))
Result-cases (ok a) = inl (a, refl)
Result-cases (err e) = inr (e, refl)
