-- ===== src/Startup/Boot/Defers.antt =====
-- What the process leaves open when it ends, on every path through its start.
use peikonpurekkusu_account.Prelude.{
  ℕ, none, some, [], ◌∷◌, List, Option, ◌≡◌, if◌then◌else◌, ◌++◌, Bool, true, ◌==◌, false, ◌&&◌,
  ◌||◌,
}
use peikonpurekkusu_account.Startup.Boot.{
  Worker, Event, Resource, opened, signals, pool, Returns, migrations_db, producer, closed,
  consumer, started, cache, shutdown_context, set_serving, sweep_every, migrations_up,
  reconcile_every, done, grpc_serve, http_serve, http_shutdown, relay_run, grpc_graceful_stop,
  consumer_run, Outside, StartError, gateway_auth_verifier, grpc_listener, End, returned, crashed,
}
use peikonpurekkusu_account.Platform.{Config}
use peikonpurekkusu_account.Prelude.Int.{ltb_ℤ, pos}
use peikonpurekkusu_account.Startup.Boot.Panics.{any_panics}

abbrev rank : Resource → ℕ
rank signals = 0
rank pool = 1
rank migrations_db = 2
rank cache = 3
rank producer = 4
rank consumer = 5
rank shutdown_context = 6
rank grpc_listener = 7

abbrev same : Resource → Resource → Bool
same r r' = rank r == rank r'

abbrev holds : Resource → List Resource → Bool
holds r [] = false
holds r (r' ∷ rest) = same r r' || holds r rest

-- What a worker uses.
abbrev uses : Worker → List Resource
uses relay_run = pool ∷ producer ∷ []
uses consumer_run = pool ∷ consumer ∷ producer ∷ []
uses (sweep_every n) = pool ∷ []
uses (reconcile_every n) = pool ∷ []
uses (grpc_serve n) = pool ∷ grpc_listener ∷ []
uses (http_serve n) = pool ∷ cache ∷ producer ∷ []

abbrev all_held : List Resource → List Resource → Bool
all_held [] held = true
all_held (r ∷ rest) held = holds r held && all_held rest held

abbrev without : Resource → List Resource → List Resource
without r [] = []
without r (r' ∷ held) = if same r r' then held else r' ∷ without r held

-- What is open after an event; none for a close of what is not open, and for a worker that is
-- started, or a migration that is run, without what it uses.
abbrev after : Event → List Resource → Option (List Resource)
after (opened r) held = some (r ∷ held)
after (closed r) held = if holds r held then some (without r held) else none
after (started w) held = if all_held (uses w) held then some held else none
after migrations_up held = if holds migrations_db held then some held else none
after (set_serving b) held = some held
after done held = some held
after http_shutdown held = some held
after grpc_graceful_stop held = some held

abbrev and_then :
    Option (List Resource) → (List Resource → Option (List Resource)) → Option (List Resource)
and_then none k = none
and_then (some held) k = k held

-- What is open after the events.
unfoldable pub still_open : List Event → List Resource → Option (List Resource)
still_open [] held = some held
still_open (e ∷ rest) held = and_then (after e held) (λ held'. still_open rest held')

-- The error comes of the verifier, behind the start of the gRPC server.
abbrev is_verifier : StartError → Bool
is_verifier (gateway_auth_verifier e) = true
is_verifier _ = false

abbrev fails : {E : Type 0} → (E → Bool) → Option E → Bool
fails p none = false
fails p (some e) = p e

abbrev listener_if : Bool → List Resource
listener_if b = if b then grpc_listener ∷ [] else []

-- What a return leaves open: the gRPC listener, if the verifier fails.
abbrev pub left_open : Option StartError → List Resource
left_open e = listener_if (fails is_verifier e)

-- Both tickers of the configuration have a positive interval.
abbrev pub intervals_positive : Config → Bool
intervals_positive cfg = ltb_ℤ (pos 0) cfg.sweep_interval && ltb_ℤ (pos 0) cfg.reconcile_every

-- The process ends with a crash only on an interval that is not positive; and where `run` returns,
-- this is left open.
pub data EndsWell (cfg : Config) : End → List Event → Type 0 where
  crash : {t : List Event} → intervals_positive cfg ≡ false → EndsWell cfg crashed t
  return :
      {e : Option StartError} {t : List Event}
      → still_open t [] ≡ some (left_open e)
      → EndsWell cfg (returned e) t

-- From `start` the function leaves `held` open, and the listener on certain errors; and where the
-- intervals are positive none of its goroutines panics.
record Leaves {E : Type 0} (leaks : E → Bool) (positive : Bool) (start held : List Resource)
    (f : Returns E) : Type 0 where
  kept : still_open f.1 start ≡ some (listener_if (fails leaks f.0) ++ held)
  calm : positive ≡ true → any_panics f.1 ≡ false

module _ (o : Outside) (cfg : Config) where
  abbrev In : List Resource
  In = consumer ∷ producer ∷ cache ∷ pool ∷ signals ∷ []

  abbrev RunLeaves : List Resource → List Resource → Returns StartError → Type 0
  RunLeaves start held f = Leaves is_verifier (intervals_positive cfg) start held f
