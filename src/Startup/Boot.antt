-- ===== src/Startup/Boot.antt =====
-- cmd/server/main.go: `main`, `run` and `migrate`, as what they open, start, close and return.
pub mod Panics
pub mod Defers
use peikonpurekkusu_account.Prelude.{
  ⊤, ℕ, none, some, [], ◌∷◌, List, Option, String, ◌++◌, if◌then◌else◌, false, Bool, true, str_eq,
  ◌⊎◌, inl, inr, suc, zero,
}
use peikonpurekkusu_account.Prelude.Int.{ℤ, ltb_ℤ, pos}
use peikonpurekkusu_account.Platform.{load, Config, dsn}
use peikonpurekkusu_account.Gateway.{NewError, new_verifier}
use peikonpurekkusu_account.Consumer.Delivery.{group}
use peikonpurekkusu_account.Consumer.Handlers.{topic_registered, topic_pay_failed}
use peikonpurekkusu_account.Startup.{split_csv, self_probe}
use peikonpurekkusu_account.Prelude.Decimal.{codes}

-- What `run` and `migrate` open: what has a deferred close, stop or cancel, and the listener of the
-- gRPC server, which `GracefulStop` closes. The HTTP server listens and stops in its own goroutine.
pub data Resource : Type 0 where
  signals pool migrations_db cache producer consumer shutdown_context : Resource
  grpc_listener : Resource

-- A goroutine of `run`, with the interval of its ticker or its port.
pub data Worker : Type 0 where
  relay_run consumer_run : Worker
  sweep_every reconcile_every grpc_serve http_serve : ℤ → Worker

pub data Event : Type 0 where
  opened closed : Resource → Event
  migrations_up : Event
  started : Worker → Event
  set_serving : Bool → Event
  done : Event
  http_shutdown grpc_graceful_stop : Event

-- The error of `run`, by the step that it is wrapped at, with the text of the cause.
pub data StartError : Type 0 where
  config pgx_pool migrations kafka_producer kafka_consumer listen : String → StartError
  gateway_auth_verifier : NewError → StartError

-- The options of the consumer's client.
pub record ConsumerOptions : Type 0 where
  pub seed_brokers : List (List ℕ)
  pub consumer_group : String
  pub consume_topics : List String
  pub auto_commit : Bool

-- The environment of the process and the libraries: each call of one gives an error or none.
pub record Outside : Type 0 where
  pub env : String → String
  pub parse_duration : String → Option ℤ
  pub print : ℤ → String
  pub new_pool : String → Option String
  pub open_db : String → Option String
  pub new_locker : Option String
  pub sub_fs : String → Option String
  pub new_provider : Option String
  pub up : Option String
  pub new_producer : List (List ℕ) → Option String
  pub new_consumer_client : ConsumerOptions → Option String
  pub listen_tcp : ℤ → Option String
  pub fetch_keys : String → ℕ → Option ⊤
  pub is_stopped : ℕ → Bool

-- What the loop of `every` is woken by, in order.
pub data Wake : Type 0 where
  ticked context_done : Wake

unfoldable pub every_loop : {S : Type 0} → (S → S) → List Wake → S → S
every_loop fn [] s = s
every_loop fn (context_done ∷ rest) s = s
every_loop fn (ticked ∷ rest) s = every_loop fn rest (fn s)

-- `every`; none is the panic of `time.NewTicker` on an interval that is not positive.
unfoldable pub every : {S : Type 0} → ℤ → (S → S) → List Wake → S → Option S
every interval fn wakes s = if ltb_ℤ (pos 0) interval then some (every_loop fn wakes s) else none

-- A function that returns an error or none, with what it does in order.
abbrev pub Returns : Type 0 → Type 0
Returns E = Option E × List Event

unfoldable pub first : {E : Type 0} → Event → Returns E → Returns E
first e (r, t) = (r, e ∷ t)

-- `if err := ...; err != nil { return ... }`, and what follows.
unfoldable pub checked : {E F : Type 0} → (E → F) → Returns E → Returns F → Returns F
checked wrap (some e, t) rest = (some (wrap e), t)
checked wrap (none, t) (r, u) = (r, t ++ u)

-- A resource is there, and is closed when the function returns.
unfoldable pub deferring : {E : Type 0} → Resource → Returns E → Returns E
deferring r (e, t) = (e, opened r ∷ t ++ (closed r ∷ []))

-- A call of a library that does nothing that is followed here.
abbrev pub call : {E : Type 0} → Option E → Returns E
call r = (r, [])

abbrev pub verifier_error : NewError ⊎ ⊤ → Option NewError
verifier_error (inl e) = some e
verifier_error (inr tt) = none

-- How the process ends: `run` returns, or a panic in one of its goroutines ends it.
pub data End : Type 0 where
  returned : Option StartError → End
  crashed : End

abbrev pub is_none : {A : Type 0} → Option A → Bool
is_none none = true
is_none (some _) = false

-- The goroutine panics as soon as it runs.
unfoldable pub panics : Event → Bool
unfolding every
panics (started (sweep_every n)) = is_none (every n (λ u. u) [] tt)
panics (started (reconcile_every n)) = is_none (every n (λ u. u) [] tt)
panics _ = false

-- A goroutine panics after that many further events, unless `run` returns first.
unfoldable pub panic_after : ℕ → Option StartError → List Event → End × List Event
panic_after delay e [] = (returned e, [])
panic_after zero e (x ∷ rest) = (crashed, [])
panic_after (suc delay) e (x ∷ rest) =
    let later = panic_after delay e rest in (later.0, x ∷ later.1)

-- The statements as far as the process gets.
unfoldable pub until_panic : ℕ → Option StartError → List Event → End × List Event
unfolding panic_after panics
until_panic delay e [] = (returned e, [])
until_panic delay e (x ∷ rest) =
    let later = until_panic delay e rest in
    let dying = panic_after delay e rest in
    if panics x then (dying.0, x ∷ dying.1) else (later.0, x ∷ later.1)

-- The runtime of Go exits with 2 after a panic.
abbrev pub exit_status : End → ℕ
exit_status (returned none) = 0
exit_status (returned (some e)) = 1
exit_status crashed = 2

module _ (o : Outside) where
  -- `consumer.New`
  unfoldable pub new_consumer : List (List ℕ) → Option String
  new_consumer bootstrap = o.new_consumer_client (record {
    seed_brokers = bootstrap;
    consumer_group = group;
    consume_topics = topic_registered ∷ topic_pay_failed ∷ [];
    auto_commit = false;
  })

  unfoldable pub migrate : Config → Returns String
  migrate cfg =
      checked (λ e. e) (call (o.open_db (dsn o.print cfg)))
        (deferring migrations_db (
          checked (λ e. e) (call o.new_locker)
            (checked (λ e. e) (call (o.sub_fs "migrations"))
              (checked (λ e. e) (call o.new_provider) (o.up, migrations_up ∷ [])))))

  -- From `<-ctx.Done()` on.
  unfoldable pub shut_down : Returns StartError
  shut_down = first done (
      first (set_serving false) (
        deferring shutdown_context
          (none, http_shutdown ∷ grpc_graceful_stop ∷ closed grpc_listener ∷ [])))

  -- The gRPC server and the HTTP server.
  unfoldable pub serve : Config → Returns StartError
  serve cfg = first (set_serving true) (
      checked listen (call (o.listen_tcp cfg.grpc_port)) (
        first (opened grpc_listener) (
          first (started (grpc_serve cfg.grpc_port)) (
            checked gateway_auth_verifier
              (call (verifier_error (new_verifier (o.fetch_keys cfg.jwks_url) o.is_stopped)))
              (first (started (http_serve cfg.http_port)) shut_down)))))

  -- The background workers, with the producer open.
  unfoldable pub work : Config → Returns StartError
  work cfg = first (started relay_run) (
      checked kafka_consumer (call (new_consumer (split_csv (codes cfg.kafka_bootstrap)))) (
        deferring consumer (
          first (started consumer_run) (
            first (started (sweep_every cfg.sweep_interval))
              (first (started (reconcile_every cfg.reconcile_every)) (serve cfg))))))

  -- With the configuration read.
  unfoldable pub connect : Config → Returns StartError
  connect cfg = checked pgx_pool (call (o.new_pool (dsn o.print cfg))) (
      deferring pool (
        checked migrations (migrate cfg) (
          deferring cache (
            checked kafka_producer (call (o.new_producer (split_csv (codes cfg.kafka_bootstrap))))
              (deferring producer (work cfg))))))

  -- The statements of `run`, for a process that is told to stop some time.
  unfoldable pub statements : Returns StartError
  statements =
      let loaded = load o.env o.parse_duration in
      deferring signals (checked config (call loaded.1) (connect loaded.0))

  -- `run`, with the number of events between the start of a goroutine that panics and its panic.
  unfoldable pub run : ℕ → End × List Event
  run delay = until_panic delay statements.0 statements.1

  -- `main`: the exit status, by the arguments behind the program's name.
  unfoldable pub main : ℕ → (String → Option ℕ) → List String → ℕ
  main delay get [] = exit_status (run delay).0
  main delay get (arg ∷ args) =
      if str_eq arg "healthcheck" then self_probe o.env get else exit_status (run delay).0
