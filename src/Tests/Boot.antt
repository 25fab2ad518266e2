-- ===== src/Tests/Boot.antt =====
-- Starts of the process: with every call answered, with the gRPC port taken, without keys, and with
-- a sweep interval of zero.
use peikonpurekkusu_account.Prelude.{
  none, some, [], String, refl, ◌≡◌, if◌then◌else◌, str_eq, false, ◌∷◌,
}
use peikonpurekkusu_account.Startup.Boot.{
  run, Outside, connect, migrate, work, serve, shut_down, first, checked, deferring, new_consumer,
  listen, statements, until_panic, panic_after, panics, every, every_loop, crashed, grpc_listener,
}
use peikonpurekkusu_account.Startup.Boot.Defers.{still_open}
use peikonpurekkusu_account.Platform.{load, getenv, getint, getint64, getdur}
use peikonpurekkusu_account.Gateway.{new_verifier, attempts_from}
use peikonpurekkusu_account.Prelude.Int.{pos}
use peikonpurekkusu_account.Startup.Boot.{returned}

abbrev settings : String → String
settings key =
    if str_eq key "ACCOUNT_DB_USER"
    then "account"
    else if str_eq key "ACCOUNT_DB_PASSWORD"
    then "secret"
    else if str_eq key "ACCOUNT_DB_NAME"
    then "account"
    else ""

abbrev ready_outside : Outside
ready_outside = record {
  env = settings;
  parse_duration = λ s. none;
  print = λ n. "0";
  new_pool = λ url. none;
  open_db = λ url. none;
  new_locker = none;
  sub_fs = λ dir. none;
  new_provider = none;
  up = none;
  new_producer = λ brokers. none;
  new_consumer_client = λ options. none;
  listen_tcp = λ port. none;
  fetch_keys = λ url attempt. some tt;
  is_stopped = λ attempt. false;
}

abbrev taken : Outside
taken = record ready_outside { listen_tcp = λ port. some "address already in use" }

-- Where the verifier gets no keys, the listener of the gRPC server stays open.
abbrev keyless : Outside
keyless = record ready_outside { fetch_keys = λ url attempt. none }

keyless_leaves : still_open (run keyless 0).1 [] ≡ some (grpc_listener ∷ [])
unfolding still_open run statements until_panic panic_after panics every every_loop connect migrate
    work serve shut_down first checked deferring load getenv getint getint64 getdur new_consumer
    new_verifier attempts_from
keyless_leaves = refl

-- A sweep interval of 0s.
abbrev idle : Outside
idle = record ready_outside {
  env = λ key. if str_eq key "HOLD_SWEEP_INTERVAL" then "0s" else settings key;
  parse_duration = λ s. if str_eq s "0s" then some (pos 0) else none;
}

idle_crashes : (run idle 1).0 ≡ crashed
unfolding still_open run statements until_panic panic_after panics every every_loop connect migrate
    work serve shut_down first checked deferring load getenv getint getint64 getdur new_consumer
    new_verifier attempts_from
idle_crashes = refl

-- The process returns, and with the error of the port when that is taken.
both_return :
    ((run ready_outside 0).0 ≡ returned none)
    × ((run taken 0).0 ≡ returned (some (listen "address already in use")))
unfolding still_open run statements until_panic panic_after panics every every_loop connect migrate
    work serve shut_down first checked deferring load getenv getint getint64 getdur new_consumer
    new_verifier attempts_from
both_return = (refl, refl)
