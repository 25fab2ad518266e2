-- ===== src/Tests/Records.antt =====
-- The theorem on consumed records at a poisonous record.
use peikonpurekkusu_account.Prelude.{
  ⊤, some, true, false, [], ◌∷◌, ◌≡◌, refl, Bool, ℕ, List, arith, ◌+◌, none,
}
use peikonpurekkusu_account.Events.Validate.{
  SchemaLibrary, answer, validate, schema_invalid, schema, no_answer, cached, read_answer,
}
use peikonpurekkusu_account.Consumer.Settlement.{Fate, handle_with_retry-Fate}
use peikonpurekkusu_account.Consumer.Delivery.{
  handle_with_retry, Message, World, Attempt, try_handle, verdict, handle, wait_for_schema,
  is_poison, dead_letter, dead_letter_message, run_batch, invalid, Delivery,
}
use peikonpurekkusu_account.Tests.Frames.{capture_json}
use peikonpurekkusu_account.Tests.Seed.{process, seeded}
use peikonpurekkusu_account.Tests.Ledger.{quiet}
use peikonpurekkusu_account.Prelude.Int.{pos}
use peikonpurekkusu_account.Events.Framing.{split_frame, to_int32}
use peikonpurekkusu_account.Consumer.Loop.{run_round, run, Client, records}
use peikonpurekkusu_account.Consumer.Loop.Offsets.{IsClient, Moves, run_skips, run_round-Moves}
use peikonpurekkusu_account.Schema.{Bytes}
use peikonpurekkusu_account.Events.Cached.{validations, validate_once}

-- A library that accepts every document.
abbrev pub lenient : SchemaLibrary ⊤ ⊤
lenient = record {
  decode_body = λ body. some body;
  parse = λ body. some tt;
  add_and_compile = λ id doc. some tt;
  accepts = λ schema doc. true;
}

-- A record without the frame's header.
abbrev raw : Message
raw = record {
  topic = "payments.payment.failed.v1";
  partition = 0;
  offset = 17;
  key = [];
  value = 123 ∷ 125 ∷ [];
  headers = [];
}

abbrev answered : Attempt
answered = record {
  rounds = record { reply = answer 200 []; context_done = false } ∷ [];
  database = quiet;
}

abbrev world : World lenient capture_json process (pos 0)
world = record { state = seeded; cache = []; dead_letters = [] }

raw_is_buried :
    (handle_with_retry lenient capture_json process (pos 0) (λ k. answered) true raw world).0
    ≡ some true
unfolding handle_with_retry try_handle verdict handle wait_for_schema validate split_frame is_poison
    dead_letter
raw_is_buried = refl

handle_with_retry-Fate_example :
    Fate lenient capture_json process
      (pos 0)
      (λ k. answered)
      true
      raw
      3
      1
      world
      (handle_with_retry lenient capture_json process (pos 0) (λ k. answered) true raw world)
handle_with_retry-Fate_example =
    handle_with_retry-Fate lenient capture_json process (pos 0) (λ k. answered) true raw world

-- The offsets of a partition: what is committed, and what is polled next.
abbrev broker : Client (ℕ × ℕ)
broker = record {
  committed = λ c. c.0;
  position = λ c. c.1;
  after_poll = λ n c. (c.0, c.1 + n);
  commit_uncommitted = λ c. (true, (c.1, c.1));
}

broker-IsClient : IsClient broker
broker-IsClient = record {
  polled = λ n c. refl;
  kept = λ n c. refl;
  commits = λ c e. refl;
  fails = λ c e. absurd (ground (arith, e));
}

abbrev delivered : Bool → List Delivery
delivered published = record { message = raw; attempts = λ k. answered; published = published } ∷ []

abbrev buried_world : World lenient capture_json process (pos 0)
buried_world = record world {
  dead_letters = dead_letter_message 100 raw (invalid schema_invalid) ∷ [];
}

first_batch :
    run_batch lenient capture_json process (pos 0) (delivered false) true world
    ≡ (some false, world)
unfolding run_batch handle_with_retry try_handle verdict handle wait_for_schema validate split_frame
    is_poison dead_letter
first_batch = refl

second_batch :
    run_batch lenient capture_json process (pos 0) (delivered true) true world
    ≡ (some true, buried_world)
unfolding run_batch handle_with_retry try_handle verdict handle wait_for_schema validate split_frame
    is_poison dead_letter dead_letter_message
second_batch = refl

run_skips_example :
    ((run lenient capture_json process
        (pos 0)
        broker
        (records (delivered false) ∷ [])
        ((17, 17), world)).1.0.0
      ≡ 17)
    × ((run lenient capture_json process
          (pos 0)
          broker
          (records (delivered false) ∷ records (delivered true) ∷ [])
          ((17, 17), world)).1.0.0
        ≡ 17 + 1 + 1)
run_skips_example =
    run_skips lenient capture_json process (pos 0) broker broker-IsClient (delivered false)
      (delivered true) (17, 17) world world buried_world first_batch second_batch refl

run_round-Moves_example :
    (let st =
        (run_round lenient capture_json process
          (pos 0)
          broker
          (records (delivered true))
          ((17, 17), world)).1 in
      Moves lenient capture_json process
        (pos 0)
        broker
        broker-IsClient
        (records (delivered true))
        (17, 17)
        world
        st.0
        st.1)
run_round-Moves_example =
    run_round-Moves lenient capture_json process (pos 0) broker broker-IsClient
      (records (delivered true)) (17, 17) world

abbrev readable : Bytes
readable = 0 ∷ 0 ∷ 0 ∷ 1 ∷ 44 ∷ 123 ∷ 125 ∷ []

-- The registry knows the schema 300.
first_validation : validate lenient (answer 200 []) readable [] ≡ (none, (pos 300, tt) ∷ [])
unfolding validate split_frame schema cached read_answer to_int32
first_validation = refl

validate_once_example :
    validate lenient no_answer readable
      (validations lenient ((no_answer, []) ∷ (answer 404 [], readable) ∷ []) ((pos 300, tt) ∷ []))
    ≡ (
      none,
      validations lenient ((no_answer, []) ∷ (answer 404 [], readable) ∷ []) ((pos 300, tt) ∷ []),
    )
validate_once_example =
    validate_once lenient (answer 200 []) no_answer readable [] ((pos 300, tt) ∷ [])
      ((no_answer, []) ∷ (answer 404 [], readable) ∷ []) first_validation
