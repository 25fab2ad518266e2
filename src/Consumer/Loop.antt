-- ===== src/Consumer/Loop.antt =====
-- The loop of `Run`: polls, batches and the offsets that are committed.
pub mod Offsets
use peikonpurekkusu_account.Prelude.{ℕ, ◌+◌, Bool, true, false, Option, none, some, List, [], ◌∷◌}
use peikonpurekkusu_account.Prelude.Int.{ℤ}
use peikonpurekkusu_account.Schema.{Runtime}
use peikonpurekkusu_account.Events.Framing.{EnvelopeJson}
use peikonpurekkusu_account.Events.Validate.{SchemaLibrary}
use peikonpurekkusu_account.Consumer.Delivery.{World, Delivery, run_batch}
use peikonpurekkusu_account.Prelude.Lists.{length}

-- The client of the broker (franz-go) on one partition: the offset that is committed, and the one
-- that is polled next. `commit_uncommitted` says whether it succeeded.
pub record Client (C : Type 0) : Type 0 where
  pub committed : C → ℕ
  pub position : C → ℕ
  pub after_poll : ℕ → C → C
  pub commit_uncommitted : C → Bool × C

-- What `PollFetches` leads to: the context has ended, errors with the count of the records that
-- came beside them, or records.
pub data Poll : Type 0 where
  stopped : Poll
  errors : ℕ → Poll
  records : List Delivery → Poll

-- How a round ends: the loop goes on, it returns, or a record is still held.
pub data Round : Type 0 where
  onward returned held : Round

module _ {Doc Schema C : Type 0} (lib : SchemaLibrary Doc Schema) (json : EnvelopeJson)
    (x : Runtime) (seed : ℤ) (k : Client C) where
  abbrev pub Worlds : Type 0
  Worlds = World lib json x seed

  abbrev pub conclude_batch : Option Bool × Worlds → C → Round × (C × Worlds)
  conclude_batch (none, w) c = (held, (c, w))
  conclude_batch (some false, w) c = (onward, (c, w))
  conclude_batch (some true, w) c = (onward, ((k.commit_uncommitted c).1, w))

  unfoldable pub run_round : Poll → C × Worlds → Round × (C × Worlds)
  unfolding run_batch
  run_round stopped (c, w) = (returned, (c, w))
  run_round (errors n) (c, w) = (onward, (k.after_poll n c, w))
  run_round (records batch) (c, w) =
      conclude_batch (run_batch lib json x seed batch true w) (k.after_poll (length batch) c)

  abbrev pub then_run :
      (C × Worlds → Round × (C × Worlds)) → Round × (C × Worlds) → Round × (C × Worlds)
  then_run next (onward, st) = next st
  then_run next (returned, st) = (returned, st)
  then_run next (held, st) = (held, st)

  -- The rounds of the loop.
  unfoldable pub run : List Poll → C × Worlds → Round × (C × Worlds)
  unfolding run_round
  run [] st = (onward, st)
  run (p ∷ polls) st = then_run (run polls) (run_round p st)
