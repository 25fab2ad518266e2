-- ===== src/Service/Actions.antt =====
-- What every action of the service keeps.
use peikonpurekkusu_account.Outbox
use peikonpurekkusu_account.Prelude.{ℕ, none, some, [], ◌∷◌, List, ◌≡◌, Bool, Option, sym}
use peikonpurekkusu_account.Service.{
  Parts, Action, hold_call, capture_call, release_call, http_call, delivery, drain, sweep_due,
  time_passes, act, run_service, State,
}
use peikonpurekkusu_account.Service.Laws.{IsOwn, Laws}
use peikonpurekkusu_account.Schema.{Store, Uuid}
use peikonpurekkusu_account.Service.Calls.{
  hold_funds_kept, capture_funds_kept, release_funds_kept, sweep_due_kept,
}
use peikonpurekkusu_account.Outbox.{RelayState, drain_once, DrainError, select_batch}
use peikonpurekkusu_account.Prelude.Lists.{All}
use peikonpurekkusu_account.Outbox.Publish.{Drained, drain_once-Drained}
use peikonpurekkusu_account.Service.Deliveries.{handle_with_retry_kept}
use mathlib.Core.Path.{subst}

module _ {Doc Schema : Type 0} (p : Parts Doc Schema) (P : Store → Type 0)
    (Free : Uuid → Type 0) where
  -- What is asked of an action: the other transactions keep the predicate, and a hold is on a free
  -- account.
  abbrev pub IsProper : Action → Type 0
  IsProper (hold_call d req) =
      IsOwn P d × ((c : Uuid) → p.runtime.uuid_parse req.account_id ≡ some c → Free c)
  IsProper (capture_call d req) = IsOwn P d
  IsProper (release_call d req) = IsOwn P d
  IsProper (http_call r o) = Unit
  IsProper (delivery v) = (k : ℕ) → IsOwn P (v.attempts k).database
  IsProper (drain o locked) = Unit
  IsProper (sweep_due d locked) = IsOwn P d
  IsProper (time_passes n) = Unit

  module _ (laws : Laws p.runtime P Free) where
    drained_kept :
        (o : Outbox.Outside) (locked : Uuid → Bool) (s : Store) (relay : RelayState)
        → P s
        → P (drain_once p.runtime p.envelopes o locked (s, relay)).1.0
    drained_kept o locked s relay r =
        go (drain_once p.runtime p.envelopes o locked (s, relay))
          (drain_once-Drained p.runtime p.envelopes o locked s relay)
      where
        go :
            (q : (Option DrainError × ℕ) × (Store × RelayState))
            → Drained p.runtime p.envelopes o (select_batch locked s.outbox) (s, relay) q
            → P q.1.0
        go ((none, n), (s', relay')) h = subst P (sym h.4) (laws.outbox_kept s _ r)
        go ((some e, n), (s', relay')) h = subst P (sym h.6) r

    act_kept :
        (a : Action) (st : State p) → IsProper a → P st.world.state → P (act p a st).world.state
    unfolding act
    act_kept (hold_call d req) st (own, free) r =
        hold_funds_kept p P Free laws d own st.world.state r req free
    act_kept (capture_call d req) st own r =
        capture_funds_kept p P Free laws d own st.world.state r req
    act_kept (release_call d req) st own r =
        release_funds_kept p P Free laws d own st.world.state r req
    act_kept (http_call q o) st proper r = r
    act_kept (delivery v) st own r = handle_with_retry_kept p P Free laws v own st.world r
    act_kept (drain o locked) st proper r = drained_kept o locked st.world.state st.relay r
    act_kept (sweep_due d locked) st own r =
        sweep_due_kept p P Free laws d own st.world.state r locked
    act_kept (time_passes n) st proper r = laws.time_kept st.world.state _ r

    pub run_service_kept :
        (actions : List Action) (st : State p)
        → All IsProper actions
        → P st.world.state
        → P (run_service p actions st).world.state
    unfolding run_service
    run_service_kept [] st proper r = r
    run_service_kept (a ∷ rest) st proper r =
        run_service_kept rest (act p a st) proper.1 (act_kept a st proper.0 r)
