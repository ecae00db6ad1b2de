-- ===== src/Betting/FailSafe.antt =====
-- Placements of executor.ts over the Redis store of idempotency.ts.
use Prim.Native.Nat.{ℕ}
use crash_wave.Prelude.{◌≡◌, refl, Bool, true, false, Option, none, String, List}
use crash_wave.Betting.Types.{
  PlaceBetRequest, BetPlacementAdapter, Outcome, returned, threw, IdempotencyRecord,
}
use crash_wave.Betting.Types.IdempotencyStatus.{pending}
use crash_wave.Betting.Idempotency.{generate_key}
use crash_wave.Betting.Executor.{BetExecutor, World, AdapterCall, place_bet, after_reserve}
use crash_wave.Betting.Keys.{duplicate}
use crash_wave.Betting.RedisStore.{RedisClient, redis_key, reserve, after_set_nx, redis_store}

-- `SET … NX` answered OK.
abbrev pub is_ok : Outcome Bool → Bool
is_ok (returned b) = b
is_ok (threw e) = false

-- The record of a reservation.
abbrev pub pending_record : PlaceBetRequest → IdempotencyRecord
pending_record r = record {
  key = generate_key r.session_id r.round_id;
  status = pending;
  bet_id = r.bet_id;
  round_id = r.round_id;
  session_id = r.session_id;
  result = none;
  expires_at = none;
}

module _ {R : Type 0} (redis : RedisClient R) (prefix : Option String) (ttl_ms : ℕ)
    (adapter : BetPlacementAdapter) (max_placement_retries : ℕ) where
  abbrev pub redis_executor : BetExecutor R
  redis_executor = record {
    idempotency = redis_store redis prefix ttl_ms;
    adapter = adapter;
    max_placement_retries = max_placement_retries;
  }

  refused_reservation :
      (s r : String) (o : Outcome Bool × R)
      → is_ok o.0 ≡ false
      → (after_set_nx redis prefix ttl_ms s r o).0 ≡ returned false
  unfolding after_set_nx
  refused_reservation s r (threw e, m) h = refl
  refused_reservation s r (returned true, m) h = cc
  refused_reservation s r (returned false, m) h = refl

  refused_placement :
      (r : PlaceBetRequest) (o : Outcome Bool × R) (cs : List AdapterCall)
      → o.0 ≡ returned false
      → ((after_reserve redis_executor r o cs).0 ≡ duplicate)
        × ((after_reserve redis_executor r o cs).1.calls ≡ cs)
  unfolding after_reserve
  refused_placement r (threw e, m) cs h = cc
  refused_placement r (returned true, m) cs h = cc
  refused_placement r (returned false, m) cs h = (refl, refl)

  -- Over the Redis store, a placement whose `SET … NX` does not answer OK, an error of the client
  -- included, is refused as a duplicate and makes no call of the adapter.
  pub place_bet-blocked :
      (r : PlaceBetRequest) (w : World R)
      → is_ok
          (redis.set_nx
            (redis_key redis prefix ttl_ms r.session_id r.round_id)
            (pending_record r)
            ttl_ms
            w.store).0
        ≡ false
      → ((place_bet redis_executor r w).0 ≡ duplicate)
        × ((place_bet redis_executor r w).1.calls ≡ w.calls)
  unfolding place_bet reserve
  place_bet-blocked r w h =
      refused_placement r
        (after_set_nx redis prefix ttl_ms r.session_id r.round_id (
          redis.set_nx (redis_key redis prefix ttl_ms r.session_id r.round_id) (pending_record r)
            ttl_ms w.store))
        w.calls (refused_reservation r.session_id r.round_id _ h)
