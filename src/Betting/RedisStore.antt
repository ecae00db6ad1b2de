-- ===== src/Betting/RedisStore.antt =====
-- src/betting/idempotency.ts, `IdempotencyKeyStore` over Redis. The Redis client is a third party's: a
-- record of its commands over a state of its own, each of which may throw; it keeps a record as the
-- JSON text that the store reads back (the field `key`, which no code reads, is not in it). A time
-- to live is a number of milliseconds.
use Prim.Native.Nat.{ℕ, min, max}
use Prim.Native.String.{◌++◌}
use crash_wave.Prelude.{Bool, true, false, Option, none, some, String, truthy, if◌then◌else◌}
use crash_wave.Betting.Types.{
  BetPlacementResult, Outcome, returned, threw, Done, done, IdempotencyStatus, IdempotencyRecord,
}
use crash_wave.Betting.Types.IdempotencyStatus.{pending, completed, failed, unknown}
use crash_wave.Betting.Idempotency.{IdempotencyKeyStore, generate_key, failure}

-- `SET key value PX ttl NX` answers whether it set the key.
pub record RedisClient (R : Type 0) : Type 0 where
  pub set_nx : String → IdempotencyRecord → ℕ → R → Outcome Bool × R
  pub get : String → R → Outcome (Option IdempotencyRecord) × R
  pub set : String → IdempotencyRecord → ℕ → R → Outcome Done × R
  pub del : String → R → Outcome Done × R

-- `prefixKey` of persistence/redis-client.ts, from the environment's REDIS_KEY_PREFIX.
abbrev pub prefix_key : Option String → String → String
prefix_key none key = "crash:" ++ key
prefix_key (some p) key = (if truthy p then p else "crash:") ++ key

-- The client behind the store, the environment's prefix, and `ttlMs`.
module _ {R : Type 0} (redis : RedisClient R) (prefix : Option String) (ttl_ms : ℕ) where
  abbrev pub redis_key : String → String → String
  redis_key s r = prefix_key prefix ("idempotency:" ++ generate_key s r)

  abbrev pub read_back : Outcome (Option IdempotencyRecord) × R → Outcome Bool × R
  read_back (o, m) = (returned false, m)

  -- What follows `SET … NX`: a key that is there is read for the log, and an error blocks the bet.
  unfoldable pub after_set_nx : String → String → Outcome Bool × R → Outcome Bool × R
  after_set_nx s r (threw e, m) = (returned false, m)
  after_set_nx s r (returned true, m) = (returned true, m)
  after_set_nx s r (returned false, m) = read_back (redis.get (redis_key s r) m)

  unfoldable pub reserve : String → String → String → R → Outcome Bool × R
  unfolding after_set_nx
  reserve s r bet_id m = after_set_nx s r (
      redis.set_nx (redis_key s r)
        (record {
          key = generate_key s r;
          status = pending;
          bet_id = bet_id;
          round_id = r;
          session_id = s;
          result = none;
          expires_at = none;
        })
        ttl_ms m)

  -- An error of the client is logged and dropped.
  abbrev pub swallow : Outcome Done × R → Outcome Done × R
  swallow (o, m) = (returned done, m)

  unfoldable pub write_status :
      IdempotencyStatus
      → BetPlacementResult
      → ℕ
      → String
      → Outcome (Option IdempotencyRecord) × R
      → Outcome Done × R
  write_status status result ttl k (threw e, m) = (returned done, m)
  write_status status result ttl k (returned none, m) = (returned done, m)
  write_status status result ttl k (returned (some c), m) =
      swallow (redis.set k (record c { status = status; result = some result }) ttl m)

  abbrev pub update :
      IdempotencyStatus → BetPlacementResult → ℕ → String → String → R → Outcome Done × R
  update status result ttl s r m =
      write_status status result ttl (redis_key s r) (redis.get (redis_key s r) m)

  -- A failed key expires sooner, and an unknown one later.
  abbrev pub redis_store : IdempotencyKeyStore R
  redis_store = record {
    reserve = reserve;
    complete = λ s r result. update completed result ttl_ms s r;
    fail = λ s r reason. update failed (failure reason) (min ttl_ms 60000) s r;
    mark_unknown = λ s r reason. update unknown (failure reason) (max ttl_ms 1800000) s r;
  }

  unfoldable pub release : String → String → R → Outcome Done × R
  release s r m = swallow (redis.del (redis_key s r) m)
