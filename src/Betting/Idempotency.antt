-- ===== src/Betting/Idempotency.antt =====
-- src/betting/idempotency.ts: what the executor asks of a store, and `InMemoryIdempotencyStore`. The
-- field `createdAt`, which no code reads, is left out. Times are in milliseconds.
use Prim.Native.String.{◌++◌}
use crash_wave.Prelude.{
  ℕ, ◌+◌, ◌∷◌, [], ltb, if◌then◌else◌, Bool, true, false, Option, none, some, String, List, get_key,
  set_key, delete_key,
}
use crash_wave.Betting.Types.{
  BetPlacementResult, Outcome, returned, Done, done, IdempotencyStatus, IdempotencyRecord,
}
use crash_wave.Betting.Types.IdempotencyStatus.{pending, completed, failed, unknown}

-- The methods of `IdempotencyKeyStore` that the executor calls, over the store's state. A method
-- takes the session and the round.
pub record IdempotencyKeyStore (S : Type 0) : Type 0 where
  pub reserve : String → String → String → S → Outcome Bool × S
  pub complete : String → String → BetPlacementResult → S → Outcome Done × S
  pub fail : String → String → String → S → Outcome Done × S
  pub mark_unknown : String → String → String → S → Outcome Done × S

unfoldable pub generate_key : String → String → String
generate_key session_id round_id = session_id ++ (":" ++ round_id)

abbrev pub Records : Type 0
Records = List (String × IdempotencyRecord)

abbrev pub get_record : String → String → Records → Option IdempotencyRecord
get_record session_id round_id = get_key (generate_key session_id round_id)

abbrev pub failure : String → BetPlacementResult
failure reason = record { success = false; bet_id = none; error = some reason }

-- A record is changed in place when its key is there.
unfoldable pub mark_found :
    IdempotencyStatus → BetPlacementResult → String → Option IdempotencyRecord → Records → Records
mark_found status result k none m = m
mark_found status result k (some r) m =
    set_key k (record r { status = status; result = some result }) m

abbrev pub mark :
    IdempotencyStatus → BetPlacementResult → String → String → Records → Outcome Done × Records
mark status result session_id round_id m =
    let k = generate_key session_id round_id in
    (returned done, mark_found status result k (get_key k m) m)

unfoldable pub reserve_key :
    ℕ → String → String → String → Option IdempotencyRecord → Records → Outcome Bool × Records
reserve_key now session_id round_id bet_id (some r) m = (returned false, m)
reserve_key now session_id round_id bet_id none m =
    let k = generate_key session_id round_id in
    (
      returned true,
      set_key k
          (record {
            key = k;
            status = pending;
            bet_id = bet_id;
            round_id = round_id;
            session_id = session_id;
            result = none;
            expires_at = some (now + 300000);
          })
          m,
    )

-- The store in a placement that reserves at the time `now`.
abbrev pub in_memory_store : ℕ → IdempotencyKeyStore Records
in_memory_store now = record {
  reserve = λ s r b m. reserve_key now s r b (get_record s r m) m;
  complete = λ s r result. mark completed result s r;
  fail = λ s r reason. mark failed (failure reason) s r;
  mark_unknown = λ s r reason. mark unknown (failure reason) s r;
}

unfoldable pub release : String → String → Records → Records
unfolding delete_key
release session_id round_id = delete_key (generate_key session_id round_id)

-- Whether `expiresAt` has passed; a missing one is no number, and no number is below another then.
abbrev pub has_expired : ℕ → Option ℕ → Bool
has_expired now none = false
has_expired now (some e) = ltb e now

-- `cleanup` at a time, without the number of the removed records.
unfoldable pub cleanup : ℕ → Records → Records
cleanup now [] = []
cleanup now ((k, r) ∷ m) =
    let rest = cleanup now m in if has_expired now r.expires_at then rest else (k, r) ∷ rest

abbrev pub clear : Records → Records
clear m = []

unfoldable pub cleanups : List ℕ → Records → Records
unfolding cleanup
cleanups [] m = m
cleanups (t ∷ ts) m = cleanups ts (cleanup t m)

-- The store under its timer: before each call of a method the timer has fired at some times, which
-- stand in a list, call by call.
abbrev pub TimedRecords : Type 0
TimedRecords = Records × List (List ℕ)

abbrev pub sweep : TimedRecords → TimedRecords
sweep (m, []) = (m, [])
sweep (m, ts ∷ fired) = (cleanups ts m, fired)

abbrev pub timed :
    {A : Type 0} → (Records → Outcome A × Records) → TimedRecords → Outcome A × TimedRecords
timed method (m, fired) = let (o, m') = method m in (o, (m', fired))

abbrev pub timed_store : ℕ → IdempotencyKeyStore TimedRecords
timed_store now = record {
  reserve = λ s r b t. timed ((in_memory_store now).reserve s r b) (sweep t);
  complete = λ s r b t. timed ((in_memory_store now).complete s r b) (sweep t);
  fail = λ s r e t. timed ((in_memory_store now).fail s r e) (sweep t);
  mark_unknown = λ s r e t. timed ((in_memory_store now).mark_unknown s r e) (sweep t);
}
