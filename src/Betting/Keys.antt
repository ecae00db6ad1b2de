-- ===== src/Betting/Keys.antt =====
-- Placements of executor.ts over `InMemoryIdempotencyStore` and its timer, one after the other.

use crash_wave.Prelude.{
  ℕ, ◌+◌, ◌≡◌, refl, true, false, Option, none, some, String, List, [], ◌∷◌, is_some, get_key,
}
use crash_wave.Betting.Types.{
  PlaceBetRequest, BetPlacementAdapter, BetExecutionResult, returned, IdempotencyRecord,
}
use crash_wave.Betting.Idempotency.{
  Records, in_memory_store, generate_key, get_record, reserve_key, TimedRecords, sweep, timed_store,
}
use crash_wave.Betting.Expiry.{
  RecordLasts-is_some, KeyLasts-reserved, AllNoLater, Timely, sweep-Timely, sweep-none,
  Timely-keeps,
}
use crash_wave.Betting.Executor.{BetExecutor, World, place_bet, after_reserve, failure}
use crash_wave.Betting.Preserves.{place_bet-keeps, place_bet-reserved}

-- A session and a round have a record.
abbrev pub HasKey : String → String → Records → Type 0
HasKey s r m = is_some (get_record s r m) ≡ true

duplicate_reserve :
    (now : ℕ) (s r b : String) (o : Option IdempotencyRecord) (m : Records)
    → is_some o ≡ true
    → reserve_key now s r b o m ≡ (returned false, m)
unfolding reserve_key
duplicate_reserve now s r b none m h = cc
duplicate_reserve now s r b (some c) m h = refl

-- The answer to a duplicate.
abbrev pub duplicate : BetExecutionResult
duplicate = failure (some "Duplicate bet attempt blocked by idempotency check") 0

-- An executor whose placement reserves at the time `now`, over the records alone.
abbrev pub executor : ℕ → BetPlacementAdapter → ℕ → BetExecutor Records
executor now adapter max_placement_retries = record {
  idempotency = in_memory_store now;
  adapter = adapter;
  max_placement_retries = max_placement_retries;
}

module _ (adapter : BetPlacementAdapter) (max_placement_retries : ℕ) where
  -- The same over the store and its timer.
  abbrev pub timed_executor : ℕ → BetExecutor TimedRecords
  timed_executor now = record {
    idempotency = timed_store now;
    adapter = adapter;
    max_placement_retries = max_placement_retries;
  }

  -- Placements one after the other, each with the time of its reservation, for their effect.
  abbrev pub place_all : List (ℕ × PlaceBetRequest) → World TimedRecords → World TimedRecords
  place_all [] w = w
  place_all ((now, r) ∷ rs) w = place_all rs (place_bet (timed_executor now) r w).1

  place_all-Timely :
      (rs : List (ℕ × PlaceBetRequest)) (t : ℕ) (k : String) (w : World TimedRecords)
      → Timely t k w.store
      → Timely t k (place_all rs w).store
  place_all-Timely [] t k w h = h
  place_all-Timely ((now, q) ∷ rs) t k w h =
      place_all-Timely rs t k (place_bet (timed_executor now) q w).1
        (place_bet-keeps (timed_executor now) (Timely t k) (Timely-keeps t now k) q w h)

  -- A key that is there blocks the placement.
  blocked :
      (t now : ℕ) (r : PlaceBetRequest) (w : World TimedRecords)
      → Timely t (generate_key r.session_id r.round_id) w.store
      → place_bet (timed_executor now) r w ≡ (duplicate, record w { store = sweep w.store })
  unfolding place_bet after_reserve
  blocked t now r w h =
      let k = generate_key r.session_id r.round_id in
      let m = (sweep w.store).0 in
      rw
        (duplicate_reserve now r.session_id r.round_id r.bet_id
          (get_record r.session_id r.round_id m) m
          (RecordLasts-is_some t (get_key k m) (sweep-Timely t k w.store h).0))
        refl

  -- Over the in-memory store, while its timer fires at any moments up to five minutes after the
  -- reservation, a round is placed once: behind a placement of a session and a round without a
  -- record, and whatever placements follow it, a request for the same session and round is answered
  -- as a duplicate, with no call of the adapter and no change of the store but the cleanups that
  -- were due.
  pub place_bet-once :
      (now : ℕ) (r : PlaceBetRequest) (rs : List (ℕ × PlaceBetRequest)) (now' : ℕ)
      (r' : PlaceBetRequest) (w : World TimedRecords)
      → get_record r.session_id r.round_id (w.store).0 ≡ none
      → AllNoLater (now + 300000) (w.store).1
      → r'.session_id ≡ r.session_id
      → r'.round_id ≡ r.round_id
      → let later = place_all rs (place_bet (timed_executor now) r w).1 in
        place_bet (timed_executor now') r' later
        ≡ (duplicate, record later { store = sweep later.store })
  place_bet-once now r rs now' r' w new timely es er =
      let k = generate_key r.session_id r.round_id in
      let (fresh, l) = sweep-none (now + 300000) k w.store new timely in
      let first = place_bet (timed_executor now) r w in
      let kept =
        place_bet-reserved (timed_executor now) (Timely (now + 300000) k)
          (Timely-keeps (now + 300000) now k) r w
          (
            KeyLasts-reserved now r.session_id r.round_id r.bet_id
                (get_record r.session_id r.round_id (sweep w.store).0) (sweep w.store).0 fresh,
            l,
          ) in
      blocked (now + 300000) now' r' (place_all rs first.1)
        (rw (es, er) (place_all-Timely rs (now + 300000) k first.1 kept))
