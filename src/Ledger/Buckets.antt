-- ===== src/Ledger/Buckets.antt =====
-- The limit of a day in in-memory-daily-ledger.ts.
use Prim.Native.Nat.{ℕ, ◌≤◌}
use crash_wave.Prelude.{
  ◌≡◌, refl, true, Option, none, some, String, List, [], ◌∷◌, leb, arith, find, if_cases, and_parts,
}
use crash_wave.Ledger.Types.{
  EntrySlotStatus, reserved, confirmed, released, DailyEntryRecord, EntryReservationResult, is_bet,
  with_status,
}
use crash_wave.Ledger.InMemory.{
  DayBucket, active, reserve, is_reserved, is_reserved_bet, confirm_found, confirm, release_found,
  release,
}
use crash_wave.Ledger.Counts.{count, count-insert, count-update, count-found, find-passes}

-- The counters are the numbers of slots with their status, and stay in the limit together.
pub record SoundBucket (max_entries : ℕ) (b : DayBucket) : Type 0 where
  pub confirmed_exact : b.confirmed ≡ count confirmed b.slots
  pub reserved_exact : b.reserved ≡ count reserved b.slots
  pub within : active b ≤ max_entries

is_reserved_lem : (s : EntrySlotStatus) → is_reserved s ≡ true → s ≡ reserved
is_reserved_lem reserved h = refl
is_reserved_lem s h = cc

-- The slot that the searches find is reserved.
found_reserved :
    (bet_id : String) (c : DailyEntryRecord) (slots : List DailyEntryRecord)
    → find (is_reserved_bet bet_id) slots ≡ some c
    → c.status ≡ reserved
found_reserved bet_id c slots e =
    is_reserved_lem c.status
      (and_parts (is_bet bet_id c) (is_reserved c.status)
        (find-passes (is_reserved_bet bet_id) slots c e)).1

reserve-SoundBucket :
    (max_entries : ℕ) (bet_id s : String) (b : DayBucket)
    → SoundBucket max_entries b
    → SoundBucket max_entries (reserve max_entries bet_id s b).1
unfolding reserve
reserve-SoundBucket max_entries bet_id s b h =
    if_cases (λ (p : EntryReservationResult × DayBucket). SoundBucket max_entries p.1)
      (leb max_entries (active b)) (λ _. h)
      (λ free. record {
        confirmed_exact = rw (count-insert confirmed) (omega (arith, h.confirmed_exact));
        reserved_exact = rw (count-insert reserved) (omega (arith, h.reserved_exact));
        within = ground (arith, h.within, free);
      })

confirm_found-SoundBucket :
    (max_entries : ℕ) (bet_id : String) (o : Option DailyEntryRecord) (b : DayBucket)
    → find (is_reserved_bet bet_id) b.slots ≡ o
    → SoundBucket max_entries b
    → SoundBucket max_entries (confirm_found bet_id o b).1
unfolding confirm_found
confirm_found-SoundBucket max_entries bet_id none b e h = h
confirm_found-SoundBucket max_entries bet_id (some c) b e h =
    let q = found_reserved bet_id c b.slots e in
    let to_confirmed =
      count-update confirmed (is_reserved_bet bet_id) (with_status confirmed) b.slots c e in
    let from_reserved =
      count-update reserved (is_reserved_bet bet_id) (with_status confirmed) b.slots c e in
    let there = count-found reserved (is_reserved_bet bet_id) b.slots c e in
    record {
      confirmed_exact = omega (arith, h.confirmed_exact, rw q at to_confirmed);
      reserved_exact = omega (arith, h.reserved_exact, rw q at from_reserved);
      within = omega (arith, h.within, h.reserved_exact, rw q at there);
    }

release_found-SoundBucket :
    (max_entries : ℕ) (bet_id : String) (o : Option DailyEntryRecord) (b : DayBucket)
    → find (is_reserved_bet bet_id) b.slots ≡ o
    → SoundBucket max_entries b
    → SoundBucket max_entries (release_found bet_id o b).1
unfolding release_found
release_found-SoundBucket max_entries bet_id none b e h = h
release_found-SoundBucket max_entries bet_id (some c) b e h =
    let q = found_reserved bet_id c b.slots e in
    let same_confirmed =
      count-update confirmed (is_reserved_bet bet_id) (with_status released) b.slots c e in
    let from_reserved =
      count-update reserved (is_reserved_bet bet_id) (with_status released) b.slots c e in
    record {
      confirmed_exact = omega (arith, h.confirmed_exact, rw q at same_confirmed);
      reserved_exact = omega (arith, h.reserved_exact, rw q at from_reserved);
      within = omega (arith, h.within);
    }

pub data BucketCall : Type 0 where
  reserve_call : String → String → BucketCall
  confirm_call release_call : String → BucketCall

abbrev pub apply : ℕ → BucketCall → DayBucket → DayBucket
apply max_entries (reserve_call bet_id s) b = (reserve max_entries bet_id s b).1
apply max_entries (confirm_call bet_id) b = (confirm bet_id b).1
apply max_entries (release_call bet_id) b = (release bet_id b).1

abbrev pub run_calls : ℕ → List BucketCall → DayBucket → DayBucket
run_calls max_entries [] b = b
run_calls max_entries (c ∷ cs) b = run_calls max_entries cs (apply max_entries c b)

apply-SoundBucket :
    (max_entries : ℕ) (c : BucketCall) (b : DayBucket)
    → SoundBucket max_entries b
    → SoundBucket max_entries (apply max_entries c b)
unfolding confirm release
apply-SoundBucket max_entries (reserve_call bet_id s) b = reserve-SoundBucket max_entries bet_id s b
apply-SoundBucket max_entries (confirm_call bet_id) b =
    confirm_found-SoundBucket max_entries bet_id (find (is_reserved_bet bet_id) b.slots) b refl
apply-SoundBucket max_entries (release_call bet_id) b =
    release_found-SoundBucket max_entries bet_id (find (is_reserved_bet bet_id) b.slots) b refl

-- The bucket of a new day.
abbrev pub empty_bucket : DayBucket
empty_bucket = record { confirmed = 0; reserved = 0; slots = [] }

-- From a sound bucket, any calls keep the counters exact and the confirmed and reserved slots
-- together within the limit.
pub run_calls-SoundBucket :
    (max_entries : ℕ) (cs : List BucketCall) (b : DayBucket)
    → SoundBucket max_entries b
    → SoundBucket max_entries (run_calls max_entries cs b)
run_calls-SoundBucket max_entries [] b h = h
run_calls-SoundBucket max_entries (c ∷ cs) b h =
    run_calls-SoundBucket max_entries cs (apply max_entries c b)
      (apply-SoundBucket max_entries c b h)

pub empty_bucket-SoundBucket : (max_entries : ℕ) → SoundBucket max_entries empty_bucket
empty_bucket-SoundBucket max_entries = record {
  confirmed_exact = refl;
  reserved_exact = refl;
  within = omega arith;
}
