-- ===== src/Ledger/Limit.antt =====
-- The limit of a day in daily-entries.ts.
use Prim.Native.Nat.{ℕ, ◌≤◌}
use crash_wave.Prelude.{
  ◌≡◌, refl, Bool, true, false, not, ◌&&◌, Option, none, some, String, List, [], ◌∷◌, leb, arith,
  find, if_cases, and_parts,
}
use crash_wave.Ledger.Types.{
  EntrySlotStatus, reserved, confirmed, released, failed, DailyEntryRecord, Day, empty_day,
  EntryReservationResult, is_bet, with_status,
}
use crash_wave.Ledger.Daily.{
  active_count, add_reservation, reserve, confirm_entry, confirm_found, confirm, release_entry,
  release_found, release, is_limit_reached, get_remaining_entries,
}
use crash_wave.Ledger.Counts.{count, count-insert, count-update, count-found}

-- The counters are the numbers of entries with their status, and stay in the limit together.
pub record Sound (max_entries : ℕ) (d : Day) : Type 0 where
  pub confirmed_exact : d.stats.entries_confirmed ≡ count confirmed d.entries
  pub reserved_exact : d.stats.entries_reserved ≡ count reserved d.entries
  pub within : active_count d ≤ max_entries

pub reserve-Sound :
    (max_entries : ℕ) (b s : String) (d : Day)
    → Sound max_entries d
    → Sound max_entries (reserve max_entries b s d).1
unfolding reserve add_reservation
reserve-Sound max_entries b s d h =
    if_cases (λ (p : EntryReservationResult × Day). Sound max_entries p.1)
      (leb max_entries (active_count d)) (λ _. h)
      (λ free. record {
        confirmed_exact = rw (count-insert confirmed) (omega (arith, h.confirmed_exact));
        reserved_exact = rw (count-insert reserved) (omega (arith, h.reserved_exact));
        within = ground (arith, h.within, free);
      })

confirm_entry-Sound :
    (max_entries : ℕ) (b : String) (c : DailyEntryRecord) (v : EntrySlotStatus) (d : Day)
    → find (is_bet b) d.entries ≡ some c
    → c.status ≡ v
    → Sound max_entries d
    → Sound max_entries (confirm_entry b v d).1
unfolding confirm_entry
confirm_entry-Sound max_entries b c confirmed d e q h = h
confirm_entry-Sound max_entries b c released d e q h = h
confirm_entry-Sound max_entries b c failed d e q h = h
confirm_entry-Sound max_entries b c reserved d e q h =
    let to_confirmed = count-update confirmed (is_bet b) (with_status confirmed) d.entries c e in
    let from_reserved = count-update reserved (is_bet b) (with_status confirmed) d.entries c e in
    let there = count-found reserved (is_bet b) d.entries c e in
    record {
      confirmed_exact = omega (arith, h.confirmed_exact, rw q at to_confirmed);
      reserved_exact = omega (arith, h.reserved_exact, rw q at from_reserved);
      within = omega (arith, h.within, h.reserved_exact, rw q at there);
    }

confirm_found-Sound :
    (max_entries : ℕ) (b : String) (o : Option DailyEntryRecord) (d : Day)
    → find (is_bet b) d.entries ≡ o
    → Sound max_entries d
    → Sound max_entries (confirm_found b o d).1
unfolding confirm_found
confirm_found-Sound max_entries b none d e h = h
confirm_found-Sound max_entries b (some c) d e h =
    confirm_entry-Sound max_entries b c c.status d e refl h

pub confirm-Sound :
    (max_entries : ℕ) (b : String) (d : Day)
    → Sound max_entries d
    → Sound max_entries (confirm b d).1
unfolding confirm
confirm-Sound max_entries b d = confirm_found-Sound max_entries b (find (is_bet b) d.entries) d refl

abbrev pub is_confirmed : EntrySlotStatus → Bool
is_confirmed confirmed = true
is_confirmed _ = false

-- The row that a search finds is confirmed.
abbrev pub finds_confirmed : Option DailyEntryRecord → Bool
finds_confirmed none = false
finds_confirmed (some c) = is_confirmed c.status

abbrev pub dropped : String → DailyEntryRecord → DailyEntryRecord
dropped reason e = record e { status = released; reason = some reason }

-- A release of an entry that is not confirmed.
release_entry-Sound :
    (max_entries : ℕ) (b reason : String) (c : DailyEntryRecord) (v : EntrySlotStatus) (d : Day)
    → find (is_bet b) d.entries ≡ some c
    → c.status ≡ v
    → is_confirmed v ≡ false
    → Sound max_entries d
    → Sound max_entries (release_entry b reason v d)
unfolding release_entry
release_entry-Sound max_entries b reason c released d e q n h = h
release_entry-Sound max_entries b reason c failed d e q n h = h
release_entry-Sound max_entries b reason c confirmed d e q n h = cc
release_entry-Sound max_entries b reason c reserved d e q n h =
    let same_confirmed = count-update confirmed (is_bet b) (dropped reason) d.entries c e in
    let from_reserved = count-update reserved (is_bet b) (dropped reason) d.entries c e in
    record {
      confirmed_exact = omega (arith, h.confirmed_exact, rw q at same_confirmed);
      reserved_exact = omega (arith, h.reserved_exact, rw q at from_reserved);
      within = omega (arith, h.within);
    }

release_found-Sound :
    (max_entries : ℕ) (b reason : String) (o : Option DailyEntryRecord) (d : Day)
    → find (is_bet b) d.entries ≡ o
    → finds_confirmed o ≡ false
    → Sound max_entries d
    → Sound max_entries (release_found b reason o d)
unfolding release_found
release_found-Sound max_entries b reason none d e n h = h
release_found-Sound max_entries b reason (some c) d e n h =
    release_entry-Sound max_entries b reason c c.status d e refl n h

pub release-Sound :
    (max_entries : ℕ) (b reason : String) (d : Day)
    → finds_confirmed (find (is_bet b) d.entries) ≡ false
    → Sound max_entries d
    → Sound max_entries (release b reason d)
unfolding release
release-Sound max_entries b reason d =
    release_found-Sound max_entries b reason (find (is_bet b) d.entries) d refl

pub data LedgerCall : Type 0 where
  reserve_call release_call : String → String → LedgerCall
  confirm_call : String → LedgerCall

abbrev pub apply : ℕ → LedgerCall → Day → Day
apply max_entries (reserve_call b s) d = (reserve max_entries b s d).1
apply max_entries (release_call b reason) d = release b reason d
apply max_entries (confirm_call b) d = (confirm b d).1

abbrev pub run_calls : ℕ → List LedgerCall → Day → Day
run_calls max_entries [] d = d
run_calls max_entries (c ∷ cs) d = run_calls max_entries cs (apply max_entries c d)

-- The call does not release a confirmed entry.
abbrev pub is_careful : LedgerCall → Day → Bool
is_careful (release_call b reason) d = not (finds_confirmed (find (is_bet b) d.entries))
is_careful _ d = true

abbrev pub all_careful : ℕ → List LedgerCall → Day → Bool
all_careful max_entries [] d = true
all_careful max_entries (c ∷ cs) d =
    is_careful c d && all_careful max_entries cs (apply max_entries c d)

pub apply-Sound :
    (max_entries : ℕ) (c : LedgerCall) (d : Day)
    → is_careful c d ≡ true
    → Sound max_entries d
    → Sound max_entries (apply max_entries c d)
apply-Sound max_entries (reserve_call b s) d k = reserve-Sound max_entries b s d
apply-Sound max_entries (confirm_call b) d k = confirm-Sound max_entries b d
apply-Sound max_entries (release_call b reason) d k =
    release-Sound max_entries b reason d (ground (arith, k))

-- From a sound day, calls that release no confirmed entry keep the counters exact and the confirmed
-- and reserved entries together within the limit.
pub run_calls-Sound :
    (max_entries : ℕ) (cs : List LedgerCall) (d : Day)
    → all_careful max_entries cs d ≡ true
    → Sound max_entries d
    → Sound max_entries (run_calls max_entries cs d)
run_calls-Sound max_entries [] d k h = h
run_calls-Sound max_entries (c ∷ cs) d k h =
    let parts = and_parts (is_careful c d) (all_careful max_entries cs (apply max_entries c d)) k in
    run_calls-Sound max_entries cs (apply max_entries c d) parts.1
      (apply-Sound max_entries c d parts.0 h)

pub empty_day-Sound : (max_entries : ℕ) → Sound max_entries empty_day
empty_day-Sound max_entries = record {
  confirmed_exact = refl;
  reserved_exact = refl;
  within = omega arith;
}

-- `isLimitReached` says exactly whether the next reservation is refused, whoever asks for it.
pub is_limit_reached-reserve :
    (max_entries : ℕ) (b s : String) (d : Day)
    → is_limit_reached max_entries d ≡ not (reserve max_entries b s d).0.success
unfolding is_limit_reached get_remaining_entries reserve add_reservation
is_limit_reached-reserve max_entries b s d = ground arith
