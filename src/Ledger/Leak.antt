-- ===== src/Ledger/Leak.antt =====
-- `release` of daily-entries.ts on a confirmed entry.
use Prim.Native.Nat.{ℕ, suc}
use crash_wave.Prelude.{◌≡◌, refl, some, String, arith, find, ltb, true}
use crash_wave.Ledger.Types.{EntrySlotStatus, reserved, confirmed, DailyEntryRecord, Day, is_bet}
use crash_wave.Ledger.Daily.{release_entry, release_found, release}
use crash_wave.Ledger.Counts.{count, count-update}
use crash_wave.Ledger.Limit.{Sound, dropped}

release_entry-leak :
    (b reason : String) (c : DailyEntryRecord) (v : EntrySlotStatus) (d : Day)
    → find (is_bet b) d.entries ≡ some c
    → c.status ≡ v
    → v ≡ confirmed
    → d.stats.entries_reserved ≡ count reserved d.entries
    → ltb 0 d.stats.entries_reserved ≡ true
    → suc (release_entry b reason v d).stats.entries_reserved
      ≡ count reserved (release_entry b reason v d).entries
unfolding release_entry
release_entry-leak b reason c confirmed d e q v h some_left =
    let unchanged = count-update reserved (is_bet b) (dropped reason) d.entries c e in
    ground (arith, h, rw q at unchanged)
release_entry-leak b reason c v d e q w h some_left = cc

-- On a sound day with reservations, releasing the entry that the bet's search finds, when it is
-- confirmed, forgets a reservation: the counter ends one below the number of reserved entries.
pub release-confirmed :
    (max_entries : ℕ) (b reason : String) (d : Day) (c : DailyEntryRecord)
    → Sound max_entries d
    → find (is_bet b) d.entries ≡ some c
    → c.status ≡ confirmed
    → ltb 0 d.stats.entries_reserved ≡ true
    → suc (release b reason d).stats.entries_reserved ≡ count reserved (release b reason d).entries
unfolding release release_found
release-confirmed max_entries b reason d c h e v some_left =
    rw e (release_entry-leak b reason c c.status d e refl v h.reserved_exact some_left)
