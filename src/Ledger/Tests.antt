-- ===== src/Ledger/Tests.antt =====
-- Days of entries, and each theorem at an input of its own.
use crash_wave.Prelude.{suc, ◌≡◌, refl, not, none, List, [], ◌∷◌}
use crash_wave.Ledger.Types.{reserved, confirmed, DailyEntryRecord, Day, empty_day}
use crash_wave.Ledger.Daily.{reserve, confirm, release, is_limit_reached}
use crash_wave.Ledger.Counts.{count}
use crash_wave.Ledger.Limit.{
  Sound, LedgerCall, reserve_call, confirm_call, release_call, run_calls, run_calls-Sound,
  empty_day-Sound, is_limit_reached-reserve,
}
use crash_wave.Ledger.Leak.{release-confirmed}
use crash_wave.Ledger.Buckets.{
  SoundBucket, BucketCall, empty_bucket, run_calls-SoundBucket, empty_bucket-SoundBucket,
}

-- One confirmed and one reserved entry.
abbrev calls : List LedgerCall
calls = reserve_call "a" "s" ∷ confirm_call "a" ∷ reserve_call "b" "s" ∷ []

abbrev day : Day
day = run_calls 2 calls empty_day

day-Sound_example : Sound 2 day
unfolding reserve confirm
day-Sound_example = run_calls-Sound 2 calls empty_day refl (empty_day-Sound 2)

-- The entry of the bet "a".
abbrev first_entry : DailyEntryRecord
first_entry = record {
  bet_id = "a";
  slot_number = 1;
  status = confirmed;
  session_id = "s";
  reason = none;
}

leak_example :
    suc (release "a" "lost" day).stats.entries_reserved
    ≡ count reserved (release "a" "lost" day).entries
unfolding reserve confirm
leak_example =
    release-confirmed 2 "a" "lost" day first_entry
      (run_calls-Sound 2 calls empty_day refl (empty_day-Sound 2)) refl refl refl

-- Behind the leak, three entries are confirmed on a day of two.
abbrev leaking : List LedgerCall
leaking =
    release_call "a" "lost"
    ∷ reserve_call "c" "s"
    ∷ reserve_call "d" "s"
    ∷ confirm_call "b"
    ∷ confirm_call "c"
    ∷ confirm_call "d"
    ∷ []

three_confirmed : count confirmed (run_calls 2 leaking day).entries ≡ 3
unfolding reserve confirm release
three_confirmed = refl

limit_example : is_limit_reached 2 day ≡ not (reserve 2 "c" "s" day).0.success
limit_example = is_limit_reached-reserve 2 "c" "s" day

abbrev bucket_calls : List BucketCall
bucket_calls =
    BucketCall.reserve_call "a" "s" ∷ BucketCall.confirm_call "a" ∷ BucketCall.release_call "a" ∷ []

bucket_example : SoundBucket 2 (crash_wave.Ledger.Buckets.run_calls 2 bucket_calls empty_bucket)
bucket_example = run_calls-SoundBucket 2 bucket_calls empty_bucket (empty_bucket-SoundBucket 2)
