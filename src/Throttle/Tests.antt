-- ===== src/Throttle/Tests.antt =====
-- A throttled severity at work, and the theorem at it.
use crash_wave.Prelude.{◌≡◌, refl, true, false, List, [], ◌∷◌, length}
use crash_wave.Throttle.Channel.{
  Notification, ThrottlePolicy, new_channel, submit, fire, finish, batch, unseen,
}
use crash_wave.Throttle.Account.{Accounted}
use crash_wave.Throttle.Lossless.{
  ThrottleCall, submit_call, fire_call, finish_call, run_throttle, submitted,
  run_throttle-Accounted,
}

abbrev policy : ThrottlePolicy
policy = record {
  is_critical = false;
  max_per_minute = 10;
  max_per_hour = 2;
  debounce_ms = 5000;
  batch_window_ms = 15000;
  drop_duplicates = true;
}

abbrev news : Notification
news = record { category = "win"; title = "Won"; message = "r1" }

abbrev more : Notification
more = record { category = "win"; title = "Won"; message = "r2" }

-- While a batch is in flight, what it holds is checked against no limit.
abbrev calls : List ThrottleCall
calls =
    submit_call 5 news
    ∷ submit_call 6 news
    ∷ fire_call
    ∷ submit_call 15006 news
    ∷ submit_call 15007 more
    ∷ fire_call
    ∷ finish_call true 31000 0
    ∷ finish_call true 31001 0
    ∷ []

-- Two equal messages leave as one, and then two more: three in an hour, over the limit of two.
over_the_limit : length (run_throttle calls (new_channel policy 0)).sent ≡ 3
unfolding submit fire finish batch unseen
over_the_limit = refl

run_throttle-Accounted_example :
    Accounted (submitted calls) (run_throttle calls (new_channel policy 0))
run_throttle-Accounted_example = run_throttle-Accounted policy 0 calls
