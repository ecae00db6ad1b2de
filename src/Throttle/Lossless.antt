-- ===== src/Throttle/Lossless.antt =====
-- That src/telegram/throttle.ts loses no notification, whatever the order of its calls.

use crash_wave.Prelude.{
  ℕ, ◌-◌, ◌≡◌, refl, ◌∙◌, Bool, true, false, List, [], ◌∷◌, ◌++◌, ltb, ◌==◌, ◌&&◌, arith, if_both,
}
use crash_wave.Throttle.Channel.{
  Notification, ThrottlePolicy, Channel, new_channel, drop_one, renewed, within_limits,
  deliver_immediate, flush, pick, finish, accepted, throttled, submit, fire, stop,
}
use crash_wave.Throttle.Account.{
  count, Accounted, count-append, count_all-append, step-Accounted, moved-Accounted,
}
use crash_wave.Throttle.Deliveries.{flush-Accounted, picked-Accounted}

drop_one-Accounted :
    (subs : List Notification) (n : Notification) (c : Channel)
    → Accounted subs c
    → Accounted (subs ++ n ∷ []) (drop_one n c)
drop_one-Accounted subs n c h =
    step-Accounted subs c (drop_one n c) (n ∷ []) refl
      (λ q. omega (arith, count-append q c.dropped (n ∷ [])))
      (λ q. omega (arith, count-append q c.dropped (n ∷ []))) h

accepted-Accounted :
    (subs : List Notification) (n : Notification) (c : Channel)
    → Accounted subs c
    → Accounted (subs ++ n ∷ []) (accepted n c)
unfolding accepted
accepted-Accounted subs n c h =
    let d : Channel = record c { pending = c.pending ++ n ∷ [] } in
    let here =
      step-Accounted subs c d (n ∷ []) refl (λ q. omega arith)
        (λ q. omega (arith, count-append q c.pending (n ∷ []))) h in
    if_both (Accounted (subs ++ n ∷ []))
      ((c.policy.debounce_ms == 0) && (c.policy.batch_window_ms == 0))
      (flush-Accounted (subs ++ n ∷ []) d here)
      (moved-Accounted (subs ++ n ∷ []) d (record d { timer = true }) refl (λ q. omega arith)
        (λ q. refl) here)

renewed-Accounted :
    (now : ℕ) (subs : List Notification) (c : Channel)
    → Accounted subs c
    → Accounted subs (renewed now c)
unfolding renewed
renewed-Accounted now subs c h =
    if_both (Accounted subs) (ltb 3600000 (now - c.window_start))
      (moved-Accounted subs c (record c { count = 0; window_start = now }) refl (λ q. omega arith)
        (λ q. refl) h)
      h

submit-Accounted :
    (now : ℕ) (subs : List Notification) (n : Notification) (c : Channel)
    → Accounted subs c
    → Accounted (subs ++ n ∷ []) (submit now n c)
unfolding submit throttled
submit-Accounted now subs n c h =
    let r = renewed-Accounted now subs c h in
    if_both (Accounted (subs ++ n ∷ [])) c.stopped (drop_one-Accounted subs n c h) (
      if_both (Accounted (subs ++ n ∷ [])) c.policy.is_critical
        (step-Accounted subs c (deliver_immediate n c) (n ∷ []) refl
          (λ q. omega (arith, count_all-append q c.in_flight (n ∷ [])))
          (λ q. omega (arith, count_all-append q c.in_flight (n ∷ []))) h)
        (if_both (Accounted (subs ++ n ∷ [])) (within_limits now (renewed now c))
          (accepted-Accounted subs n (renewed now c) r)
          (drop_one-Accounted subs n (renewed now c) r)))

fire-Accounted :
    (subs : List Notification) (c : Channel) → Accounted subs c → Accounted subs (fire c)
unfolding fire
fire-Accounted subs c h =
    if_both (Accounted subs) c.timer
      (flush-Accounted subs (record c { timer = false })
        (moved-Accounted subs c (record c { timer = false }) refl (λ q. omega arith) (λ q. refl) h))
      h

stop-Accounted :
    (subs : List Notification) (c : Channel) → Accounted subs c → Accounted subs (stop c)
unfolding stop
stop-Accounted subs c h =
    moved-Accounted subs c (stop c) refl (λ q. omega (arith, count-append q c.dropped c.pending))
      (λ q. omega (arith, count-append q c.dropped c.pending)) h

pub data ThrottleCall : Type 0 where
  submit_call : ℕ → Notification → ThrottleCall
  flush_call fire_call stop_call : ThrottleCall
  finish_call : Bool → ℕ → ℕ → ThrottleCall

abbrev pub apply : ThrottleCall → Channel → Channel
apply (submit_call now n) c = submit now n c
apply flush_call c = flush c
apply fire_call c = fire c
apply stop_call c = stop c
apply (finish_call ok now i) c = finish ok now i c

abbrev pub run_throttle : List ThrottleCall → Channel → Channel
run_throttle [] c = c
run_throttle (x ∷ xs) c = run_throttle xs (apply x c)

abbrev pub submitted : List ThrottleCall → List Notification
submitted [] = []
submitted (submit_call now n ∷ xs) = n ∷ submitted xs
submitted (_ ∷ xs) = submitted xs

Accounted-alike :
    (xs ys : List Notification) (c : Channel)
    → ((q : Notification → Bool) → count q ys ≡ count q xs)
    → Accounted xs c
    → Accounted ys c
Accounted-alike xs ys c e (ds, f, r, n) = (ds, (λ q. e q ∙ f q), r, n)

run-Accounted :
    (xs : List ThrottleCall) (subs : List Notification) (c : Channel)
    → Accounted subs c
    → Accounted (subs ++ submitted xs) (run_throttle xs c)
unfolding finish
run-Accounted [] subs c h =
    Accounted-alike subs (subs ++ []) c (λ q. omega (arith, count-append q subs [])) h
run-Accounted (submit_call now n ∷ xs) subs c h =
    Accounted-alike ((subs ++ n ∷ []) ++ submitted xs) (subs ++ n ∷ submitted xs)
      (run_throttle xs (submit now n c))
      (λ q. omega (
        arith,
        count-append q subs (n ∷ submitted xs),
        count-append q subs (n ∷ []),
        count-append q (subs ++ n ∷ []) (submitted xs),
      ))
      (run-Accounted xs (subs ++ n ∷ []) (submit now n c) (submit-Accounted now subs n c h))
run-Accounted (flush_call ∷ xs) subs c h =
    run-Accounted xs subs (flush c) (flush-Accounted subs c h)
run-Accounted (fire_call ∷ xs) subs c h = run-Accounted xs subs (fire c) (fire-Accounted subs c h)
run-Accounted (stop_call ∷ xs) subs c h = run-Accounted xs subs (stop c) (stop-Accounted subs c h)
run-Accounted (finish_call ok now i ∷ xs) subs c h =
    run-Accounted xs subs (finish ok now i c)
      (picked-Accounted ok now i subs (pick i c.in_flight) c refl h)

-- Any calls on a new severity, deliveries ending in any order among them, lose no notification:
-- by any test, those that were submitted are as many as those sent, dropped, thrown back to a
-- caller, in flight and pending, and some duplicates. Each duplicate has a notification with its
-- key among those sent, dropped, thrown back or in flight, and there are none unless the policy
-- drops duplicates.
pub run_throttle-Accounted :
    (policy : ThrottlePolicy) (now : ℕ) (xs : List ThrottleCall)
    → Accounted (submitted xs) (run_throttle xs (new_channel policy now))
run_throttle-Accounted policy now xs =
    run-Accounted xs [] (new_channel policy now) ([], (λ q. omega arith), tt, (λ _. refl))
