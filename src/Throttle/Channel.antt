-- ===== src/Throttle/Channel.antt =====
-- src/telegram/throttle.ts. The engine keeps one state for each severity, and the severities do not
-- interact: a channel is one of them, with what it has sent and dropped, and with what it has thrown
-- back to a caller. A delivery is awaited: it is in flight until a later step ends it, and any calls
-- may come before that.
use Prim.Native.String.{◌++◌ as ◌<>◌}
use Prim.Native.Nat.{◌/◌}
use text.Mathlib.Text.{◌==◌ as str_eq}
use mathlib.Core.Option.{map}
use crash_wave.Prelude.{
  ℕ, zero, suc, Option, none, some, ◌+◌, ◌-◌, ◌*◌, String, Bool, true, false, ◌&&◌, List, [], ◌∷◌,
  ◌++◌, leb, ltb, ◌==◌, min, max, length, if◌then◌else◌,
}

pub record Notification : Type 0 where
  pub category : String
  pub title : String
  pub message : String

pub record ThrottlePolicy : Type 0 where
  pub is_critical : Bool
  pub max_per_minute : ℕ
  pub max_per_hour : ℕ
  pub debounce_ms : ℕ
  pub batch_window_ms : ℕ
  pub drop_duplicates : Bool

pub record Channel : Type 0 where
  pub policy : ThrottlePolicy
  pub count : ℕ
  pub window_start : ℕ
  pub last_sent : ℕ
  pub pending : List Notification
  pub in_flight : List (List Notification)
  pub timer : Bool
  pub stopped : Bool
  pub sent : List Notification
  pub dropped : List Notification
  pub thrown : List Notification

abbrev pub new_channel : ThrottlePolicy → ℕ → Channel
new_channel p now = record {
  policy = p;
  count = 0;
  window_start = now;
  last_sent = 0;
  pending = [];
  in_flight = [];
  timer = false;
  stopped = false;
  sent = [];
  dropped = [];
  thrown = [];
}

abbrev pub drop_one : Notification → Channel → Channel
drop_one n c = record c { dropped = c.dropped ++ n ∷ [] }

-- `Math.ceil(a / b)` for a positive `b`.
abbrev ceil_div : ℕ → ℕ → ℕ
ceil_div a b = (a + b - 1) / b

unfoldable pub approximate_minute_count : ℕ → Channel → ℕ
approximate_minute_count now c =
    if ltb (now - 60000) c.last_sent
    then min c.count (ceil_div (c.count * 60000) (max (now - c.window_start) 60000))
    else 0

-- The window that has expired is begun anew.
unfoldable pub renewed : ℕ → Channel → Channel
renewed now c =
    if ltb 3600000 (now - c.window_start) then record c { count = 0; window_start = now } else c

unfoldable pub within_limits : ℕ → Channel → Bool
unfolding approximate_minute_count
within_limits now c =
    if leb c.policy.max_per_minute (approximate_minute_count now c + length c.pending)
    then false
    else ltb (c.count + length c.pending) c.policy.max_per_hour

unfoldable pub key : Notification → String
key n = n.category <> (":" <> (n.title <> (":" <> n.message)))

unfoldable pub has : List String → String → Bool
has [] x = false
has (y ∷ ys) x = if str_eq y x then true else has ys x

unfoldable pub unseen : List String → List Notification → List Notification
unfolding key has
unseen seen [] = []
unseen seen (n ∷ ns) =
    let skipped = unseen seen ns in
    let kept = unseen (key n ∷ seen) ns in if has seen (key n) then skipped else n ∷ kept

abbrev pub deduplicate : List Notification → List Notification
deduplicate = unseen []

unfoldable pub batch : Channel → List Notification
batch c = if c.policy.drop_duplicates then deduplicate c.pending else c.pending

-- `flush` up to its call of `onSend`.
unfoldable pub flush : Channel → Channel
unfolding batch
flush c =
    if length c.pending == 0
    then c
    else if length (batch c) == 0
    then record c { pending = [] }
    else record c { pending = []; in_flight = c.in_flight ++ batch c ∷ [] }

-- A critical notification is sent at once.
abbrev pub deliver_immediate : Notification → Channel → Channel
deliver_immediate n c = record c { in_flight = c.in_flight ++ (n ∷ []) ∷ [] }

-- What follows `onSend`, which succeeds or throws. When it throws, a batch is dropped, and the caller
-- of a critical notification gets the error.
abbrev pub delivered : Bool → ℕ → List Notification → Channel → Channel
delivered true now ns c = record c {
  sent = c.sent ++ ns;
  count = c.count + length ns;
  last_sent = now;
}
delivered false now ns c =
    if c.policy.is_critical
    then record c { thrown = c.thrown ++ ns }
    else record c { dropped = c.dropped ++ ns }

-- The delivery that ends, and the others, by its place among those in flight.
unfoldable pub pick :
    ℕ → List (List Notification) → Option (List Notification × List (List Notification))
pick i [] = none
pick zero (ns ∷ nss) = some (ns, nss)
pick (suc i) (ns ∷ nss) = map (λ p. (p.0, ns ∷ p.1)) (pick i nss)

abbrev pub finish_picked :
    Bool → ℕ → Option (List Notification × List (List Notification)) → Channel → Channel
finish_picked ok now none c = c
finish_picked ok now (some (ns, nss)) c = delivered ok now ns (record c { in_flight = nss })

unfoldable pub finish : Bool → ℕ → ℕ → Channel → Channel
unfolding pick
finish ok now i c = finish_picked ok now (pick i c.in_flight) c

unfoldable pub accepted : Notification → Channel → Channel
unfolding flush
accepted n c =
    let d = record c { pending = c.pending ++ n ∷ [] } in
    if (c.policy.debounce_ms == 0) && (c.policy.batch_window_ms == 0)
    then flush d
    else record d { timer = true }

unfoldable pub throttled : ℕ → Notification → Channel → Channel
unfolding renewed within_limits accepted
throttled now n c =
    if within_limits now (renewed now c)
    then accepted n (renewed now c)
    else drop_one n (renewed now c)

unfoldable pub submit : ℕ → Notification → Channel → Channel
unfolding throttled
submit now n c =
    if c.stopped
    then drop_one n c
    else if c.policy.is_critical
    then deliver_immediate n c
    else throttled now n c

-- The timer that `scheduleFlush` has set.
unfoldable pub fire : Channel → Channel
unfolding flush
fire c = if c.timer then flush (record c { timer = false }) else c

unfoldable pub stop : Channel → Channel
stop c = record c { stopped = true; timer = false; dropped = c.dropped ++ c.pending; pending = [] }
