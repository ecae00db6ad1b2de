-- ===== src/Throttle/Deliveries.antt =====
-- That a flush of src/telegram/throttle.ts, and the end of a delivery, lose no notification.
use mathlib.Core.Option.{map}
use crash_wave.Prelude.{
  ℕ, zero, suc, ◌+◌, ◌≤◌, ◌≡◌, refl, sym, ◌∙◌, ap, Bool, true, false, Option, none, some, List, [],
  ◌∷◌, ◌++◌, length, ◌==◌, inl, inr, arith, if_cases, if_both, some_inj, Bool-cases,
}
use crash_wave.Throttle.Channel.{
  Notification, ThrottlePolicy, Channel, has, batch, delivered, flush, pick, finish_picked,
}
use crash_wave.Throttle.Account.{
  count, count_all, gone, same_key, AllRepeated, Accounted, count-append, count_all-append,
  AllRepeated-grows, AllRepeated-append, moved-Accounted, Left, unseen-Left,
}

no_count :
    (q : Notification → Bool) (xs : List Notification) → (length xs == 0) ≡ true → count q xs ≡ 0
no_count q [] h = refl
no_count q (x ∷ xs) h = absurd (ground arith)

Left-AllRepeated :
    (c : Channel) (kept ds : List Notification)
    → ((q : Notification → Bool) → count q kept ≤ gone q c)
    → Left [] kept ds
    → AllRepeated c ds
unfolding has
Left-AllRepeated c kept [] g h = tt
Left-AllRepeated c kept (d ∷ ds) g (inl k, hs) = cc
Left-AllRepeated c kept (d ∷ ds) g (inr k, hs) =
    (omega (arith, k, g (same_key d)), Left-AllRepeated c kept ds g hs)

-- What a batch leaves out of `pending`.
batch-Left :
    (c : Channel)
    → (ds : List Notification) × ((q : Notification → Bool)
        → count q c.pending ≡ count q (batch c) + count q ds)
      × Left [] (batch c) ds
      × (c.policy.drop_duplicates ≡ false → ds ≡ [])
unfolding batch
batch-Left c = elim (Bool-cases c.policy.drop_duplicates) [
  | inl drops ↦
      let (ds, e, l) = unseen-Left [] c.pending in rw drops (ds, e, l, λ (h : true ≡ false). cc)
  | inr keeps ↦ rw keeps ([], (λ q. omega arith), tt, λ _. refl)
]

flushed :
    (subs : List Notification) (c c' : Channel)
    → c'.policy ≡ c.policy
    → ((q : Notification → Bool) → gone q c' ≡ gone q c + count q (batch c))
    → c'.pending ≡ []
    → Accounted subs c
    → Accounted subs c'
flushed subs c c' p g e (es, f, r, n) =
    let (ds, b, l, m) = batch-Left c in
    let drop = ap (λ (x : ThrottlePolicy). x.drop_duplicates) (sym p) in
    (
      es ++ ds,
      (λ q. omega (arith, f q, g q, b q, ap (count q) e, count-append q es ds)),
      AllRepeated-append c' es ds (AllRepeated-grows c c' es (λ q. omega (arith, g q)) r)
          (Left-AllRepeated c' (batch c) ds (λ q. omega (arith, g q)) l),
      (λ h. ap (λ (x : List Notification). x ++ ds) (n (drop ∙ h)) ∙ m (drop ∙ h)),
    )

pub flush-Accounted :
    (subs : List Notification) (c : Channel) → Accounted subs c → Accounted subs (flush c)
unfolding flush
flush-Accounted subs c h = if_both (Accounted subs) (length c.pending == 0) h (
    if_cases (Accounted subs) (length (batch c) == 0)
      (λ (e : (length (batch c) == 0) ≡ true).
        flushed subs c (record c { pending = [] }) refl (λ q. omega (arith, no_count q (batch c) e))
          refl h)
      (λ _.
        flushed subs c (record c { pending = []; in_flight = c.in_flight ++ batch c ∷ [] }) refl
          (λ q. omega (arith, count_all-append q c.in_flight (batch c))) refl h))

count-pick :
    (i : ℕ) (nss rest : List (List Notification)) (ns : List Notification)
    → pick i nss ≡ some (ns, rest)
    → (q : Notification → Bool) → count_all q nss ≡ count q ns + count_all q rest
unfolding pick
count-pick i [] rest ns e q = cc
count-pick zero (xs ∷ nss) rest ns e q =
    ap (λ (p : List Notification × List (List Notification)). count q p.0 + count_all q p.1)
      (some_inj e)
count-pick (suc i) (xs ∷ nss) rest ns e q =
    behind (pick i nss) refl e (λ r ys f. count-pick i nss r ys f q)
  where
    behind :
        (o : Option (List Notification × List (List Notification)))
        → pick i nss ≡ o
        → map {B = List Notification × List (List Notification)} (λ p. (p.0, xs ∷ p.1)) o
          ≡ some (ns, rest)
        → ((r : List (List Notification)) (ys : List Notification)
            → pick i nss ≡ some (ys, r)
            → count_all q nss ≡ count q ys + count_all q r)
        → count q xs + count_all q nss ≡ count q ns + count_all q rest
    behind none f g h = cc
    behind (some (ys, r)) f g h =
        let same =
          ap (λ (p : List Notification × List (List Notification)). count q p.0 + count_all q p.1)
            (some_inj g) in
        omega (arith, h r ys f, same)

delivered-Accounted :
    (ok : Bool) (now : ℕ) (subs ns : List Notification) (nss : List (List Notification))
    (c : Channel)
    → ((q : Notification → Bool) → count_all q c.in_flight ≡ count q ns + count_all q nss)
    → Accounted subs c
    → Accounted subs (delivered ok now ns (record c { in_flight = nss }))
delivered-Accounted true now subs ns nss c e h =
    moved-Accounted subs c (delivered true now ns (record c { in_flight = nss })) refl
      (λ q. omega (arith, e q, count-append q c.sent ns))
      (λ q. omega (arith, e q, count-append q c.sent ns)) h
delivered-Accounted false now subs ns nss c e h =
    if_both (Accounted subs) c.policy.is_critical
      (moved-Accounted subs c (record c { in_flight = nss; thrown = c.thrown ++ ns }) refl
        (λ q. omega (arith, e q, count-append q c.thrown ns))
        (λ q. omega (arith, e q, count-append q c.thrown ns)) h)
      (moved-Accounted subs c (record c { in_flight = nss; dropped = c.dropped ++ ns }) refl
        (λ q. omega (arith, e q, count-append q c.dropped ns))
        (λ q. omega (arith, e q, count-append q c.dropped ns)) h)

pub picked-Accounted :
    (ok : Bool) (now i : ℕ) (subs : List Notification)
    (p : Option (List Notification × List (List Notification))) (c : Channel)
    → pick i c.in_flight ≡ p
    → Accounted subs c
    → Accounted subs (finish_picked ok now p c)
picked-Accounted ok now i subs none c e h = h
picked-Accounted ok now i subs (some (ns, nss)) c e h =
    delivered-Accounted ok now subs ns nss c (count-pick i c.in_flight nss ns e) h
