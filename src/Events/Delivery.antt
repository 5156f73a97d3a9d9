-- ===== src/Events/Delivery.antt =====
-- Whom an event reaches.
use dro_asms.Prelude.{
  ℕ, ◌+◌, ◌-◌, ◌≤◌, ◌≡◌, refl, ap, ◌∙◌, ◌&&◌, List, [], ◌∷◌, ◌==◌, if◌then◌else◌, arith,
}
use dro_asms.Prelude.Dict.{lookup, lookup-insert, lookup-erase}
use dro_asms.Events.Defs.{
  Subscribers, listeners_in, add, discard, subscribe, put_or_pop, unsubscribe_from, unsubscribe,
  publish,
}

pub data Event : Type 0 where
  joined left : (guild_id callback : ℕ) → Event

abbrev pub handle : Event → Subscribers → Subscribers
handle (joined g k) s = subscribe g k s
handle (left g k) s = unsubscribe g k s

unfoldable pub run : List Event → Subscribers → Subscribers
run [] s = s
run (e ∷ es) s = run es (handle e s)

abbrev pub times : ℕ → List ℕ → ℕ
times k [] = 0
times k (x ∷ xs) = (if k == x then 1 else 0) + times k xs

abbrev pub after : Event → (g k before : ℕ) → ℕ
after (joined h j) g k n = if g == h && k == j then 1 else n
after (left h j) g k n = if g == h && k == j then 0 else n

-- How often the callback is called, 1 or 0: what the last request that names both it and the guild
-- says, or `before` where there is none.
abbrev pub expected : List Event → (g k before : ℕ) → ℕ
expected [] g k n = n
expected (e ∷ es) g k n = expected es g k (after e g k n)

-- Each set holds a callback at most once.
abbrev pub AreSets : Subscribers → Type 0
AreSets s = (g k : ℕ) → times k (publish g s) ≤ 1

times-add :
    (j k : ℕ) (l : List ℕ)
    → times j (add k l) ≡ (if j == k then (if times k l == 0 then 1 else times j l) else times j l)
times-add j k [] = ground arith
times-add j k (x ∷ l) = ground (arith, times-add j k l)

times-discard :
    (j k : ℕ) (l : List ℕ) → times j (discard k l) ≡ (if j == k then times j l - 1 else times j l)
times-discard j k [] = ground arith
times-discard j k (x ∷ l) = ground (arith, times-discard j k l)

times-put_or_pop :
    (g k h : ℕ) (l : List ℕ) (s : Subscribers)
    → times k (publish g (put_or_pop h l s)) ≡ (if g == h then times k l else times k (publish g s))
unfolding publish
times-put_or_pop g k h [] s = ground (arith, lookup-erase g h s)
times-put_or_pop g k h (x ∷ l) s = ground (arith, lookup-insert g h (x ∷ l) s)

times-subscribe :
    (g k h j : ℕ) (s : Subscribers)
    → AreSets s
    → times k (publish g (subscribe h j s)) ≡ after (joined h j) g k (times k (publish g s))
unfolding publish subscribe
times-subscribe g k h j s sets = ground (
  arith,
  lookup-insert g h (add j (listeners_in (lookup h s))) s,
  sets g k,
  sets h j,
  times-add k j (listeners_in (lookup h s)),
)

times-unsubscribe_from :
    (g k h j : ℕ) (l : List ℕ) (s : Subscribers)
    → AreSets s
    → publish h s ≡ l
    → times k (publish g (unsubscribe_from h j l s)) ≡ after (left h j) g k (times k (publish g s))
times-unsubscribe_from g k h j [] s sets e = ground (arith, e)
times-unsubscribe_from g k h j (x ∷ l) s sets e =
    ground
      (arith, e, sets g k, times-put_or_pop g k h (discard j (x ∷ l)) s, times-discard k j (x ∷ l))

times-unsubscribe :
    (g k h j : ℕ) (s : Subscribers)
    → AreSets s
    → times k (publish g (unsubscribe h j s)) ≡ after (left h j) g k (times k (publish g s))
unfolding unsubscribe publish
times-unsubscribe g k h j s sets = times-unsubscribe_from g k h j (publish h s) s sets refl

times-handle :
    (e : Event) (g k : ℕ) (s : Subscribers)
    → AreSets s
    → times k (publish g (handle e s)) ≡ after e g k (times k (publish g s))
times-handle (joined h j) g k s sets = times-subscribe g k h j s sets
times-handle (left h j) g k s sets = times-unsubscribe g k h j s sets

after_bound : (e : Event) (g k n : ℕ) → n ≤ 1 → after e g k n ≤ 1
after_bound (joined h j) g k n l = ground (arith, l)
after_bound (left h j) g k n l = ground (arith, l)

handle-AreSets : (e : Event) (s : Subscribers) → AreSets s → AreSets (handle e s)
handle-AreSets e s sets g k =
    omega (arith, times-handle e g k s sets, after_bound e g k (times k (publish g s)) (sets g k))

-- From subscribers where each set holds a callback at most once, and after any sequence of
-- subscriptions and cancellations: an event of a guild is handed once to each callback whose last
-- request for the guild is a subscription, and not to one whose last request is a cancellation;
-- one that no request names is called as before.
pub delivered :
    (es : List Event) (g k : ℕ) (s : Subscribers)
    → AreSets s
    → times k (publish g (run es s)) ≡ expected es g k (times k (publish g s))
unfolding run
delivered [] g k s sets = refl
delivered (e ∷ es) g k s sets =
    delivered es g k (handle e s) (handle-AreSets e s sets)
    ∙ ap (expected es g k) (times-handle e g k s sets)
