-- ===== src/Events/Defs.antt =====
-- `_subscribers`, the callbacks of each guild, by their identity. A Python set has no order: here it
-- is a list in the order of arrival. A callback's failure is caught and logged, so that publishing
-- is the list of callbacks called. Each operation holds the lock and is one step.
use dro_asms.Prelude.{ℕ, Option, none, some, List, [], ◌∷◌, ◌==◌, if◌then◌else◌}
use dro_asms.Prelude.Dict.{Dict, insert, erase, lookup}

abbrev pub Subscribers : Type 0
Subscribers = Dict (List ℕ)

abbrev pub listeners_in : Option (List ℕ) → List ℕ
listeners_in none = []
listeners_in (some l) = l

-- `set.add`
abbrev pub add : ℕ → List ℕ → List ℕ
add k [] = k ∷ []
add k (x ∷ xs) = let rest = add k xs in if k == x then x ∷ xs else x ∷ rest

-- `set.discard`
abbrev pub discard : ℕ → List ℕ → List ℕ
discard k [] = []
discard k (x ∷ xs) = let rest = discard k xs in if k == x then xs else x ∷ rest

unfoldable pub subscribe : (guild_id callback : ℕ) → Subscribers → Subscribers
subscribe g k s = insert g (add k (listeners_in (lookup g s))) s

abbrev pub put_or_pop : ℕ → List ℕ → Subscribers → Subscribers
put_or_pop g [] s = erase g s
put_or_pop g (k ∷ l) s = insert g (k ∷ l) s

abbrev pub unsubscribe_from : ℕ → ℕ → List ℕ → Subscribers → Subscribers
unsubscribe_from g k [] s = s
unsubscribe_from g k (x ∷ l) s = put_or_pop g (discard k (x ∷ l)) s

-- The coroutine that `subscribe` returns.
unfoldable pub unsubscribe : (guild_id callback : ℕ) → Subscribers → Subscribers
unsubscribe g k s = unsubscribe_from g k (listeners_in (lookup g s)) s

-- The callbacks that an event of the guild is handed to.
unfoldable pub publish : (guild_id : ℕ) → Subscribers → List ℕ
publish g s = listeners_in (lookup g s)
