-- ===== src/History/Pages.antt =====
-- The pages of a history, one after the other.
use mathlib.Core.Path.{subst}
use dro_asms.Prelude.{
  fun_ext, ℕ, zero, suc, ◌≡◌, refl, sym, ap, ◌∙◌, ◌≤◌, ◌<◌, ◌&&◌, not, Bool, true, false, Option,
  none, some, List, [], ◌∷◌, ◌++◌, map, length, take, drop, keep, All, leb, ◌==◌, if◌then◌else◌,
  arith,
}
use dro_asms.Prelude.Exclusive.{any, Exclusive}
use dro_asms.Result.{Result, ok, err}
use dro_asms.Economy.Defs.{Transaction}
use dro_asms.History.Defs.{
  HistoryEntry, HistoryPage, HistoryError, make_history_entry, is_of, older, after_cursor,
  order_rows, fn_get_history, fn_has_more_history, last, next_cursor_value, target_of, may_view,
  read_history, get_history,
}
use dro_asms.History.Order.{
  same_time, Before, Descends, order_rows-Descends, keep-order_rows, any-order_rows,
  length-order_rows,
}

abbrev is_nil : {A : Type 0} → List A → Bool
is_nil [] = true
is_nil (x ∷ xs) = false

-- The last of a list that is not empty.
abbrev last_of : {A : Type 0} → A → List A → A
last_of x [] = x
last_of x (y ∷ ys) = last_of y ys

-- The cursor after the page that these rows fill, which holds `suc n` of them.
abbrev cursor_after : (n : ℕ) → List Transaction → Option ℕ
cursor_after n [] = none
cursor_after n (t ∷ rows) =
    if is_nil (drop n rows) then none else some (last_of t (take n rows)).created_at

abbrev page : (member n : ℕ) → List Transaction → HistoryPage
page member n rows = record {
  items = map (make_history_entry member) (take (suc n) rows);
  next_cursor = cursor_after n rows;
}

abbrev Bound : Option ℕ → ℕ → Type 0
Bound none b = Unit
Bound (some c) b = b < c

keep_and :
    (p q : Transaction → Bool) (rows : List Transaction)
    → keep (λ t. p t && q t) rows ≡ keep q (keep p rows)
keep_and p q [] = refl
keep_and p q (t ∷ rows) = ground (arith, keep_and p q rows)

any_and :
    (p q : Transaction → Bool) (rows : List Transaction)
    → any (λ t. p t && q t) rows ≡ any q (keep p rows)
any_and p q [] = refl
any_and p q (t ∷ rows) = ground (arith, any_and p q rows)

any-is_nil :
    (p : Transaction → Bool) (rows : List Transaction) → any p rows ≡ not (is_nil (keep p rows))
any-is_nil p [] = refl
any-is_nil p (t ∷ rows) = ground (arith, any-is_nil p rows)

keep-older : (c : ℕ) (rows : List Transaction) → All (Before c) rows → keep (older c) rows ≡ rows
keep-older c [] a = refl
keep-older c (t ∷ rows) a = ground (arith, a.0, keep-older c rows a.1)

keep_true : (rows : List Transaction) → keep (after_cursor none) rows ≡ rows
keep_true [] = refl
keep_true (t ∷ rows) = ap (λ r. t ∷ r) (keep_true rows)

keep-older_twice :
    (c d : ℕ) (rows : List Transaction)
    → d ≤ c
    → keep (older d) (keep (older c) rows) ≡ keep (older d) rows
keep-older_twice c d [] l = refl
keep-older_twice c d (t ∷ rows) l = ground (arith, l, keep-older_twice c d rows l)

last-cons : {A : Type 0} (x : A) (xs : List A) → last (x ∷ xs) ≡ some (last_of x xs)
unfolding last
last-cons x [] = refl
last-cons x (y ∷ ys) = rw (last-cons y ys)

last_of-map :
    (f : Transaction → HistoryEntry) (t : Transaction) (rows : List Transaction)
    → last_of (f t) (map f rows) ≡ f (last_of t rows)
last_of-map f t [] = refl
last_of-map f t (u ∷ rows) = last_of-map f u rows

length-map :
    (f : Transaction → HistoryEntry) (rows : List Transaction) → length (map f rows) ≡ length rows
length-map f [] = refl
length-map f (t ∷ rows) = ap suc (length-map f rows)

map-take-drop :
    (f : Transaction → HistoryEntry) (n : ℕ) (rows : List Transaction)
    → map f (take n rows) ++ map f (drop n rows) ≡ map f rows
map-take-drop f zero rows = refl
map-take-drop f (suc n) [] = refl
map-take-drop f (suc n) (t ∷ rows) = ap (λ r. f t ∷ r) (map-take-drop f n rows)

last_of-All :
    (P : Transaction → Type 0) (n : ℕ) (t : Transaction) (rows : List Transaction)
    → P t
    → All P rows
    → P (last_of t (take n rows))
last_of-All P zero t rows h a = h
last_of-All P (suc n) t [] h a = h
last_of-All P (suc n) t (u ∷ rows) h a = last_of-All P n u rows a.0 a.1

older_than_last :
    (n : ℕ) (t : Transaction) (rows : List Transaction)
    → Descends (t ∷ rows)
    → length (take n rows) ≡ n
    → keep (older (last_of t (take n rows)).created_at) (t ∷ rows) ≡ drop n rows
older_than_last zero t rows d l = ground (arith, keep-older t.created_at rows d.0)
older_than_last (suc n) t [] d l = ground (arith, l)
older_than_last (suc n) t (u ∷ rows) d l = ground (
  arith,
  last_of-All (Before t.created_at) n u rows d.0.0 d.0.1,
  older_than_last n u rows d.1 (omega (arith, l)),
)

short_drop :
    (n : ℕ) (rows : List Transaction) → (length (take n rows) == n) ≡ false → drop n rows ≡ []
short_drop zero rows l = ground (arith, l)
short_drop (suc n) [] l = refl
short_drop (suc n) (t ∷ rows) l = short_drop n rows (ground (arith, l))

All-older : (c : ℕ) (rows : List Transaction) → All (Before c) (keep (older c) rows)
All-older c [] = tt
All-older c (t ∷ rows) = ground (arith, All-older c rows)

keep-older_after :
    (c : Option ℕ) (b : ℕ) (rows : List Transaction)
    → Bound c b
    → keep (older b) (keep (after_cursor c) rows) ≡ keep (older b) rows
keep-older_after none b rows h = ap (keep (older b)) (keep_true rows)
keep-older_after (some c) b rows h = keep-older_twice c b rows (omega (arith, h))

-- The entries of the pages, each page asked for with the cursor of the one before it.
abbrev pub walk :
    (fuel : ℕ)
    → (Option ℕ → Result HistoryPage HistoryError)
    → Option ℕ
    → Result (List HistoryEntry) HistoryError
walk zero ask c = ok []
walk (suc k) ask c = elim (ask c) [
  | err e ↦ err e
  | ok p ↦ elim p.next_cursor [
    | none ↦ ok p.items
    | some d ↦ elim (walk k ask (some d)) [ err e ↦ err e | ok rest ↦ ok (p.items ++ rest) ]
  ]
]

walk_ends :
    (k : ℕ) (ask : Option ℕ → Result HistoryPage HistoryError) (c : Option ℕ) (p : HistoryPage)
    → ask c ≡ ok p
    → p.next_cursor ≡ none
    → walk (suc k) ask c ≡ ok p.items
walk_ends k ask c p e n = rw (walk, e, n)

walk_goes_on :
    (k : ℕ) (ask : Option ℕ → Result HistoryPage HistoryError) (c : Option ℕ) (p : HistoryPage)
    (d : ℕ) (rest : List HistoryEntry)
    → ask c ≡ ok p
    → p.next_cursor ≡ some d
    → walk k ask (some d) ≡ ok rest
    → walk (suc k) ask c ≡ ok (p.items ++ rest)
walk_goes_on k ask c p d rest e n r = rw (walk, e, n, r)

take_all : (n : ℕ) (rows : List Transaction) → drop n rows ≡ [] → take n rows ≡ rows
take_all zero rows e = sym e
take_all (suc n) [] e = refl
take_all (suc n) (t ∷ rows) e = ap (λ r. t ∷ r) (take_all n rows e)

length-take_full :
    (n : ℕ) (rows : List Transaction) → is_nil (drop n rows) ≡ false → length (take n rows) ≡ n
length-take_full zero rows e = refl
length-take_full (suc n) [] e = ground (arith, e)
length-take_full (suc n) (t ∷ rows) e = ap suc (length-take_full n rows e)

Descends-drop : (n : ℕ) (rows : List Transaction) → Descends rows → Descends (drop n rows)
Descends-drop zero rows d = d
Descends-drop (suc n) [] d = tt
Descends-drop (suc n) (t ∷ rows) d = Descends-drop n rows d.1

length-drop : (n : ℕ) (rows : List Transaction) → length (drop n rows) ≤ length rows
length-drop zero rows = omega arith
length-drop (suc n) [] = omega arith
length-drop (suc n) (t ∷ rows) = omega (arith, length-drop n rows)

module _ (g member : ℕ) (table : List Transaction) where
  -- The whole history, the latest first.
  abbrev history : List Transaction
  history = order_rows (keep (is_of g member) table)

  fn_has_more_history_lem :
      (b : ℕ)
      → Exclusive same_time (keep (is_of g member) table)
      → fn_has_more_history g member b table ≡ not (is_nil (keep (older b) history))
  unfolding fn_has_more_history
  fn_has_more_history_lem b e =
      any_and (is_of g member) (older b) table
      ∙ sym (any-order_rows (older b) (keep (is_of g member) table))
      ∙ any-is_nil (older b) history

  rest_after :
      (n : ℕ) (c : Option ℕ) (t : Transaction) (rows : List Transaction)
      → keep (after_cursor c) history ≡ t ∷ rows
      → Descends (t ∷ rows)
      → All (λ u. Bound c u.created_at) (t ∷ rows)
      → length (take n rows) ≡ n
      → keep (older (last_of t (take n rows)).created_at) history ≡ drop n rows
  rest_after n c t rows e d a l =
      let b = (last_of t (take n rows)).created_at in
      sym (keep-older_after c b history (last_of-All (λ u. Bound c u.created_at) n t rows a.0 a.1))
      ∙ ap (keep (older b)) e
      ∙ older_than_last n t rows d l

  more_after :
      (n : ℕ) (c : Option ℕ) (t : Transaction) (rows : List Transaction)
      → Exclusive same_time (keep (is_of g member) table)
      → keep (after_cursor c) history ≡ t ∷ rows
      → Descends (t ∷ rows)
      → All (λ u. Bound c u.created_at) (t ∷ rows)
      → length (take n rows) ≡ n
      → fn_has_more_history g member (last_of t (take n rows)).created_at table
        ≡ not (is_nil (drop n rows))
  more_after n c t rows x e d a l =
      fn_has_more_history_lem (last_of t (take n rows)).created_at x
      ∙ ap (λ r. not (is_nil r)) (rest_after n c t rows e d a l)

  next_cursor_lem :
      (n : ℕ) (c : Option ℕ) (rows : List Transaction)
      → Exclusive same_time (keep (is_of g member) table)
      → keep (after_cursor c) history ≡ rows
      → Descends rows
      → All (λ t. Bound c t.created_at) rows
      → next_cursor_value
          (suc n)
          (map (make_history_entry member) (take (suc n) rows))
          (λ b. fn_has_more_history g member b table)
        ≡ cursor_after n rows
  next_cursor_lem n c [] x e d a = ground arith
  next_cursor_lem n c (t ∷ rows) x e d a = ground (
    arith,
    length-map (make_history_entry member) (take n rows),
    last-cons (make_history_entry member t) (map (make_history_entry member) (take n rows)),
    last_of-map (make_history_entry member) t (take n rows),
    short_drop n rows,
    more_after n c t rows x e d a,
  )

  rows_fetched :
      (n : ℕ) (c : Option ℕ)
      → leb (suc n) 50 ≡ true
      → Exclusive same_time (keep (is_of g member) table)
      → fn_get_history g member (suc n) c table ≡ ok (take (suc n) (keep (after_cursor c) history))
  unfolding fn_get_history
  rows_fetched n c l x = ground (
    arith,
    keep_and (is_of g member) (after_cursor c) table,
    keep-order_rows (after_cursor c) (keep (is_of g member) table) x,
  )

  read_history_lem :
      (n : ℕ) (c : Option ℕ) (rows : List Transaction)
      → leb (suc n) 50 ≡ true
      → Exclusive same_time (keep (is_of g member) table)
      → keep (after_cursor c) history ≡ rows
      → Descends rows
      → All (λ t. Bound c t.created_at) rows
      → read_history g member (suc n) c table ≡ ok (page member n rows)
  unfolding read_history
  read_history_lem n c rows l x e d a =
      rw (read_history, rows_fetched n c l x, e, next_cursor_lem n c rows x e d a)

  walk_on :
      (k n : ℕ) (c : Option ℕ) (t : Transaction) (rows rest : List Transaction)
      → read_history g member (suc n) c table ≡ ok (page member n (t ∷ rows))
      → drop n rows ≡ rest
      → (is_nil (drop n rows) ≡ false
          → walk k
              (λ d. read_history g member (suc n) d table)
              (some (last_of t (take n rows)).created_at)
            ≡ ok (map (make_history_entry member) (drop n rows)))
      → walk (suc k) (λ d. read_history g member (suc n) d table) c
        ≡ ok (map (make_history_entry member) (t ∷ rows))
  walk_on k n c t rows [] r e more =
      walk_ends k (λ d. read_history g member (suc n) d table) c (page member n (t ∷ rows)) r
        (ground (arith, e))
      ∙ ap (λ ts. ok (map (make_history_entry member) (t ∷ ts))) (take_all n rows e)
  walk_on k n c t rows (u ∷ rest) r e more =
      walk_goes_on k (λ d. read_history g member (suc n) d table) c (page member n (t ∷ rows))
        (last_of t (take n rows)).created_at (map (make_history_entry member) (drop n rows)) r
        (ground (arith, e)) (more (ap is_nil e))
      ∙ ap ok (map-take-drop (make_history_entry member) (suc n) (t ∷ rows))

  walk_lem :
      (k n : ℕ) (c : Option ℕ) (rows : List Transaction)
      → length rows ≤ k
      → leb (suc n) 50 ≡ true
      → Exclusive same_time (keep (is_of g member) table)
      → keep (after_cursor c) history ≡ rows
      → Descends rows
      → All (λ t. Bound c t.created_at) rows
      → walk (suc k) (λ d. read_history g member (suc n) d table) c
        ≡ ok (map (make_history_entry member) rows)
  walk_lem k n c [] f l x e d a =
      walk_ends k (λ d. read_history g member (suc n) d table) c (page member n [])
        (read_history_lem n c [] l x e d a) refl
  walk_lem zero n c (t ∷ rows) f l x e d a = ground (arith, f)
  walk_lem (suc k) n c (t ∷ rows) f l x e d a =
      walk_on (suc k) n c t rows (drop n rows) (read_history_lem n c (t ∷ rows) l x e d a) refl
        (λ more.
          let after = rest_after n c t rows e d a (length-take_full n rows more) in
          let b = (last_of t (take n rows)).created_at in
          walk_lem k n (some b) (drop n rows) (omega (arith, f, length-drop n rows)) l x after
            (Descends-drop n rows d.1) (subst (All (Before b)) after (All-older b history)))

get_history_lem :
    (g requester : ℕ) (target : Option ℕ) (can_view_others : Bool) (limit : ℕ) (cursor : Option ℕ)
    (table : List Transaction)
    → 1 ≤ limit
    → limit ≤ 50
    → may_view requester (target_of requester target) can_view_others ≡ true
    → get_history g requester target can_view_others limit cursor table
      ≡ read_history g (target_of requester target) limit cursor table
unfolding get_history
get_history_lem g requester target can_view_others limit cursor table low high allowed =
    ground (arith, low, high, allowed)

All-unbounded : (rows : List Transaction) → All (λ t. Bound none t.created_at) rows
All-unbounded [] = tt
All-unbounded (t ∷ rows) = (tt, All-unbounded rows)

-- A member who may see a history, asks for it with a limit of 1 to 50, and then asks again with the
-- cursor of each page until a page has none, is shown every transaction of the history exactly once,
-- the latest first: where no two of the history's transactions have the same time, and the table
-- stays as it is. At most one page more than there are transactions is asked for.
pub pages_cover_history :
    (g requester : ℕ) (target : Option ℕ) (can_view_others : Bool) (limit k : ℕ)
    (table : List Transaction)
    → 1 ≤ limit
    → limit ≤ 50
    → may_view requester (target_of requester target) can_view_others ≡ true
    → Exclusive same_time (keep (is_of g (target_of requester target)) table)
    → length (keep (is_of g (target_of requester target)) table) ≤ k
    → walk
        (suc k)
        (λ cursor. get_history g requester target can_view_others limit cursor table)
        none
      ≡ ok (
          map
            (make_history_entry (target_of requester target))
            (order_rows (keep (is_of g (target_of requester target)) table)))
pages_cover_history g requester target can_view_others zero k table low high allowed x f =
    ground (arith, low)
pages_cover_history g requester target can_view_others (suc n) k table low high allowed x f =
    let member = target_of requester target in
    let rows = keep (is_of g member) table in
    ap (λ ask. walk (suc k) ask none)
      (fun_ext
        (λ c. get_history_lem g requester target can_view_others (suc n) c table low high allowed))
    ∙ walk_lem g member table k n none (order_rows rows) (omega (arith, f, length-order_rows rows))
        (ground (arith, high)) x (keep_true (order_rows rows)) (order_rows-Descends rows x)
        (All-unbounded (order_rows rows))
