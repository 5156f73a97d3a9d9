-- ===== src/History/Order.antt =====
-- The order of the rows: what it does with a filter, and that rows of distinct times descend.
use dro_asms.Prelude.{
  ℕ, suc, ◌≡◌, refl, ◌<◌, ◌||◌, Bool, true, false, List, [], ◌∷◌, length, keep, All, ◌==◌,
  if◌then◌else◌, if_cases, arith,
}
use dro_asms.Prelude.Exclusive.{any, Exclusive}
use dro_asms.Economy.Defs.{Transaction}
use dro_asms.History.Defs.{precedes, insert_row, order_rows}

abbrev pub same_time : Transaction → Transaction → Bool
same_time t u = t.created_at == u.created_at

abbrev pub Before : ℕ → Transaction → Type 0
Before c t = t.created_at < c

-- Every row is later than those that follow it.
abbrev pub Descends : List Transaction → Type 0
Descends [] = Unit
Descends (t ∷ rows) = All (Before t.created_at) rows × Descends rows

pub All-keep :
    (P : Transaction → Type 0) (p : Transaction → Bool) (rows : List Transaction)
    → All P rows
    → All P (keep p rows)
All-keep P p [] a = tt
All-keep P p (t ∷ rows) a = ground (arith, All-keep P p rows a.1)

All-insert_row :
    (P : Transaction → Type 0) (t : Transaction) (rows : List Transaction)
    → P t
    → All P rows
    → All P (insert_row t rows)
unfolding insert_row
All-insert_row P t [] h a = (h, tt)
All-insert_row P t (u ∷ rows) h a = ground (arith, All-insert_row P t rows h a.1)

any-insert_row :
    (p : Transaction → Bool) (t : Transaction) (rows : List Transaction)
    → any p (insert_row t rows) ≡ (p t || any p rows)
unfolding insert_row
any-insert_row p t [] = refl
any-insert_row p t (u ∷ rows) = ground (arith, any-insert_row p t rows)

pub any-order_rows :
    (p : Transaction → Bool) (rows : List Transaction) → any p (order_rows rows) ≡ any p rows
unfolding order_rows
any-order_rows p [] = refl
any-order_rows p (t ∷ rows) =
    ground (arith, any-insert_row p t (order_rows rows), any-order_rows p rows)

All-Before_later :
    (c d : ℕ) (rows : List Transaction) → c < d → All (Before c) rows → All (Before d) rows
All-Before_later c d [] l a = tt
All-Before_later c d (t ∷ rows) l a = (omega (arith, a.0), All-Before_later c d rows l a.1)

precedes-Before :
    (t u : Transaction) → precedes t u ≡ true → same_time t u ≡ false → Before t.created_at u
precedes-Before t u e n = ground (arith, e, n)

follows-Before :
    (t u : Transaction) → precedes t u ≡ false → same_time t u ≡ false → Before u.created_at t
follows-Before t u e n = ground (arith, e, n)

insert_row-Descends :
    (t : Transaction) (rows : List Transaction)
    → any (same_time t) rows ≡ false
    → Descends rows
    → Descends (insert_row t rows)
unfolding insert_row
insert_row-Descends t [] n d = (tt, tt)
insert_row-Descends t (u ∷ rows) n d =
    if_cases {A = List Transaction} Descends (precedes t u)
      (λ e.
        let l = precedes-Before t u e (ground (arith, n)) in
        ((l, All-Before_later u.created_at t.created_at rows l d.0), d))
      (λ e. (
        All-insert_row (Before u.created_at) t rows (follows-Before t u e (ground (arith, n))) d.0,
        insert_row-Descends t rows (ground (arith, n)) d.1,
      ))

pub order_rows-Descends :
    (rows : List Transaction) → Exclusive same_time rows → Descends (order_rows rows)
unfolding order_rows
order_rows-Descends [] e = tt
order_rows-Descends (t ∷ rows) e =
    insert_row-Descends t (order_rows rows) (ground (arith, any-order_rows (same_time t) rows))
      (order_rows-Descends rows e.1)

insert_row_first :
    (t : Transaction) (rows : List Transaction)
    → All (Before t.created_at) rows
    → insert_row t rows ≡ t ∷ rows
unfolding insert_row
insert_row_first t [] a = refl
insert_row_first t (u ∷ rows) a = ground (arith, a.0)

keep-insert_row :
    (p : Transaction → Bool) (t : Transaction) (rows : List Transaction)
    → any (same_time t) rows ≡ false
    → Descends rows
    → keep p (insert_row t rows) ≡ (if p t then insert_row t (keep p rows) else keep p rows)
unfolding insert_row
keep-insert_row p t [] n d = ground arith
keep-insert_row p t (u ∷ rows) n d =
    if_cases {A = List Transaction}
      (λ out. keep p out ≡ (if p t then insert_row t (keep p (u ∷ rows)) else keep p (u ∷ rows)))
      (precedes t u)
      (λ e.
        let l = precedes-Before t u e (ground (arith, n)) in
        ground (
          arith,
          e,
          insert_row_first t (keep p (u ∷ rows)) (
              All-keep (Before t.created_at) p (u ∷ rows)
                (l, All-Before_later u.created_at t.created_at rows l d.0)),
        ))
      (λ e. ground (arith, e, keep-insert_row p t rows (ground (arith, n)) d.1))

pub keep-order_rows :
    (p : Transaction → Bool) (rows : List Transaction)
    → Exclusive same_time rows
    → keep p (order_rows rows) ≡ order_rows (keep p rows)
unfolding order_rows
keep-order_rows p [] e = refl
keep-order_rows p (t ∷ rows) e = ground (
  arith,
  any-order_rows (same_time t) rows,
  order_rows-Descends rows e.1,
  keep-order_rows p rows e.1,
  keep-insert_row p t (order_rows rows),
)

length-insert_row :
    (t : Transaction) (rows : List Transaction) → length (insert_row t rows) ≡ suc (length rows)
unfolding insert_row
length-insert_row t [] = refl
length-insert_row t (u ∷ rows) = ground (arith, length-insert_row t rows)

pub length-order_rows : (rows : List Transaction) → length (order_rows rows) ≡ length rows
unfolding order_rows
length-order_rows [] = refl
length-order_rows (t ∷ rows) =
    omega (arith, length-insert_row t (order_rows rows), length-order_rows rows)
