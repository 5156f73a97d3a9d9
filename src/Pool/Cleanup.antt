-- ===== src/Pool/Cleanup.antt =====
-- The cleanup of expired transfers.
use dro_asms.Prelude.{
  ℕ, ◌≡◌, refl, ap, ◌∙◌, Bool, true, false, ◌&&◌, none, some, List, [], ◌∷◌, ◌++◌, arith, map, keep,
  ltb, All, if◌then◌else◌,
}
use dro_asms.Pool.Defs.{
  Status, pending, checking, approved, completed, rejected, PendingTransfer, expired_notice,
  Coordinator, marked, expire_row, just_rejected, cleanup_expired,
}

-- A transfer that is pending or being checked, and whose time is over.
abbrev waits : Status → Bool
waits pending = true
waits checking = true
waits approved = false
waits completed = false
waits rejected = false

abbrev pub is_due : ℕ → PendingTransfer → Bool
is_due now p = waits p.status && elim p.expires_at [ none ↦ false | some e ↦ ltb e now ]

-- What is left of a row: one that is due is rejected at this instant, any other one is as it was.
abbrev pub Settles : ℕ → PendingTransfer → PendingTransfer → Type 0
Settles now p q = q ≡ (if is_due now p then record p { status = rejected; updated_at = now } else p)

-- The lists have the same length, and their rows are related one by one.
abbrev pub Pairwise :
    (PendingTransfer → PendingTransfer → Type 0)
    → List PendingTransfer
    → List PendingTransfer
    → Type 0
Pairwise R [] [] = Unit
Pairwise R (p ∷ ps) (q ∷ qs) = R p q × Pairwise R ps qs
Pairwise R _ _ = ⊥

expire_row-Settles : (now : ℕ) (p : PendingTransfer) → Settles now p (expire_row now p)
expire_row-Settles now p = ground arith

settled_rows :
    (now : ℕ) (rows : List PendingTransfer)
    → Pairwise (Settles now) rows (map (expire_row now) rows)
settled_rows now [] = tt
settled_rows now (p ∷ ps) = (expire_row-Settles now p, settled_rows now ps)

keep-map-expire_row :
    (now : ℕ) (rows : List PendingTransfer)
    → All (λ p. just_rejected now p ≡ false) rows
    → keep (just_rejected now) (map (expire_row now) rows)
      ≡ map (marked rejected now) (keep (is_due now) rows)
keep-map-expire_row now [] h = refl
keep-map-expire_row now (p ∷ ps) h = ground (arith, keep-map-expire_row now ps h.1)

ids-marked :
    (now : ℕ) (rows : List PendingTransfer)
    → map expired_notice (map (marked rejected now) rows) ≡ map expired_notice rows
ids-marked now [] = refl
ids-marked now (p ∷ ps) = ap (λ es. expired_notice p ∷ es) (ids-marked now ps)

-- The cleanup rejects exactly the transfers that are pending or being checked and whose time is over,
-- and leaves every other row as it is; and it notifies exactly these, each once and in their order,
-- where no expired transfer was rejected at this same instant before.
pub cleanup_notifies :
    {L : Type 0} (w : Coordinator L)
    → All (λ p. just_rejected w.now p ≡ false) w.rows
    → Pairwise (Settles w.now) w.rows (cleanup_expired w).rows
      × ((cleanup_expired w).denied ≡ w.denied ++ map expired_notice (keep (is_due w.now) w.rows))
unfolding cleanup_expired
cleanup_notifies w h = (
  settled_rows w.now w.rows,
  ap (λ es. w.denied ++ es)
      (ap (map expired_notice) (keep-map-expire_row w.now w.rows h)
        ∙ ids-marked w.now (keep (is_due w.now) w.rows)),
)
