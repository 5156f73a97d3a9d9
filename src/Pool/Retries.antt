-- ===== src/Pool/Retries.antt =====
-- The retries of a transfer whose checks have failed.
use Prim.Native.String.{String}
use mathlib.Core.Path.{subst}
use dro_asms.Prelude.{
  ℕ, ◌^◌, ◌≤◌, ◌<◌, min, ◌≡◌, refl, sym, ap, ◌∙◌, Bool, true, false, inl, inr, some, List, [], ◌∷◌,
  ◌++◌, arith, Bool-cases, leb, if◌then◌else◌,
}
use dro_asms.Prelude.Int.{ℤ}
use dro_asms.Prelude.Dict.{lookup, lookup-insert}
use dro_asms.Pool.Defs.{
  rejected, PendingTransfer, sleeping, transfer_checks_failed, Coordinator, record_check,
  all_passed, find_pending, update_row, marked, retried, update_status, cancel_task, give_up,
  try_again, Store, retry_pending, schedule_retry, handle_check_result,
}

pub find-update_row :
    (t : ℕ) (f : PendingTransfer → PendingTransfer) (rows : List PendingTransfer)
    (p : PendingTransfer)
    → ((q : PendingTransfer) → (f q).transfer_id ≡ q.transfer_id)
    → find_pending t rows ≡ some p
    → find_pending t (update_row t f rows) ≡ some (f p)
unfolding find_pending
find-update_row t f [] p same h = ground arith
find-update_row t f (q ∷ ps) p same h = ground (arith, same q, find-update_row t f ps p same)

-- What a failed check leads to: another try, after a delay that doubles up to 300 seconds, or the
-- end of the transfer.
pub data Failed {L : Type 0} (t : ℕ) (p : PendingTransfer) (w w' : Coordinator L) : Type 0 where
  tried_again :
      p.retry_count < 10
      → lookup t w'.retry_tasks ≡ some (sleeping (min (2 ^ p.retry_count) 300))
      → find_pending t w'.rows ≡ some (retried w.now p)
      → w'.denied ≡ w.denied
      → Failed t p w w'
  given_up :
      10 ≤ p.retry_count
      → find_pending t w'.rows ≡ some (marked rejected w.now p)
      → w'.denied ≡ w.denied ++ ((t, transfer_checks_failed) ∷ [])
      → Failed t p w w'

module _ {L : Type 0} where
  -- Only the clock and the notices of the coordinator before the call matter.
  same_start :
      {t : ℕ} {p : PendingTransfer} {w w' : Coordinator L}
      → Failed t p (cancel_task t w) w'
      → Failed t p w w'
  same_start (tried_again a b c d) = tried_again a b c d
  same_start (given_up a b c) = given_up a b c

  same_store :
      {t : ℕ} {p : PendingTransfer} {s : Store} {w w' : Coordinator L}
      → Failed t p (record w { check_store = s }) w'
      → Failed t p w w'
  same_store (tried_again a b c d) = tried_again a b c d
  same_store (given_up a b c) = given_up a b c

  retry_pending-Failed :
      (t : ℕ) (p : PendingTransfer) (w : Coordinator L)
      → find_pending t w.rows ≡ some p
      → Failed t p w (retry_pending t p w)
  unfolding retry_pending update_status
  retry_pending-Failed t p w h = elim (Bool-cases (leb 10 p.retry_count)) [
    | inl b ↦
        subst (λ x. Failed t p w (if x then give_up t w else try_again t p w)) (sym b)
          (given_up (ground arith)
            (find-update_row t (marked rejected w.now) w.rows p (λ q. refl) h) refl)
    | inr b ↦
        subst (λ x. Failed t p w (if x then give_up t w else try_again t p w)) (sym b)
          (tried_again (ground arith)
            (ground
              (arith, lookup-insert t t (sleeping (min (2 ^ p.retry_count) 300)) w.retry_tasks))
            (find-update_row t (retried w.now) w.rows p (λ q. refl) h) refl)
  ]

  schedule_retry-Failed :
      (t : ℕ) (p : PendingTransfer) (w : Coordinator L)
      → find_pending t w.rows ≡ some p
      → Failed t p w (schedule_retry t w)
  unfolding schedule_retry
  schedule_retry-Failed t p w h =
      let w1 = cancel_task t w in
      let s : schedule_retry t w ≡ retry_pending t p w1 = rw (h, schedule_retry) in
      subst (Failed t p w) (sym s) (same_start (retry_pending-Failed t p w1 h))

  -- When a check result completes those of a transfer that has a row, not all have passed, and the
  -- coordinator runs: with fewer than ten retries the transfer is to be tried again, after a delay
  -- of two to the number of its retries and at most 300 seconds, that number grows by one, and no
  -- denial is notified; else its row is rejected and one denial is notified.
  pub handle_check_result-Failed :
      (t : ℕ) (name : String) (r : ℤ) (w : Coordinator L) (p : PendingTransfer)
      → w.running ≡ true
      → (record_check t name r w.check_store).0 ≡ true
      → all_passed t (record_check t name r w.check_store).1 ≡ false
      → find_pending t w.rows ≡ some p
      → Failed t p w (handle_check_result t name r w)
  unfolding handle_check_result
  handle_check_result-Failed t name r w p on received failed h =
      let w1 = record w { check_store = (record_check t name r w.check_store).1 } in
      let out : Bool → Bool → Bool → Coordinator L =
        λ a b c. if a then if b then if c then w1 else schedule_retry t w1 else w1 else w in
      let all = all_passed t w1.check_store in
      let s : handle_check_result t name r w ≡ schedule_retry t w1 =
        ap (λ a. out a (record_check t name r w.check_store).0 all) on
        ∙ ap (λ b. out true b all) received
        ∙ ap (out true true) failed in
      subst (Failed t p w) (sym s) (same_store (schedule_retry-Failed t p w1 h))
