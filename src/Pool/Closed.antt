-- ===== src/Pool/Closed.antt =====
-- Sequences of the coordinator's events, and transfers whose rows are completed or rejected.
use Prim.Native.String.{String}
use dro_asms.Prelude.{
  ℕ, ◌+◌, ◌≡◌, refl, Bool, true, false, ◌&&◌, Option, none, some, List, [], ◌∷◌, ◌++◌, map, arith,
  All, leb, ◌==◌, if◌then◌else◌, if_ind, option_cases,
}
use dro_asms.Prelude.Int.{ℤ}
use dro_asms.Prelude.Dict.{lookup}
use dro_asms.Pool.Defs.{
  Status, completed, rejected, checking, PendingTransfer, Task, sleeping, Coordinator, find_pending,
  update_row, marked, retried, expire_row, approve_row, update_status, approved_row, execute_row,
  execute_transfer, record_check, all_passed, cancel_task, retry_pending, schedule_retry,
  handle_check_result, handle_check_approved, retry_checks, cleanup_expired,
}

-- What happens to the coordinator and its rows, one after the other.
pub data Event : Type 0 where
  created : PendingTransfer → Event
  check_result : (t : ℕ) → (name : String) → (result : ℤ) → Event
  -- the database approves a transfer that is being checked
  all_checks_passed : (t : ℕ) → Event
  check_approved : (t : ℕ) → Event
  -- the retry task of the transfer wakes up, where it waits
  retry_due : (t : ℕ) → Event
  cleanup : Event
  wait : ℕ → Event

abbrev pub is_sleeping : Option Task → Bool
is_sleeping (some (sleeping n)) = true
is_sleeping _ = false

-- Neither creates the transfer nor retries its checks.
abbrev pub Spares : ℕ → Event → Type 0
Spares t (created p) = (p.transfer_id == t) ≡ false
Spares t (retry_due u) = (u == t) ≡ false
Spares t _ = Unit

abbrev pub is_live : Status → Bool
is_live completed = false
is_live rejected = false
is_live _ = true

-- Every row of the transfer is completed or rejected.
abbrev pub Closed : ℕ → List PendingTransfer → Type 0
Closed t rows = All (λ p. (p.transfer_id == t && is_live p.status) ≡ false) rows

pub unapproved : (t : ℕ) (rows : List PendingTransfer) → Closed t rows → approved_row t rows ≡ none
unfolding approved_row find_pending
unapproved t [] c = refl
unapproved t (p ∷ ps) c = ground (arith, unapproved t ps c.1)

Closed-map :
    (t : ℕ) (f : PendingTransfer → PendingTransfer) (rows : List PendingTransfer)
    → ((p : PendingTransfer)
        → (p.transfer_id == t && is_live p.status) ≡ false
        → ((f p).transfer_id == t && is_live (f p).status) ≡ false)
    → Closed t rows
    → Closed t (map f rows)
Closed-map t f [] h c = tt
Closed-map t f (p ∷ ps) h c = (h p c.0, Closed-map t f ps h c.1)

Closed-update_row :
    (t u : ℕ) (f : PendingTransfer → PendingTransfer) (rows : List PendingTransfer)
    → ((p : PendingTransfer) → (f p).transfer_id ≡ p.transfer_id)
    → ((p : PendingTransfer) → is_live p.status ≡ false → is_live (f p).status ≡ false)
    → Closed t rows
    → Closed t (update_row u f rows)
Closed-update_row t u f rows same h c =
    Closed-map t (λ p. if p.transfer_id == u then f p else p) rows
      (λ p k. ground (arith, same p, h p, k)) c

Closed-append :
    (t : ℕ) (rows : List PendingTransfer) (p : PendingTransfer)
    → (p.transfer_id == t) ≡ false
    → Closed t rows
    → Closed t (rows ++ (p ∷ []))
Closed-append t [] p h c = (ground (arith, h), tt)
Closed-append t (q ∷ ps) p h c = (c.0, Closed-append t ps p h c.1)

pub Closed-marked :
    (t now : ℕ) (s : Status) (rows : List PendingTransfer)
    → is_live s ≡ false
    → Closed t (update_row t (marked s now) rows)
Closed-marked t now s [] h = tt
Closed-marked t now s (p ∷ ps) h = (ground (arith, h), Closed-marked t now s ps h)

module _ {L : Type 0} (transfer_currency : ℕ → ℕ → ℕ → ℕ → L → Option L) where
  unfoldable pub handle : Event → Coordinator L → Coordinator L
  handle (created p) w = record w { rows = w.rows ++ (p ∷ []) }
  handle (check_result t name r) w = handle_check_result t name r w
  handle (all_checks_passed t) w = record w { rows = update_row t (approve_row w.now) w.rows }
  handle (check_approved t) w = handle_check_approved transfer_currency t w
  handle (retry_due t) w = if is_sleeping (lookup t w.retry_tasks) then retry_checks t w else w
  handle cleanup w = cleanup_expired w
  handle (wait n) w = record w { now = w.now + n }

  unfoldable pub run : List Event → Coordinator L → Coordinator L
  run [] w = w
  run (e ∷ es) w = run es (handle e w)

  Closed-execute_row :
      (t : ℕ) (p : PendingTransfer) (w : Coordinator L)
      → Closed t w.rows
      → Closed t (execute_row transfer_currency p w).rows
  unfolding execute_row update_status
  Closed-execute_row t p w c =
      option_cases (λ (out : Coordinator L). Closed t out.rows)
        (transfer_currency p.guild_id p.initiator_id p.target_id p.amount w.ledger) _ _
        (λ e.
          Closed-update_row t p.transfer_id (marked rejected w.now) w.rows (λ q. refl) (λ q h. refl)
            c)
        (λ l e.
          Closed-update_row t p.transfer_id (marked completed w.now) w.rows (λ q. refl)
            (λ q h. refl) c)

  Closed-execute_transfer :
      (t u : ℕ) (w : Coordinator L)
      → Closed t w.rows
      → Closed t (execute_transfer transfer_currency u w).rows
  unfolding execute_transfer
  Closed-execute_transfer t u w c =
      option_cases (λ (out : Coordinator L). Closed t out.rows) (approved_row u w.rows) _ _ (λ e. c)
        (λ p e. Closed-execute_row t p w c)

  Closed-retry_pending :
      (t u : ℕ) (p : PendingTransfer) (w : Coordinator L)
      → Closed t w.rows
      → Closed t (retry_pending u p w).rows
  unfolding retry_pending update_status
  Closed-retry_pending t u p w c =
      if_ind (λ (out : Coordinator L). Closed t out.rows) (leb 10 p.retry_count)
        (Closed-update_row t u (marked rejected w.now) w.rows (λ q. refl) (λ q h. refl) c)
        (Closed-update_row t u (retried w.now) w.rows (λ q. refl) (λ q h. h) c)

  Closed-schedule_retry :
      (t u : ℕ) (w : Coordinator L) → Closed t w.rows → Closed t (schedule_retry u w).rows
  unfolding schedule_retry
  Closed-schedule_retry t u w c =
      option_cases (λ (out : Coordinator L). Closed t out.rows) (find_pending u w.rows) _ _ (λ e. c)
        (λ p e. Closed-retry_pending t u p (cancel_task u w) c)

  Closed-handle_check_result :
      (t u : ℕ) (name : String) (r : ℤ) (w : Coordinator L)
      → Closed t w.rows
      → Closed t (handle_check_result u name r w).rows
  unfolding handle_check_result
  Closed-handle_check_result t u name r w c =
      let P : Coordinator L → Type 0 = λ out. Closed t out.rows in
      let w1 : Coordinator L = record w { check_store = (record_check u name r w.check_store).1 } in
      if_ind P w.running
        (if_ind P (record_check u name r w.check_store).0
          (if_ind P (all_passed u w1.check_store) c (Closed-schedule_retry t u w1 c)) c)
        c

  Closed-retry_checks :
      (t u : ℕ) (w : Coordinator L)
      → (u == t) ≡ false
      → Closed t w.rows
      → Closed t (retry_checks u w).rows
  unfolding retry_checks update_status
  Closed-retry_checks t u w other c =
      Closed-map t (λ p. if p.transfer_id == u then marked checking w.now p else p) w.rows
        (λ p h. ground (arith, other, h)) c

  Closed-handle :
      (t : ℕ) (e : Event) (w : Coordinator L)
      → Spares t e
      → Closed t w.rows
      → Closed t (handle e w).rows
  unfolding handle handle_check_approved cleanup_expired
  Closed-handle t (created p) w s c = Closed-append t w.rows p s c
  Closed-handle t (check_result u name r) w s c = Closed-handle_check_result t u name r w c
  Closed-handle t (all_checks_passed u) w s c =
      Closed-update_row t u (approve_row w.now) w.rows (λ q. ground arith)
        (λ q h. ground (arith, h)) c
  Closed-handle t (check_approved u) w s c =
      if_ind (λ (out : Coordinator L). Closed t out.rows) w.running
        (Closed-execute_transfer t u w c) c
  Closed-handle t (retry_due u) w s c =
      if_ind (λ (out : Coordinator L). Closed t out.rows) (is_sleeping (lookup u w.retry_tasks))
        (Closed-retry_checks t u w s c) c
  Closed-handle t cleanup w s c =
      Closed-map t (expire_row w.now) w.rows (λ p h. ground (arith, h)) c
  Closed-handle t (wait n) w s c = c

  pub Closed-run :
      (t : ℕ) (es : List Event) (w : Coordinator L)
      → All (Spares t) es
      → Closed t w.rows
      → Closed t (run es w).rows
  unfolding run
  Closed-run t [] w s c = c
  Closed-run t (e ∷ es) w s c = Closed-run t es (handle e w) s.1 (Closed-handle t e w s.0 c)
