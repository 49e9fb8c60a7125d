-- ===== src/Accounts/State/Transitions.antt =====
-- The legal changes of an account's status as a table, and what holds along every history.
use vaultline.Prelude.{◌≡◌, refl, ◌≢◌, ◌↔◌, arith}
use vaultline.Prelude.Int.{ℤ, pos}
use vaultline.Common.{ok}
use vaultline.Entities.{AccountStatus, StatusAction, pending, active, frozen, closed}
use vaultline.Accounts.State.{next_status}

-- From which status an action leads to which, and the balance that it wants.
abbrev pub IsLegal : StatusAction → ℤ → AccountStatus → AccountStatus → Type 0
IsLegal StatusAction.activate b s t = (s ≡ pending) × (t ≡ active)
IsLegal StatusAction.freeze b s t = (s ≡ active) × (t ≡ frozen)
IsLegal StatusAction.unfreeze b s t = (s ≡ frozen) × (t ≡ active)
IsLegal StatusAction.close b s t = (s ≢ closed) × (b ≡ pos 0) × (t ≡ closed)

-- A change of status is accepted, and leads to a status, exactly so: an activation from pending
-- to active, a freeze from active to frozen, an unfreeze from frozen to active, and a close from
-- any status but closed to closed with a balance of zero.
pub next_status_iff :
    (a : StatusAction) (b : ℤ) (s t : AccountStatus) → (next_status a b s ≡ ok t) ↔ IsLegal a b s t
unfolding next_status
next_status_iff StatusAction.activate b s t = ground arith
next_status_iff StatusAction.freeze b s t = ground arith
next_status_iff StatusAction.unfreeze b s t = ground arith
next_status_iff StatusAction.close b s t = ground arith

-- The statuses that an account goes through, each change made at the balance of its time.
pub data History (s : AccountStatus) : AccountStatus → Type 0 where
  start : History s s
  change :
      {t u : AccountStatus} (a : StatusAction) (b : ℤ)
      → History s t
      → next_status a b t ≡ ok u
      → History s u

change-ne-closed :
    (a : StatusAction) (b : ℤ) (t u : AccountStatus) → next_status a b t ≡ ok u → t ≢ closed
unfolding next_status
change-ne-closed a b t u h = ground arith

-- A closed account stays closed along every history of accepted changes.
pub closed_for_good : {t : AccountStatus} → History closed t → t ≡ closed
closed_for_good start = refl
closed_for_good (change {t} {u} a b r h) = absurd ((change-ne-closed a b t u h) (closed_for_good r))
