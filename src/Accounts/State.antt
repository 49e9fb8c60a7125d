-- ===== src/Accounts/State.antt =====
-- modules/accounts/domain/account-state.ts. The state objects have no data: a state is its status,
-- and `stateOf` is the identity.
pub mod Transitions
use vaultline.Prelude.{Bool, true, false, not}
use vaultline.Prelude.Int.{ℤ, is_zero_ℤ}
use vaultline.Common.{
  Result, ok, err, ◌>>◌, throw_if, invalid_state_transition, illegal_transition, close_with_balance,
}
use vaultline.Entities.{AccountStatus, StatusAction, pending, active, frozen, closed}

unfoldable pub can_deposit : AccountStatus → Bool
can_deposit pending = true
can_deposit active = true
can_deposit frozen = true
can_deposit closed = false

unfoldable pub can_withdraw : AccountStatus → Bool
can_withdraw active = true
can_withdraw _ = false

-- `illegal`
illegal : Result AccountStatus
illegal = err (invalid_state_transition illegal_transition)

-- `closeIfEmpty`
close_if_empty : ℤ → Result AccountStatus
close_if_empty balance_minor = do
  throw_if (not (is_zero_ℤ balance_minor)) (invalid_state_transition close_with_balance)
  ok closed

activate : AccountStatus → Result AccountStatus
unfolding illegal
activate pending = ok active
activate _ = illegal

freeze : AccountStatus → Result AccountStatus
unfolding illegal
freeze active = ok frozen
freeze _ = illegal

unfreeze : AccountStatus → Result AccountStatus
unfolding illegal
unfreeze frozen = ok active
unfreeze _ = illegal

close : AccountStatus → ℤ → Result AccountStatus
unfolding illegal close_if_empty
close pending balance_minor = close_if_empty balance_minor
close active balance_minor = close_if_empty balance_minor
close frozen balance_minor = close_if_empty balance_minor
close closed balance_minor = illegal

-- The choice in `AccountsService.changeStatus`:
-- `action === 'close' ? current.close(account.balanceMinor) : current[action]()`.
unfoldable pub next_status : StatusAction → ℤ → AccountStatus → Result AccountStatus
unfolding activate freeze unfreeze close
next_status StatusAction.activate balance_minor s = activate s
next_status StatusAction.freeze balance_minor s = freeze s
next_status StatusAction.unfreeze balance_minor s = unfreeze s
next_status StatusAction.close balance_minor s = close s balance_minor
