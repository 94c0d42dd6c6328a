-- ===== src/Core/Account.antt =====
-- `Deduct` and `Deposit` of core/account.go.
use sharded_blockchain_dashb.Base.{◌≡◌, Bool, true, false, arith, if◌then◌else◌}
use sharded_blockchain_dashb.Base.Int.{
  ℤ, pos, ◌+ℤ◌, ◌-ℤ◌, ◌≤ℤ◌, ltb_ℤ, +ℤ_parts, -ℤ_parts, eq_of_parts,
}
use sharded_blockchain_dashb.Core.{AccountState}

-- the mutated account, and the result
unfoldable pub deduct : AccountState → ℤ → AccountState × Bool
deduct s val =
    if ltb_ℤ s.balance val then (s, false) else (record s { balance = s.balance -ℤ val }, true)

unfoldable pub deposit : AccountState → ℤ → AccountState
deposit s value = record s { balance = s.balance +ℤ value }

-- A deposit after a successful deduction of the same amount restores the account.
pub deposit-deduct : (s : AccountState) (v : ℤ) → v ≤ℤ s.balance → deposit (deduct s v).0 v ≡ s
unfolding deduct deposit
deposit-deduct s v h = ground (
  arith,
  eq_of_parts (s.balance -ℤ v +ℤ v) s.balance,
  +ℤ_parts (s.balance -ℤ v) v,
  -ℤ_parts s.balance v,
)

-- A successful deduction from an account leaves no debt.
pub deduct_nonneg :
    (s : AccountState) (v : ℤ) → pos 0 ≤ℤ s.balance → pos 0 ≤ℤ (deduct s v).0.balance
unfolding deduct ◌-ℤ◌
deduct_nonneg s v h = ground arith
