-- ===== src/Address.antt =====
-- utils/utils_partition.go: the default shard of an address, and the names of virtual accounts.
-- `params.ShardNum` is a variable, so it is an argument here.
pub mod Shard
pub mod Virtual
mod Tests
use sharded_blockchain_dashb.Base.{
  ℕ, ◌-◌, ◌%◌, ◌++◌, ltb, ◌==◌, if◌then◌else◌, length, take, drop, get_elem?,
}
use sharded_blockchain_dashb.Base.Outcome.{Outcome, ret, panic, ◌>>=◌, deref}
use sharded_blockchain_dashb.Base.Text.{itoa, parse_hex}
use sharded_blockchain_dashb.Core.{Address}

-- `addr[len(addr)-8:]`
unfoldable pub last8 : Address → Outcome Address
last8 addr = if ltb (length addr) 8 then panic else ret (drop (length addr - 8) addr)

unfoldable pub addr2shard : ℕ → Address → Outcome ℕ
unfolding last8
addr2shard shard_num addr = do
  suffix ← last8 addr
  num ← deref (parse_hex suffix)
  if shard_num == 0 then panic else ret (num % shard_num)

unfoldable pub addr_virtual_account : Address → ℕ → Address
addr_virtual_account addr shard_id = addr ++ itoa shard_id

-- `xuniaddr[:40]`
unfoldable pub restore_account : Address → Outcome Address
restore_account xuniaddr = if ltb (length xuniaddr) 40 then panic else ret (take 40 xuniaddr)

unfoldable pub restore_account_shard : Address → Outcome (Address × ℕ)
unfolding restore_account
restore_account_shard xuniaddr = do
  address ← restore_account xuniaddr
  shard ← deref (get_elem? xuniaddr 41)
  ret (address, shard)
