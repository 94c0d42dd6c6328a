-- ===== src/Address/Tests.antt =====
-- The properties of utils/utils_partition.go at concrete addresses.
use sharded_blockchain_dashb.Base.{ℕ, ◌%◌, ◌<◌, ◌≡◌, refl, arith}
use sharded_blockchain_dashb.Base.Outcome.{ret, panic}
use sharded_blockchain_dashb.Base.Text.{codes}
use sharded_blockchain_dashb.Core.{Address}
use sharded_blockchain_dashb.Address.{
  addr2shard, addr_virtual_account, restore_account, restore_account_shard,
}
use sharded_blockchain_dashb.Address.Shard.{hex_value, suffix, addr2shard_lem}
use sharded_blockchain_dashb.Address.Virtual.{
  restore_account-addr_virtual_account, restore_account_shard-addr_virtual_account,
}

abbrev plain : Address
plain = codes "2a65aca4d5fc5b5c859090a6c34d164135398226"

addr2shard_lem_example :
    (s : ℕ) × (addr2shard 4 plain ≡ ret s) × (s ≡ hex_value 0 (suffix plain) % 4) × (s < 4)
addr2shard_lem_example = addr2shard_lem 4 plain (omega arith) (omega arith) (
  (3, refl),
  ((5, refl), ((3, refl), ((9, refl), ((8, refl), ((2, refl), ((2, refl), ((6, refl), tt))))))),
)

plain_restored : restore_account (addr_virtual_account plain 3) ≡ ret plain
plain_restored = restore_account-addr_virtual_account plain 3 refl

restore_account_shard-addr_virtual_account_example :
    restore_account_shard (addr_virtual_account plain 3) ≡ panic
restore_account_shard-addr_virtual_account_example =
    restore_account_shard-addr_virtual_account plain 3 refl (omega arith)
