-- ===== src/Chain/Ledger.antt =====
-- The ledger that `GetUpdateStatusTrie` implements: what each transaction of a block means, and what
-- it does to the accounts, with no trie, no encoding and no panics.
pub mod Money
use sharded_blockchain_dashb.Base.{
  ℕ, ◌+◌, Bool, false, ◌||◌, ◌&&◌, Option, none, some, List, [], ◌∷◌, ◌==◌, if◌then◌else◌,
}
use sharded_blockchain_dashb.Base.Keyed.{bytes_eq}
use sharded_blockchain_dashb.Base.Int.{ℤ, ltb_ℤ, ◌+ℤ◌, ◌-ℤ◌}
use sharded_blockchain_dashb.Base.Outcome.{Outcome, ret, ◌>>=◌, deref}
use sharded_blockchain_dashb.Core.{Address, AccountState, fresh_account, Transaction}
use sharded_blockchain_dashb.Address.{addr2shard, addr_virtual_account}
use sharded_blockchain_dashb.Chain.{Globals}
use sharded_blockchain_dashb.Chain.Partition.{get_partition_map}
use sharded_blockchain_dashb.Chain.Status.{Shard}

abbrev pub Accounts : Type 0
Accounts = Address → Option AccountState

abbrev pub put : Accounts → Address → AccountState → Accounts
put m k s a = if bytes_eq k a then some s else m a

abbrev pub account_or : Option AccountState → ℕ → ℤ → AccountState
account_or none i init = fresh_account i init
account_or (some s) i init = s

-- what one transaction asks of one shard: the amount leaves `from` if the sender is `mine`, and
-- arrives at `to`, an account that starts with `to_init`
pub record Transfer : Type 0 where
  pub from : Address
  pub to : Address
  pub amount : ℤ
  pub mine : Bool
  pub to_init : ℤ

-- the account that the shard credits: the recipient's own, or its virtual account
unfoldable pub destination : Globals → Shard → Transaction → Outcome (Address × ℤ)
destination g sh tx = do
  shard ← get_partition_map g.shard_num sh.partition_map tx.recipient
  if shard == sh.shard_id || tx.has_broker then ret (tx.recipient, g.init_balance) else (do
    main_shard ← addr2shard g.shard_num tx.sender
    ret (addr_virtual_account tx.recipient main_shard, g.virtual_init_balance))

-- a relayed transaction was charged by another shard
unfoldable pub is_mine : Globals → Shard → Transaction → Outcome Bool
is_mine g sh tx = do
  shard ← get_partition_map g.shard_num sh.partition_map tx.sender
  ret (if tx.relayed then false else shard == sh.shard_id)

unfoldable pub plan : Globals → Shard → Transaction → Outcome Transfer
plan g sh tx = do
  amount ← deref tx.value
  mine ← is_mine g sh tx
  target ← destination g sh tx
  ret (record { from = tx.sender; to = target.0; amount = amount; mine = mine; to_init = target.1 })

unfoldable pub plans : Globals → Shard → List Transaction → Outcome (List Transfer)
plans g sh [] = ret []
plans g sh (tx ∷ txs) = do first ← plan g sh tx; others ← plans g sh txs; ret (first ∷ others)

-- the sender's balance does not cover the amount
abbrev pub refused : ℤ → Accounts → Transfer → Bool
refused init m t = t.mine && ltb_ℤ (account_or (m t.from) 0 init).balance t.amount

abbrev pub pay_out : ℤ → Accounts → ℕ → Transfer → Accounts
pay_out init m i t =
    let s = account_or (m t.from) i init in
    put m t.from (record s { balance = s.balance -ℤ t.amount })

abbrev pub pay_in : Accounts → ℕ → Transfer → Accounts
pay_in m i t =
    let s = account_or (m t.to) i t.to_init in
    put m t.to (record s { balance = s.balance +ℤ t.amount })

-- round `i`
unfoldable pub apply_transfer : ℤ → Accounts → ℕ → Transfer → Accounts
apply_transfer init m i t =
    if refused init m t then m else pay_in (if t.mine then pay_out init m i t else m) i t

unfoldable pub apply_transfers : ℤ → Accounts → ℕ → List Transfer → Accounts
apply_transfers init m i [] = m
apply_transfers init m i (t ∷ ts) = apply_transfers init (apply_transfer init m i t) (i + 1) ts
