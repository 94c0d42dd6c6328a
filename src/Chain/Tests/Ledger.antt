-- ===== src/Chain/Tests/Ledger.antt =====
-- The ledger's properties on the transfers of the small chain.
use sharded_blockchain_dashb.Base.Keyed.{bytes_is_eq}
use sharded_blockchain_dashb.Base.{◌^◌, ◌≡◌, refl, List, [], ◌∷◌, arith, if◌then◌else◌, All}
use sharded_blockchain_dashb.Base.Keyed.{Bytes, bytes_eq}
use sharded_blockchain_dashb.Base.Int.{ℤ, pos, ◌+ℤ◌}
use sharded_blockchain_dashb.Base.Text.{codes}
use sharded_blockchain_dashb.Base.Outcome.{ret}
use sharded_blockchain_dashb.Core.{Address}
use sharded_blockchain_dashb.Backend.Sample.{sample}
use sharded_blockchain_dashb.Backend.Sample.Laws.{sample_trie, sample_database}
use sharded_blockchain_dashb.Chain.{BlockChain, defaults}
use sharded_blockchain_dashb.Chain.Status.{get_update_status_trie}
use sharded_blockchain_dashb.Chain.Ledger.{Accounts}
use sharded_blockchain_dashb.Chain.Ledger.Money.{total, inflow, IsCovered, IsSolvent}
use sharded_blockchain_dashb.Chain.Commit.{IsSound}
use sharded_blockchain_dashb.Chain.Audit.{
  total-get_update_status_trie, get_update_status_trie-IsSolvent,
}
use sharded_blockchain_dashb.Chain.Blocks.Restart.{no_accounts}
use sharded_blockchain_dashb.Chain.Tests.Setup.{
  alice, bob, carol, transfers, txs, chain, chain-IsSound, txs-plans, txs-Commits,
}

abbrev start : Address → ℤ
start a = if bytes_eq a (codes "c00000010") then pos 0 else pos (10 ^ 45)

abbrev listed : List Address
listed = alice ∷ bob ∷ carol ∷ codes "c00000010" ∷ []

covered : All (IsCovered (pos (10 ^ 45)) start listed) transfers
unfolding bytes_eq
covered = (
  record { from_once = refl; to_once = refl; from_init = refl; to_init = refl },
  (
    record { from_once = refl; to_once = refl; from_init = refl; to_init = refl },
    (record { from_once = refl; to_once = refl; from_init = refl; to_init = refl }, tt),
  ),
)

total-get_update_status_trie_example :
    (bc' : BlockChain sample) × (root : Bytes) × (m' : Accounts) × (get_update_status_trie sample
        defaults chain txs
      ≡ ret (bc', root))
    × IsSound sample bc'.trie_db root m'
    × (total start m' listed ≡ total start no_accounts listed +ℤ inflow transfers)
total-get_update_status_trie_example =
    total-get_update_status_trie sample sample_trie sample_database defaults chain txs transfers
      start listed refl chain-IsSound txs-plans txs-Commits covered

-- The block brings in what carol sends from another shard.
inflow_runs : inflow transfers ≡ pos 2
unfolding ◌+ℤ◌
inflow_runs = refl

txs-IsSolvent :
    (bc' : BlockChain sample) × (root : Bytes) × (m' : Accounts) × (get_update_status_trie sample
        defaults chain txs
      ≡ ret (bc', root))
    × IsSound sample bc'.trie_db root m'
    × IsSolvent m'
txs-IsSolvent =
    get_update_status_trie-IsSolvent sample sample_trie sample_database defaults chain txs transfers
      refl chain-IsSound txs-plans txs-Commits (omega arith) (λ a s e. cc) (omega arith)
