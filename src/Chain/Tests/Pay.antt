-- ===== src/Chain/Tests/Pay.antt =====
-- `AddAccount` on the small chain: two new accounts, one of which stands on the other shard, and one of
-- them paid twice.
use sharded_blockchain_dashb.Base.Keyed.{bytes_is_eq, bytes_eq}
use sharded_blockchain_dashb.Base.{◌≡◌, ◌≢◌, refl, sym, ◌∙◌, ◌+◌, ◌^◌, List, [], ◌∷◌, arith}
use sharded_blockchain_dashb.Base.Dict.{lookup, insert}
use sharded_blockchain_dashb.Base.Int.{pos, ◌+ℤ◌}
use sharded_blockchain_dashb.Base.Outcome.{ret, ret-injective}
use sharded_blockchain_dashb.Core.{AccountState, Address, fresh_account, BlockHeader}
use sharded_blockchain_dashb.Core.Account.{deposit}
use sharded_blockchain_dashb.Backend.Sample.{sample, open_trie, reopen, state, as_state, Contents}
use sharded_blockchain_dashb.Backend.Sample.Laws.{
  sample_trie, sample_database, sample_bolt, sample_gob,
}
use sharded_blockchain_dashb.Chain.{defaults, BlockChain}
use sharded_blockchain_dashb.Chain.Status.{store_account}
use sharded_blockchain_dashb.Chain.Refines.{view, IsReadable}
use sharded_blockchain_dashb.Chain.Accounts.{pay_accounts, add_account}
use sharded_blockchain_dashb.Chain.Accounts.Pay.{paid, IsPaid, add_account_lem}
use sharded_blockchain_dashb.Chain.Tests.Setup.{
  alice, carol, genesis, chain, chain-IsOpen, empty-Fits,
}

abbrev payees : List Address
payees = alice ∷ carol ∷ alice ∷ []

abbrev amounts : List AccountState
amounts = fresh_account 0 (pos 3) ∷ fresh_account 1 (pos 4) ∷ fresh_account 9 (pos 5) ∷ []

abbrev no_contents : Contents
no_contents = []

no_contents-IsReadable : IsReadable sample no_contents
unfolding lookup
no_contents-IsReadable a b e = cc

abbrev contents : Contents
contents =
    (alice, state (fresh_account 0 (pos (10 ^ 45 + 8))))
    ∷ (carol, state (fresh_account 1 (pos (10 ^ 45 + 4))))
    ∷ []

contents_paid : pay_accounts sample defaults no_contents payees amounts ≡ ret contents
unfolding pay_accounts store_account deposit ◌+ℤ◌ lookup insert as_state bytes_eq
contents_paid = refl

contents_new : (sample.commit contents).0 ≢ sample.bytes_to_hash genesis.state_root
contents_new e = cc

add_account_lem_example :
    (bc' : BlockChain sample) × (h : BlockHeader) × (add_account sample defaults chain payees
        amounts
      ≡ ret bc')
    × IsPaid sample chain bc' genesis h
        (paid defaults.init_balance (view sample no_contents) payees amounts)
unfolding open_trie reopen lookup
add_account_lem_example =
    add_account_lem sample sample_trie sample_database sample_bolt sample_gob defaults chain alice
      (carol ∷ alice ∷ []) amounts no_contents refl refl chain-IsOpen refl refl
      no_contents-IsReadable (omega arith)
      (λ st e. (tt, rw (ret-injective (sym e ∙ contents_paid)) contents_new, empty-Fits _))
