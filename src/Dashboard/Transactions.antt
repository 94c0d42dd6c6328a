-- ===== src/Dashboard/Transactions.antt =====
-- main.go, the views of transactions: `buildTransactionViews` of the decoder's own transactions,
-- `buildTransactionViewsFromCore` and `QueryBlockTransactions`. A nil transaction is `none`; those of
-- `Block.body` are not nil.
pub mod Pages
use sharded_blockchain_dashb.Base.{
  ℕ, ◌+◌, Bool, false, ◌||◌, Option, none, some, List, [], ◌∷◌, ltb, ◌==◌, if◌then◌else◌, length,
  take,
}
use sharded_blockchain_dashb.Base.Keyed.{Bytes}
use sharded_blockchain_dashb.Base.Text.{itoa, hex_encode}
use sharded_blockchain_dashb.Base.Int.{ℤ, pos, negsuc, uint64}
use sharded_blockchain_dashb.Base.Outcome.{Outcome, ret, ◌>>=◌}
use sharded_blockchain_dashb.Core.{Transaction}
use sharded_blockchain_dashb.Backend.{Backend}
use sharded_blockchain_dashb.Query.{query_block_txs}
use sharded_blockchain_dashb.Base.Space.{trim_space}
use sharded_blockchain_dashb.Dashboard.Store.{ChainStore, query_indexed}

-- the transaction that the dashboard's own decoder makes
pub record LiteTx : Type 0 where
  pub sender : Bytes
  pub recipient : Bytes
  pub nonce : ℕ
  pub signature : Bytes
  pub value : Option ℤ
  pub tx_hash : Bytes
  pub relayed : Bool
  pub has_broker : Bool
  pub sender_is_broker : Bool
  pub original_sender : Bytes
  pub final_recipient : Bytes
  pub raw_tx_hash : Bytes

pub record TransactionView : Type 0 where
  pub index : ℕ
  pub sender : Bytes
  pub recipient : Bytes
  pub value : Bytes
  pub nonce : ℕ
  pub tx_hash : Bytes
  pub original_sender : Bytes
  pub final_recipient : Bytes
  pub relayed : Bool
  pub has_broker : Bool
  pub sender_is_broker : Bool

-- `TransactionView{Index: index}`
abbrev pub empty_view : ℕ → TransactionView
empty_view index = record {
  index = index;
  sender = [];
  recipient = [];
  value = [];
  nonce = 0;
  tx_hash = [];
  original_sender = [];
  final_recipient = [];
  relayed = false;
  has_broker = false;
  sender_is_broker = false;
}

unfoldable pub encode_hash : Bytes → Bytes → Bytes
encode_hash primary fallback =
    if ltb 0 (length primary)
    then hex_encode primary
    else if ltb 0 (length fallback)
    then hex_encode fallback
    else []

unfoldable pub big_int_text : Option ℤ → Bytes
big_int_text none = []
big_int_text (some (pos n)) = itoa n
big_int_text (some (negsuc n)) = b'-' ∷ itoa (n + 1)

-- how many of `len` elements a limit lets through
abbrev pub limit_of : ℤ → ℕ → ℕ
limit_of (negsuc n) len = len
limit_of (pos n) len = if (n == 0) || ltb len n then len else n

-- the view of one transaction
abbrev pub view_lite : ℕ → Option LiteTx → TransactionView
view_lite i none = empty_view (i + 1)
view_lite i (some tx) = record {
  index = i + 1;
  sender = trim_space tx.sender;
  recipient = trim_space tx.recipient;
  value = big_int_text tx.value;
  nonce = tx.nonce;
  tx_hash = encode_hash tx.tx_hash tx.raw_tx_hash;
  original_sender = trim_space tx.original_sender;
  final_recipient = trim_space tx.final_recipient;
  relayed = tx.relayed;
  has_broker = tx.has_broker;
  sender_is_broker = tx.sender_is_broker;
}

abbrev pub view_core : ℕ → Transaction → TransactionView
view_core i tx = record {
  index = i + 1;
  sender = trim_space tx.sender;
  recipient = trim_space tx.recipient;
  value = big_int_text tx.value;
  nonce = tx.nonce;
  tx_hash = encode_hash tx.tx_hash tx.raw_tx_hash;
  original_sender = trim_space tx.original_sender;
  final_recipient = trim_space tx.final_recipient;
  relayed = tx.relayed;
  has_broker = tx.has_broker;
  sender_is_broker = tx.sender_is_broker;
}

-- the loop, from index `i`
unfoldable pub view_each {ℓ} :
    {A : Type ℓ} → (ℕ → A → TransactionView) → ℕ → List A → List TransactionView
view_each view i [] = []
view_each view i (tx ∷ txs) = view i tx ∷ view_each view (i + 1) txs

unfoldable pub build_transaction_views : List (Option LiteTx) → ℤ → List TransactionView
unfolding view_each
build_transaction_views body limit =
    view_each view_lite 0 (take (limit_of limit (length body)) body)

unfoldable pub build_transaction_views_from_core : List Transaction → ℤ → List TransactionView
unfolding view_each
build_transaction_views_from_core body limit =
    view_each view_core 0 (take (limit_of limit (length body)) body)

-- A hash that is not known has no transactions; the others are asked for by the block's height.
unfoldable pub query_block_transactions :
    (lib : Backend) → (Bytes → lib.Bolt) → ChainStore → ℤ → Bytes → Outcome (List TransactionView)
query_block_transactions lib disk s shard_id hash = elim (query_indexed s shard_id hash) [
  | none ↦ ret []
  | some block ↦ (do
    txs ← query_block_txs lib disk (uint64 shard_id) 0 block.height
    ret (build_transaction_views_from_core txs (pos 100)))
]
