-- ===== src/Codec.antt =====
-- The methods of core/account.go, core/transaction.go and core/block.go that encode and decode by gob
-- and hash by SHA-256. Each panics on an error.
use sharded_blockchain_dashb.Base.{ℕ, Option}
use sharded_blockchain_dashb.Base.Keyed.{Bytes}
use sharded_blockchain_dashb.Base.Int.{ℤ}
use sharded_blockchain_dashb.Base.Outcome.{Outcome, ret, deref, ◌>>=◌}
use sharded_blockchain_dashb.Core.{
  Address, AccountState, Transaction, bare_transaction, BlockHeader, Block,
}
use sharded_blockchain_dashb.Backend.{Backend}

module _ (lib : Backend) where
  abbrev pub encode_as : AccountState → Outcome lib.Blob
  encode_as s = deref (lib.encode_state s)

  abbrev pub decode_as : lib.Blob → Outcome AccountState
  decode_as b = deref (lib.decode_state b)

  abbrev pub hash_as : AccountState → Outcome Bytes
  hash_as s = do enc ← encode_as s; ret (lib.sha256 enc)

  abbrev pub encode_transaction : Transaction → Outcome lib.Blob
  encode_transaction tx = deref (lib.encode_tx tx)

  abbrev pub decode_transaction : lib.Blob → Outcome Transaction
  decode_transaction b = deref (lib.decode_tx b)

  -- the fields that `NewTransaction` sets behind the hash are empty already
  abbrev pub new_transaction : Address → Address → Option ℤ → ℕ → Outcome Transaction
  new_transaction sender recipient value nonce = do
    enc ← encode_transaction (bare_transaction sender recipient value nonce)
    ret (record (bare_transaction sender recipient value nonce) { tx_hash = lib.sha256 enc })

  abbrev pub encode_bh : BlockHeader → Outcome lib.Blob
  encode_bh h = deref (lib.encode_header h)

  abbrev pub decode_bh : lib.Blob → Outcome BlockHeader
  decode_bh b = deref (lib.decode_header b)

  abbrev pub encode_b : Block → Outcome lib.Blob
  encode_b b = deref (lib.encode_block b)

  abbrev pub decode_b : lib.Blob → Outcome Block
  decode_b b = deref (lib.decode_block b)
