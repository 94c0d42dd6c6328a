-- ===== src/Address/Virtual.antt =====
-- Virtual accounts: `AddrVirtualAccount`, `RestoreAccount` and `RestoreAccountShard`.
use sharded_blockchain_dashb.Base.{
  ℕ, zero, suc, ◌<◌, ◌≤◌, ◌≡◌, refl, ap, List, [], ◌∷◌, ◌++◌, length, take, take-append,
  length-append, arith, get_elem?, none,
}
use sharded_blockchain_dashb.Base.Outcome.{ret, panic}
use sharded_blockchain_dashb.Base.Text.{itoa, itoa_digit}
use sharded_blockchain_dashb.Core.{Address}
use sharded_blockchain_dashb.Address.{addr_virtual_account, restore_account, restore_account_shard}

-- `RestoreAccount` gives back the address of a virtual account, for an address of forty bytes.
pub restore_account-addr_virtual_account :
    (addr : Address) (shard_id : ℕ)
    → length addr ≡ 40
    → restore_account (addr_virtual_account addr shard_id) ≡ ret addr
unfolding restore_account addr_virtual_account
restore_account-addr_virtual_account addr shard_id h =
    let cut : take 40 (addr ++ itoa shard_id) ≡ addr = rw h at (take-append addr (itoa shard_id)) in
    ground (arith, cut, length-append addr (itoa shard_id))

get_elem?-past {ℓ} : {A : Type ℓ} (xs : List A) (i : ℕ) → length xs ≤ i → get_elem? xs i ≡ none
get_elem?-past [] i h = refl
get_elem?-past (x ∷ xs) zero h = absurd (omega arith)
get_elem?-past (x ∷ xs) (suc i) h = get_elem?-past xs i (omega arith)

-- `RestoreAccountShard` panics on the virtual account of every address of forty bytes and shard below
-- ten: the name has forty-one bytes, and the code reads the byte behind the shard's digit.
pub restore_account_shard-addr_virtual_account :
    (addr : Address) (shard_id : ℕ)
    → length addr ≡ 40
    → shard_id < 10
    → restore_account_shard (addr_virtual_account addr shard_id) ≡ panic
unfolding restore_account_shard addr_virtual_account
restore_account_shard-addr_virtual_account addr shard_id h small =
    let long : length (addr ++ itoa shard_id) ≡ 41 =
      omega (arith, length-append addr (itoa shard_id), ap length (itoa_digit shard_id small)) in
    ground (arith, get_elem?-past (addr ++ itoa shard_id) 41)

append_cancel {ℓ} :
    {A : Type ℓ} (xs ys us vs : List A)
    → length xs ≡ length ys
    → xs ++ us ≡ ys ++ vs
    → (xs ≡ ys) × (us ≡ vs)
append_cancel [] [] us vs n e = (refl, e)
append_cancel [] (y ∷ ys) us vs n e = absurd (omega arith)
append_cancel (x ∷ xs) [] us vs n e = absurd (omega arith)
append_cancel (x ∷ xs) (y ∷ ys) us vs n e = ground (arith, append_cancel xs ys us vs)

-- Addresses of one length have different virtual accounts, and so have different shards below ten.
pub addr_virtual_account-injective :
    (a b : Address) (s t : ℕ)
    → length a ≡ length b
    → s < 10
    → t < 10
    → addr_virtual_account a s ≡ addr_virtual_account b t
    → (a ≡ b) × (s ≡ t)
unfolding addr_virtual_account
addr_virtual_account-injective a b s t n hs ht e =
    let (same, digits) = append_cancel a b (itoa s) (itoa t) n e in
    (same, ground (arith, itoa_digit s hs, itoa_digit t ht))
