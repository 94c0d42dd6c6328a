-- ===== src/Address/Shard.antt =====
-- `Addr2Shard` places every address with a hexadecimal suffix on a shard that exists.
use sharded_blockchain_dashb.Base.{
  ℕ, zero, suc, ◌+◌, ◌-◌, ◌*◌, ◌%◌, ◌≤◌, ◌<◌, ◌≡◌, refl, none, some, [], ◌∷◌, ◌++◌, length, drop,
  All, arith, length-drop, drop-append, length-append, ap,
}
use mathlib.Core.Path.{subst}
use sharded_blockchain_dashb.Base.Outcome.{ret}
use sharded_blockchain_dashb.Base.Keyed.{Bytes}
use sharded_blockchain_dashb.Base.Text.{hex_digit, hex_fold, parse_hex}
use sharded_blockchain_dashb.Core.{Address}
use sharded_blockchain_dashb.Address.{last8, addr2shard}

abbrev pub IsHex : ℕ → Type 0
IsHex c = (d : ℕ) × (hex_digit c ≡ some d)

-- the value of hexadecimal digits, most significant first
abbrev pub hex_value : ℕ → Bytes → ℕ
hex_value n [] = n
hex_value n (c ∷ cs) = hex_value (n * 16 + elim (hex_digit c) [ none ↦ 0 | some d ↦ d ]) cs

hex_digit-lt : (c : ℕ) {d : ℕ} → hex_digit c ≡ some d → d < 16
hex_digit-lt c h = ground arith

hex_fold_lem : (n : ℕ) (s : Bytes) → All IsHex s → hex_fold n s ≡ some (hex_value n s)
unfolding hex_fold
hex_fold_lem n [] h = refl
hex_fold_lem n (c ∷ cs) ((d, e), h) = ground (arith, hex_fold_lem (n * 16 + d) cs h)

abbrev pow16 : ℕ → ℕ
pow16 zero = 1
pow16 (suc k) = 16 * pow16 k

-- one round multiplies the bound by sixteen
bound_step : (n d p : ℕ) → d < 16 → (n * 16 + d + 1) * p ≤ (n + 1) * (16 * p)
bound_step n d p h = let k : n * 16 + d + 1 ≤ (n + 1) * 16 = omega arith in grind arith

hex_value-lt : (n : ℕ) (s : Bytes) → All IsHex s → hex_value n s < (n + 1) * pow16 (length s)
hex_value-lt n [] a = omega arith
hex_value-lt n (c ∷ cs) ((d, e), a) =
    rw (e, hex_value)
      (omega (
        arith,
        hex_value-lt (n * 16 + d) cs a,
        bound_step n d (pow16 (length cs)) (hex_digit-lt c e),
      ))

-- the suffix that `Addr2Shard` reads
abbrev pub suffix : Address → Bytes
suffix addr = drop (length addr - 8) addr

parse_hex-suffix : (s : Bytes) → All IsHex s → length s ≡ 8 → parse_hex s ≡ some (hex_value 0 s)
unfolding parse_hex
parse_hex-suffix [] a h = absurd (omega arith)
parse_hex-suffix (c ∷ cs) a h =
    let small : hex_value 0 (c ∷ cs) < 1 * pow16 8 =
      subst (λ k. hex_value 0 (c ∷ cs) < 1 * pow16 k) h (hex_value-lt 0 (c ∷ cs) a) in
    ground (arith, hex_fold_lem 0 (c ∷ cs) a)

-- An address of at least eight bytes, the last eight of them hexadecimal, is placed on the shard that
-- is their value modulo the number of shards, and that shard exists.
pub addr2shard_lem :
    (shard_num : ℕ) (addr : Address)
    → 0 < shard_num
    → 8 ≤ length addr
    → All IsHex (suffix addr)
    → (s : ℕ) × (addr2shard shard_num addr ≡ ret s)
      × (s ≡ hex_value 0 (suffix addr) % shard_num)
      × (s < shard_num)
unfolding addr2shard
addr2shard_lem shard_num addr some_shard long a = (
  hex_value 0 (suffix addr) % shard_num,
  ground (arith, parse_hex-suffix (suffix addr) a, length-drop (length addr - 8) addr),
  refl,
  omega arith,
)

-- A call that returns names a shard that exists.
pub addr2shard-lt :
    (shard_num : ℕ) (addr : Address) {s : ℕ} → addr2shard shard_num addr ≡ ret s → s < shard_num
unfolding addr2shard
addr2shard-lt shard_num addr h = ground arith

last8-append : (a last : Address) → length last ≡ 8 → last8 (a ++ last) ≡ ret last
unfolding last8
last8-append a last h =
    let cut : length (a ++ last) - 8 ≡ length a = omega (arith, length-append a last) in
    ground (arith, cut, length-append a last, ap (λ k. drop k (a ++ last)) cut, drop-append a last)

-- Addresses with the same last eight bytes are placed together, whatever stands before.
pub addr2shard-append :
    (shard_num : ℕ) (a b last : Address)
    → length last ≡ 8
    → addr2shard shard_num (a ++ last) ≡ addr2shard shard_num (b ++ last)
unfolding addr2shard
addr2shard-append shard_num a b last h = rw (last8-append a last h, last8-append b last h)
