-- ===== src/LevelDb/Bounds.antt =====
-- What a length in front of a string can do, whatever the bytes are.
use sharded_blockchain_dashb.Base.{
  ℕ, zero, suc, ◌+◌, ◌^◌, ◌<◌, ◌≤◌, ◌≡◌, some, Option-cases, Bool-cases, inl, inr, ◌-◌, tests, [],
  ◌∷◌, ltb, leb, if◌then◌else◌, length, take, drop, length-drop, All, arith,
}
use sharded_blockchain_dashb.Base.Keyed.{Bytes}
use sharded_blockchain_dashb.Base.Outcome.{ret, panic}
use sharded_blockchain_dashb.LevelDb.{
  uvarint, unexpected_eof, found, cut_string, end_of, read_var_string,
}
use sharded_blockchain_dashb.LevelDb.Strings.{cap, read_var_string_found}

abbrev pub AreBytes : Bytes → Type 0
AreBytes = All (λ b. b < 256)

AreBytes-drop : (n : ℕ) (file : Bytes) → AreBytes file → AreBytes (drop n file)
AreBytes-drop zero file h = h
AreBytes-drop (suc n) [] h = h
AreBytes-drop (suc n) (b ∷ file) h = AreBytes-drop n file h.1

cap_positive : (left : ℕ) → 0 < cap left
cap_positive zero = omega arith
cap_positive (suc left) = omega (arith, cap_positive left)

-- A varint stays within its cap and within the bytes.
uvarint-bounds :
    (left : ℕ) (file : Bytes) (n used : ℕ)
    → AreBytes file
    → uvarint left file ≡ some (n, used)
    → (n < cap left) × (used ≤ length file)
unfolding uvarint
uvarint-bounds left [] n used b h = cc
uvarint-bounds zero (x ∷ file) n used b h = ground arith
uvarint-bounds (suc left) (x ∷ file) n used b h = elim (Option-cases (uvarint left file)) [
  | inl missing ↦ ground (arith, cap_positive left)
  | inr ((v, u), more) ↦
      (let (v_small, u_small) = uvarint-bounds left file v u b.1 more in
        ground (arith, cap_positive left))
]

cut_string-bounds :
    (file : Bytes) (pos n : ℕ)
    → pos ≤ length file
    → length file < 2 ^ 63
    → n < 2 ^ 64
    → cut_string file pos (end_of pos n) ≡ (
        if leb (pos + n) (length file)
        then ret (found (take n (drop pos file)) (pos + n))
        else if ltb (pos + n) (2 ^ 63)
        then ret unexpected_eof
        else panic)
unfolding cut_string
cut_string-bounds file pos n p l h = elim (Bool-cases (leb (pos + n) (length file))) [
  | inl fits ↦
      (let e : end_of pos n ≡ pos + n = omega tests in
        let d : pos + n - pos ≡ n = omega arith in rw (e, d) (ground arith))
  | inr beyond ↦ ground arith
]

-- `readVarString` on bytes below 2 ^ 63 in number, after a varint `n` of `used` bytes: the string of
-- `n` bytes when the file holds it, `io.ErrUnexpectedEOF` when the file ends before it, but a panic
-- when the end it asks for does not fit in a signed integer of 64 bits.
pub read_var_string_lem :
    (file : Bytes) (pos n used : ℕ)
    → AreBytes file
    → pos ≤ length file
    → length file < 2 ^ 63
    → uvarint 9 (drop pos file) ≡ some (n, used)
    → read_var_string file pos ≡ (
        if leb (pos + used + n) (length file)
        then ret (found (take n (drop (pos + used) file)) (pos + used + n))
        else if ltb (pos + used + n) (2 ^ 63)
        then ret unexpected_eof
        else panic)
read_var_string_lem file pos n used b p l h =
    let (n_small, used_small) =
      uvarint-bounds 9 (drop pos file) n used (AreBytes-drop pos file b) h in
    rw (read_var_string_found file pos n used h)
      (cut_string-bounds file (pos + used) n (omega (arith, length-drop pos file, p)) l n_small)
