-- ===== src/Base/Text.antt =====
-- Text literals as bytes, decimal numerals, and hexadecimal digits.
use Prim.Native.Nat.{◌-◌, ◌*◌, ◌^◌}
use mathlib.Core.Option.{Option, none, some}
use mathlib.Core.Bool.{◌&&◌}
use sharded_blockchain_dashb.Base.Tests.{leb}
use Prim.Native.Nat.{ℕ, zero, suc, ◌+◌, ◌/◌, ◌%◌, ◌<◌}
use Prim.Native.Char.{code}
use Prim.Native.String.{String}
use mathlib.Core.Path.{◌≡◌}
use mathlib.Core.List.{[], ◌∷◌}
use native.Mathlib.Omega.{arith}
use sharded_blockchain_dashb.Base.Tests.{ltb, if◌then◌else◌}
use sharded_blockchain_dashb.Base.Keyed.{Bytes}

-- The bytes of an ASCII literal.
abbrev pub codes : String → Bytes
codes String.[] = []
codes (String.◌∷◌ c s) = code c ∷ codes s

-- decimal digits of `n`, most significant first, in front of `acc`; `n + 1` rounds are enough
unfoldable pub decimal_onto : ℕ → ℕ → Bytes → Bytes
decimal_onto zero n acc = acc
decimal_onto (suc fuel) n acc =
    let acc' = (48 + n % 10) ∷ acc in
    let more = decimal_onto fuel (n / 10) acc' in if ltb n 10 then acc' else more

-- `strconv.Itoa` and `strconv.FormatUint(_, 10)`
unfoldable pub itoa : ℕ → Bytes
unfolding decimal_onto
itoa n = decimal_onto (suc n) n []

-- A numeral below ten is one digit.
pub itoa_digit : (n : ℕ) → n < 10 → itoa n ≡ (48 + n) ∷ []
unfolding itoa
itoa_digit n h = ground arith

-- the value of a digit of base sixteen, in either case
abbrev pub hex_digit : ℕ → Option ℕ
hex_digit c =
    if leb b'0' c && leb c b'9'
    then some (c - b'0')
    else if leb b'a' c && leb c b'f'
    then some (c - b'a' + 10)
    else if leb b'A' c && leb c b'F'
    then some (c - b'A' + 10)
    else none

unfoldable pub hex_fold : ℕ → Bytes → Option ℕ
hex_fold n [] = some n
hex_fold n (c ∷ cs) = elim (hex_digit c) [ none ↦ none | some d ↦ hex_fold (n * 16 + d) cs ]

-- `strconv.ParseUint(s, 16, 64)`; `none` is an error
unfoldable pub parse_hex : Bytes → Option ℕ
unfolding hex_fold
parse_hex [] = none
parse_hex (c ∷ cs) = elim (hex_fold 0 (c ∷ cs)) [
  | none ↦ none
  | some n ↦ if ltb n (2 ^ 64) then some n else none
]

-- `hex.EncodeToString`, in lower case
abbrev pub hex_char : ℕ → ℕ
hex_char d = if ltb d 10 then b'0' + d else b'a' + (d - 10)

unfoldable pub hex_encode : Bytes → Bytes
hex_encode [] = []
hex_encode (b ∷ bs) = hex_char (b / 16) ∷ hex_char (b % 16) ∷ hex_encode bs
