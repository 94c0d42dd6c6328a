-- ===== src/Base/Space.antt =====
-- `strings.TrimSpace` of the Go library: the white space of Unicode, in UTF-8, around a string.
use sharded_blockchain_dashb.Base.{
  ℕ, zero, suc, Bool, ◌&&◌, ◌||◌, [], ◌∷◌, ◌++◌, ltb, leb, ◌==◌, if◌then◌else◌,
}
use sharded_blockchain_dashb.Base.Keyed.{Bytes}

-- the spaces of one byte
abbrev is_space : ℕ → Bool
is_space c = (leb 9 c && leb c 13) || (c == 32)

-- the spaces of two bytes: U+0085 and U+00A0
abbrev is_space2 : ℕ → ℕ → Bool
is_space2 a b = a == 194 && (b == 133 || b == 160)

-- those of three: U+1680, U+2000 to U+200A, U+2028, U+2029, U+202F, U+205F and U+3000
abbrev is_space3 : ℕ → ℕ → ℕ → Bool
is_space3 a b c =
    (a == 225 && b == 154 && c == 128)
    || (a == 226 && b == 128 && ((leb 128 c && leb c 138) || c == 168 || c == 169 || c == 175))
    || (a == 226 && b == 129 && c == 159)
    || (a == 227 && b == 128 && c == 128)

-- the bytes of the space that a string begins with, 0 where it begins with none
abbrev space_width : Bytes → ℕ
space_width [] = 0
space_width (a ∷ []) = if is_space a then 1 else 0
space_width (a ∷ b ∷ []) = if is_space a then 1 else if is_space2 a b then 2 else 0
space_width (a ∷ b ∷ c ∷ s) =
    if is_space a then 1 else if is_space2 a b then 2 else if is_space3 a b c then 3 else 0

-- the same of a string that is written from its last byte to its first
abbrev space_width_back : Bytes → ℕ
space_width_back [] = 0
space_width_back (a ∷ []) = if is_space a then 1 else 0
space_width_back (b ∷ a ∷ []) = if is_space b then 1 else if is_space2 a b then 2 else 0
space_width_back (c ∷ b ∷ a ∷ s) =
    if is_space c then 1 else if is_space2 b c then 2 else if is_space3 a b c then 3 else 0

-- `unicode.IsSpace` of the first rune
unfoldable pub begins_with_space : Bytes → Bool
begins_with_space s = ltb 0 (space_width s)

-- without the spaces at the front, and `skip` bytes of the first one
abbrev trim_by : (Bytes → ℕ) → ℕ → Bytes → Bytes
trim_by width skip [] = []
trim_by width (suc skip) (c ∷ s) = trim_by width skip s
trim_by width zero (c ∷ s) = elim (width (c ∷ s)) [ zero ↦ c ∷ s | suc skip ↦ trim_by width skip s ]

abbrev back : Bytes → Bytes
back [] = []
back (c ∷ s) = back s ++ c ∷ []

unfoldable pub trim_left : Bytes → Bytes
trim_left s = trim_by space_width 0 s

unfoldable pub trim_right : Bytes → Bytes
trim_right s = back (trim_by space_width_back 0 (back s))

abbrev pub trim_space : Bytes → Bytes
trim_space s = trim_right (trim_left s)
