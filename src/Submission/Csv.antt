-- ===== src/Submission/Csv.antt =====
-- `encoding/csv` of the Go library, as far as main.go uses it: `Writer.Write`, and the first record
-- that `Reader.Read` gives, both with their default settings.
pub mod Records
pub mod Whole
use sharded_blockchain_dashb.Base.{
  ℕ, Bool, true, false, ◌&&◌, ◌||◌, Option, none, some, List, [], ◌∷◌, ◌++◌, ◌==◌, if◌then◌else◌,
}
use sharded_blockchain_dashb.Base.Keyed.{Bytes, bytes_eq}
use sharded_blockchain_dashb.Base.Text.{codes}
use sharded_blockchain_dashb.Base.Space.{begins_with_space}

abbrev pub comma : ℕ
comma = 44

abbrev pub quote : ℕ
quote = 34

abbrev pub newline : ℕ
newline = 10

abbrev pub return_char : ℕ
return_char = 13

abbrev pub is_special : ℕ → Bool
is_special c = c == newline || c == return_char || c == quote || c == comma

abbrev pub has_special : Bytes → Bool
has_special [] = false
has_special (c ∷ cs) = is_special c || has_special cs

-- `fieldNeedsQuotes`
unfoldable pub needs_quotes : Bytes → Bool
needs_quotes [] = false
needs_quotes (c ∷ cs) =
    bytes_eq (c ∷ cs) (codes "\\.") || has_special (c ∷ cs) || begins_with_space (c ∷ cs)

abbrev pub doubled : Bytes → Bytes
doubled [] = []
doubled (c ∷ cs) = if c == quote then quote ∷ quote ∷ doubled cs else c ∷ doubled cs

unfoldable pub write_field : Bytes → Bytes
write_field field = if needs_quotes field then quote ∷ (doubled field ++ quote ∷ []) else field

unfoldable pub write_record : List Bytes → Bytes
write_record [] = newline ∷ []
write_record (f ∷ []) = write_field f ++ newline ∷ []
write_record (f ∷ g ∷ fs) = write_field f ++ comma ∷ write_record (g ∷ fs)

-- the reader turns a return before a newline into the newline, and drops one at the end
unfoldable pub normalize : Bytes → Bytes
normalize [] = []
normalize (c ∷ []) = if c == return_char then [] else c ∷ []
normalize (c ∷ d ∷ s) =
    let rest = normalize (d ∷ s) in if c == return_char && d == newline then rest else c ∷ rest

-- where the reader stands in a field
pub data Place : Type 0 where
  field_start in_plain in_quotes after_quote : Place

-- what the reader does with a byte, with `field` read so far
pub data Move : Type 0 where
  end_field end_record refuse : Move
  go : Place → Bytes → Move

unfoldable pub move : Place → Bytes → ℕ → Move
move field_start field c =
    if c == quote
    then go in_quotes []
    else if c == comma
    then end_field
    else if c == newline
    then end_record
    else go in_plain (field ++ c ∷ [])
move in_plain field c =
    if c == quote
    then refuse
    else if c == comma
    then end_field
    else if c == newline
    then end_record
    else go in_plain (field ++ c ∷ [])
move in_quotes field c = if c == quote then go after_quote field else go in_quotes (field ++ c ∷ [])
move after_quote field c =
    if c == quote
    then go in_quotes (field ++ c ∷ [])
    else if c == comma
    then end_field
    else if c == newline
    then end_record
    else refuse

abbrev pub with_field : Bytes → Option (List Bytes × Bytes) → Option (List Bytes × Bytes)
with_field field none = none
with_field field (some (fields, rest)) = some (field ∷ fields, rest)

-- the fields of a record and what comes behind it; `none` is an error
unfoldable pub read_fields : Place → Bytes → Bytes → Option (List Bytes × Bytes)
read_fields in_quotes field [] = none
read_fields place field [] = some (field ∷ [], [])
read_fields place field (c ∷ s) = elim (move place field c) [
  | end_field ↦ with_field field (read_fields field_start [] s)
  | end_record ↦ some (field ∷ [], s)
  | refuse ↦ none
  | go place' field' ↦ read_fields place' field' s
]

-- empty lines are passed over; the end of the file is an error
unfoldable pub read_record : Bytes → Option (List Bytes × Bytes)
unfolding read_fields move
read_record [] = none
read_record (c ∷ s) =
    let rest = read_record s in if c == newline then rest else read_fields field_start [] (c ∷ s)

abbrev pub fields_of : Option (List Bytes × Bytes) → Option (List Bytes)
fields_of none = none
fields_of (some (fields, rest)) = some fields

-- no line but empty ones, so that the reader finds the end of the file
abbrev pub only_newlines : Bytes → Bool
only_newlines [] = true
only_newlines (c ∷ s) = (c == newline) && only_newlines s

-- the first record of a file
unfoldable pub read_first : Bytes → Option (List Bytes)
unfolding normalize read_record
read_first file = fields_of (read_record (normalize file))
