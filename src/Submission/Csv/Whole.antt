-- ===== src/Submission/Csv/Whole.antt =====
-- A file of records that were written, none of which has a return, is read back record by record.
use mathlib.Core.List.{append_assoc}
use sharded_blockchain_dashb.Base.{
  ◌≡◌, refl, ap, ◌∙◌, Bool, true, false, ◌&&◌, not, some, List, [], ◌∷◌, ◌++◌, inl, inr, Bool-cases,
  All, ◌==◌, arith,
}
use sharded_blockchain_dashb.Base.Keyed.{Bytes}
use sharded_blockchain_dashb.Submission.Csv.{
  comma, quote, newline, return_char, needs_quotes, doubled, write_field, write_record, normalize,
  field_start, read_fields, read_record, fields_of, read_first,
}
use sharded_blockchain_dashb.Submission.Csv.Records.{read_fields-write_record}

abbrev pub no_return : Bytes → Bool
no_return [] = true
no_return (c ∷ cs) = not (c == return_char) && no_return cs

abbrev pub NoReturn : Bytes → Type 0
NoReturn s = no_return s ≡ true

abbrev pub each_no_return : List Bytes → Bool
each_no_return [] = true
each_no_return (f ∷ fs) = no_return f && each_no_return fs

pub each_no_return-All : (fs : List Bytes) → each_no_return fs ≡ true → All NoReturn fs
each_no_return-All [] h = tt
each_no_return-All (f ∷ fs) h = (ground (arith, h), each_no_return-All fs (ground (arith, h)))

pub NoReturn-append : (s t : Bytes) → NoReturn s → NoReturn t → NoReturn (s ++ t)
NoReturn-append [] t hs ht = ht
NoReturn-append (c ∷ s) t hs ht = ground (arith, hs, NoReturn-append s t, ht)

doubled-NoReturn : (s : Bytes) → NoReturn s → NoReturn (doubled s)
doubled-NoReturn [] h = refl
doubled-NoReturn (c ∷ s) h = ground (arith, h, doubled-NoReturn s)

write_field-NoReturn : (s : Bytes) → NoReturn s → NoReturn (write_field s)
unfolding write_field
write_field-NoReturn s h = elim (Bool-cases (needs_quotes s)) [
  | inl quoted ↦ rw quoted (NoReturn-append (doubled s) (quote ∷ []) (doubled-NoReturn s h) refl)
  | inr plain ↦ rw plain h
]

write_record-NoReturn : (fs : List Bytes) → All NoReturn fs → NoReturn (write_record fs)
unfolding write_record
write_record-NoReturn [] hs = refl
write_record-NoReturn (f ∷ []) (h, hs) =
    NoReturn-append (write_field f) (newline ∷ []) (write_field-NoReturn f h) refl
write_record-NoReturn (f ∷ g ∷ fs) (h, hs) =
    NoReturn-append (write_field f) (comma ∷ write_record (g ∷ fs)) (write_field-NoReturn f h)
      (write_record-NoReturn (g ∷ fs) hs)

normalize-append : (s t : Bytes) → NoReturn s → normalize (s ++ t) ≡ s ++ normalize t
unfolding normalize
normalize-append [] t h = refl
normalize-append (c ∷ []) [] h =
    let other : (c == return_char) ≡ false = ground (arith, h) in rw other refl
normalize-append (c ∷ []) (d ∷ t) h =
    let other : (c == return_char) ≡ false = ground (arith, h) in rw other refl
normalize-append (c ∷ d ∷ s) t h =
    let other : (c == return_char) ≡ false = ground (arith, h) in
    let rest : NoReturn (d ∷ s) = ground (arith, h) in
    rw other (ap (◌∷◌ c) (normalize-append (d ∷ s) t rest))

-- a record of two fields does not begin with a newline
read_record_start :
    (f s : Bytes)
    → read_record (write_field f ++ comma ∷ s)
      ≡ read_fields field_start [] (write_field f ++ comma ∷ s)
unfolding read_record write_field needs_quotes
read_record_start [] s = refl
read_record_start (c ∷ f) s = elim (Bool-cases (needs_quotes (c ∷ f))) [
  | inl quoted ↦ rw quoted refl
  | inr plain ↦ let other : (c == newline) ≡ false = ground (arith, plain) in rw (plain, other) refl
]

read_record-write_record_start :
    (f g : Bytes) (fs : List Bytes) (s : Bytes)
    → read_record (write_record (f ∷ g ∷ fs) ++ s)
      ≡ read_fields field_start [] (write_record (f ∷ g ∷ fs) ++ s)
unfolding write_record
read_record-write_record_start f g fs s =
    rw (append_assoc (write_field f) (comma ∷ write_record (g ∷ fs)) s)
      (read_record_start f (write_record (g ∷ fs) ++ s))

-- A written record of two fields or more, none of which has a return, is the first record that is
-- read, and the reader stands behind it.
pub read_record-write_record :
    (f g : Bytes) (fs : List Bytes) (s : Bytes)
    → All NoReturn (f ∷ g ∷ fs)
    → read_record (normalize (write_record (f ∷ g ∷ fs) ++ s)) ≡ some (f ∷ g ∷ fs, normalize s)
read_record-write_record f g fs s hs =
    let written = f ∷ g ∷ fs in
    ap read_record (normalize-append (write_record written) s (write_record-NoReturn written hs))
    ∙ (read_record-write_record_start f g fs (normalize s)
        ∙ read_fields-write_record f (g ∷ fs) (normalize s))

pub read_first-write_record :
    (f g : Bytes) (fs : List Bytes) (s : Bytes)
    → All NoReturn (f ∷ g ∷ fs)
    → read_first (write_record (f ∷ g ∷ fs) ++ s) ≡ some (f ∷ g ∷ fs)
unfolding read_first
read_first-write_record f g fs s hs = ap fields_of (read_record-write_record f g fs s hs)
