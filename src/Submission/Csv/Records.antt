-- ===== src/Submission/Csv/Records.antt =====
-- A record that was written is read back.
use mathlib.Core.List.{append_assoc, append-nil}
use sharded_blockchain_dashb.Base.{
  ℕ, ◌≡◌, refl, ap, ◌∙◌, Bool, true, false, Option, some, List, [], ◌∷◌, ◌++◌, inl, inr, Bool-cases,
  ◌==◌, arith,
}
use sharded_blockchain_dashb.Base.Keyed.{Bytes}
use sharded_blockchain_dashb.Submission.Csv.{
  comma, quote, newline, has_special, needs_quotes, doubled, write_field, write_record, field_start,
  in_plain, in_quotes, move, with_field, read_fields,
}

-- what ends a field: a comma, or the newline of the record
abbrev stop : Bool → ℕ
stop true = comma
stop false = newline

abbrev stopped : Bool → Bytes → Bytes → Option (List Bytes × Bytes)
stopped true field s = with_field field (read_fields field_start [] s)
stopped false field s = some (field ∷ [], s)

read_plain :
    (b : Bool) (field f s : Bytes)
    → has_special f ≡ false
    → read_fields in_plain field (f ++ stop b ∷ s) ≡ stopped b (field ++ f) s
unfolding read_fields move
read_plain true field [] s h = rw (append-nil field) refl
read_plain false field [] s h = rw (append-nil field) refl
read_plain b field (c ∷ f) s h =
    let rest : has_special f ≡ false = ground (arith, h) in
    let not_quote : (c == quote) ≡ false = ground (arith, h) in
    let not_comma : (c == comma) ≡ false = ground (arith, h) in
    let not_newline : (c == newline) ≡ false = ground (arith, h) in
    rw (read_fields, move, not_quote, not_comma, not_newline)
      (read_plain b (field ++ c ∷ []) f s rest
        ∙ ap (λ x. stopped b x s) (append_assoc field (c ∷ []) f))

read_quoted :
    (b : Bool) (field f s : Bytes)
    → read_fields in_quotes field (doubled f ++ quote ∷ stop b ∷ s) ≡ stopped b (field ++ f) s
unfolding read_fields move
read_quoted true field [] s = rw (append-nil field) refl
read_quoted false field [] s = rw (append-nil field) refl
read_quoted b field (c ∷ f) s = elim (Bool-cases (c == quote)) [
  | inl same ↦
      let e : c ≡ quote = ground (arith, same) in
      rw e (
        read_quoted b (field ++ quote ∷ []) f s
        ∙ ap (λ x. stopped b x s) (append_assoc field (quote ∷ []) f))
  | inr other ↦
      rw (doubled, other, read_fields, move, other)
        (read_quoted b (field ++ c ∷ []) f s
          ∙ ap (λ x. stopped b x s) (append_assoc field (c ∷ []) f))
]

read_written :
    (b : Bool) (f s : Bytes)
    → read_fields field_start [] (write_field f ++ stop b ∷ s) ≡ stopped b f s
unfolding read_fields move write_field needs_quotes
read_written true [] s = refl
read_written false [] s = refl
read_written b (c ∷ f) s = elim (Bool-cases (needs_quotes (c ∷ f))) [
  | inl quoted ↦
      rw (quoted, append_assoc (doubled (c ∷ f)) (quote ∷ []) (stop b ∷ s))
        (read_quoted b [] (c ∷ f) s)
  | inr plain ↦
      let ordinary : has_special (c ∷ f) ≡ false = ground (arith, plain) in
      let rest : has_special f ≡ false = ground (arith, ordinary) in
      let not_quote : (c == quote) ≡ false = ground (arith, ordinary) in
      let not_comma : (c == comma) ≡ false = ground (arith, ordinary) in
      let not_newline : (c == newline) ≡ false = ground (arith, ordinary) in
      rw (plain, read_fields, move, not_quote, not_comma, not_newline)
        (read_plain b (c ∷ []) f s rest)
]

-- The fields of a record are read back, and nothing more.
pub read_fields-write_record :
    (f : Bytes) (fs : List Bytes) (s : Bytes)
    → read_fields field_start [] (write_record (f ∷ fs) ++ s) ≡ some (f ∷ fs, s)
unfolding write_record
read_fields-write_record f [] s =
    rw (append_assoc (write_field f) (newline ∷ []) s) (read_written false f s)
read_fields-write_record f (g ∷ fs) s =
    rw (append_assoc (write_field f) (comma ∷ write_record (g ∷ fs)) s) (
      read_written true f (write_record (g ∷ fs) ++ s)
      ∙ ap (with_field f) (read_fields-write_record g fs s))
