-- ===== src/Rig/Csv.antt =====
-- The quoted fields of the table: `csv_text` of Tools/er_inventory_export.c.
use r_compatible_driver_v.Base.{
  ℕ, ◌≡◌, ◌≢◌, refl, ap, ◌∙◌, arith, Bytes, [], ◌∷◌, ◌++◌, ◌==◌, ==_false, if◌then◌else◌,
  Bool-cases, true, false, inl, inr, append_assoc,
}

-- A quote in the text is doubled.
unfoldable pub escaped : Bytes → Bytes
escaped [] = []
escaped (c ∷ text) = let rest = escaped text in if c == b'"' then b'"' ∷ c ∷ rest else c ∷ rest

unfoldable pub csv_text : Bytes → Bytes
csv_text text = b'"' ∷ (escaped text ++ b'"' ∷ [])

-- What a reader of the table takes for a quoted field, and what is behind it.
abbrev pub push : ℕ → Bytes × Bytes → Bytes × Bytes
push c (field, rest) = (c ∷ field, rest)

pub read_field : Bytes → Bytes × Bytes
read_field [] = ([], [])
read_field (c ∷ []) = (if c == b'"' then [] else c ∷ [], [])
read_field (c ∷ d ∷ text) =
    let doubled = push d (read_field text) in
    let plain = push c (read_field (d ∷ text)) in
    if c == b'"' then (if d == b'"' then doubled else ([], d ∷ text)) else plain

abbrev pub StartsNoQuote : Bytes → Type 0
StartsNoQuote [] = Unit
StartsNoQuote (c ∷ text) = c ≢ b'"'

true_to : {a b : ℕ} → (a == b) ≡ true → a ≡ b
true_to {a} {b} h = ground arith

false_to : {a b : ℕ} → (a == b) ≡ false → a ≢ b
false_to {a} {b} h = ground arith

read_field-end : (rest : Bytes) → StartsNoQuote rest → read_field (b'"' ∷ rest) ≡ ([], rest)
unfolding read_field
read_field-end [] h = refl
read_field-end (c ∷ rest) h = rw (==_false c b'"' h) refl

read_field-doubled : (text : Bytes) → read_field (b'"' ∷ b'"' ∷ text) ≡ push b'"' (read_field text)
unfolding read_field
read_field-doubled text = refl

read_field-plain :
    (c : ℕ) (text rest : Bytes)
    → c ≢ b'"'
    → read_field (c ∷ (text ++ b'"' ∷ rest)) ≡ push c (read_field (text ++ b'"' ∷ rest))
unfolding read_field
read_field-plain c [] rest h = rw (==_false c b'"' h) refl
read_field-plain c (d ∷ text) rest h = rw (==_false c b'"' h) refl

read_field-escaped :
    (text rest : Bytes)
    → StartsNoQuote rest
    → read_field (escaped text ++ b'"' ∷ rest) ≡ (text, rest)
unfolding escaped
read_field-escaped [] rest h = read_field-end rest h
read_field-escaped (c ∷ text) rest h = elim (Bool-cases (c == b'"')) [
  | inl e ↦
      rw (e, true_to e)
        (read_field-doubled (escaped text ++ b'"' ∷ rest)
          ∙ ap (push b'"') (read_field-escaped text rest h))
  | inr e ↦ rw e (
      read_field-plain c (escaped text) rest (false_to e)
      ∙ ap (push c) (read_field-escaped text rest h))
]

abbrev pub read_text : Bytes → Bytes × Bytes
read_text [] = ([], [])
read_text (q ∷ text) = let field = read_field text in if q == b'"' then field else ([], q ∷ text)

-- Whatever the text holds, quotes and commas too, a reader finds exactly it in the field that
-- `csv_text` writes, and goes on behind the field's end, if what follows does not start with a quote.
pub read_text-csv_text :
    (text rest : Bytes) → StartsNoQuote rest → read_text (csv_text text ++ rest) ≡ (text, rest)
unfolding csv_text
read_text-csv_text text rest h =
    ap read_field (append_assoc (escaped text) (b'"' ∷ []) rest) ∙ read_field-escaped text rest h
