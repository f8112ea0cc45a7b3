-- ===== src/Rig/Export/Titles.antt =====
-- The name of a rig: how the device stores it, and that `extract_name` of Tools/er_inventory_export.c
-- reads it back.
use r_compatible_driver_v.Base.{
  ℕ, zero, suc, ◌+◌, ◌*◌, ◌≤◌, ◌≡◌, refl, sym, ap, ◌∙◌, arith, Bytes, [], ◌∷◌, ◌++◌, append_assoc,
  length, length-append, length-drop, le→ltb-false, get_or, get_or-behind, drop, All,
}
use r_compatible_driver_v.Rig.Export.{printable, name_from, extract_name}

-- Each word holds four characters, the first one in its last byte; behind the name are zeros.
unfoldable pub stored_words : ℕ → Bytes → Bytes
stored_words zero t = []
stored_words (suc w) t =
    get_or t 3 0 ∷ get_or t 2 0 ∷ get_or t 1 0 ∷ get_or t 0 0 ∷ stored_words w (drop 4 t)

pub length-stored_words : (w : ℕ) (t : Bytes) → length (stored_words w t) ≡ 4 * w
unfolding stored_words
length-stored_words zero t = omega arith
length-stored_words (suc w) t = omega (arith, length-stored_words w (drop 4 t))

abbrev pub Prints : ℕ → Type 0
Prints b = (0x20 ≤ b) × (b ≤ 0x7e)

-- A name of 28 characters at most
abbrev pub IsName : Bytes → Type 0
IsName t = (length t ≤ 28) × All Prints t

prints : (b : ℕ) (bs rest : Bytes) → Prints b → printable (b ∷ bs) rest ≡ b ∷ printable bs rest
unfolding printable
prints b bs rest h = ground arith

prints_none : (bs rest : Bytes) → printable (0 ∷ bs) rest ≡ []
unfolding printable
prints_none bs rest = refl

prints_all : (rest : Bytes) → printable [] rest ≡ rest
unfolding printable
prints_all rest = refl

-- The characters of a word, and behind them those of the next
word_text :
    (t rest : Bytes)
    → All Prints t
    → rest ≡ drop 4 t
    → printable (get_or t 0 0 ∷ get_or t 1 0 ∷ get_or t 2 0 ∷ get_or t 3 0 ∷ []) rest ≡ t
word_text [] rest h e = prints_none _ _
word_text (a ∷ []) rest (ha, h) e = prints _ _ _ ha ∙ ap (◌∷◌ a) (prints_none _ _)
word_text (a ∷ b ∷ []) rest (ha, (hb, h)) e =
    prints _ _ _ ha ∙ ap (◌∷◌ a) (prints _ _ _ hb ∙ ap (◌∷◌ b) (prints_none _ _))
word_text (a ∷ b ∷ c ∷ []) rest (ha, (hb, (hc, h))) e =
    prints _ _ _ ha
    ∙ ap (◌∷◌ a) (prints _ _ _ hb ∙ ap (◌∷◌ b) (prints _ _ _ hc ∙ ap (◌∷◌ c) (prints_none _ _)))
word_text (a ∷ b ∷ c ∷ d ∷ t) rest (ha, (hb, (hc, (hd, h)))) e =
    prints _ _ _ ha
    ∙ ap (◌∷◌ a) (
        prints _ _ _ hb
        ∙ ap (◌∷◌ b)
            (prints _ _ _ hc ∙ ap (◌∷◌ c) (prints _ _ _ hd ∙ ap (◌∷◌ d) (prints_all rest ∙ e))))

All-drop : (t : Bytes) → All Prints t → All Prints (drop 4 t)
All-drop [] h = tt
All-drop (a ∷ []) h = tt
All-drop (a ∷ b ∷ []) h = tt
All-drop (a ∷ b ∷ c ∷ []) h = tt
All-drop (a ∷ b ∷ c ∷ d ∷ t) h = h.1.1.1.1

length-drop_4 : (w : ℕ) (t : Bytes) → length t ≤ 4 * suc w → length (drop 4 t) ≤ 4 * w
length-drop_4 w t h = omega (arith, length-drop 4 t)

name_from-stored :
    (w : ℕ) (t before behind : Bytes) (offset : ℕ)
    → offset ≡ length before
    → length t ≤ 4 * w
    → All Prints t
    → name_from w offset (before ++ (stored_words w t ++ behind)) ≡ t
unfolding name_from stored_words
name_from-stored zero [] before behind offset e l h = refl
name_from-stored zero (a ∷ t) before behind offset e l h = absurd (omega arith)
name_from-stored (suc w) t before behind offset e l h =
    let bytes = get_or t 3 0 ∷ get_or t 2 0 ∷ get_or t 1 0 ∷ get_or t 0 0 ∷ [] in
    let after = stored_words w (drop 4 t) ++ behind in
    let rest =
      ap (name_from w (offset + 4)) (sym (append_assoc before bytes after))
      ∙ name_from-stored w (drop 4 t) (before ++ bytes) behind (offset + 4)
          (omega (arith, e, length-append before bytes)) (length-drop_4 w t l) (All-drop t h) in
    rw
      (
        get_or-behind before (bytes ++ after) offset 3 0 e,
        get_or-behind before (bytes ++ after) offset 2 0 e,
        get_or-behind before (bytes ++ after) offset 1 0 e,
        get_or-behind before (bytes ++ after) offset 0 0 e,
      )
      (word_text t (name_from w (offset + 4) (before ++ (bytes ++ after))) h rest)

-- The name comes back.
pub extract_name-stored :
    (name header behind : Bytes)
    → length header ≡ 8
    → IsName name
    → extract_name ((header ++ stored_words 7 name) ++ behind) ≡ name
unfolding extract_name
extract_name-stored name header behind e h =
    let raw = (header ++ stored_words 7 name) ++ behind in
    let long : 36 ≤ length raw = omega (
      arith,
      e,
      length-stored_words 7 name,
      length-append header (stored_words 7 name),
      length-append (header ++ stored_words 7 name) behind,
    ) in
    rw (le→ltb-false (length raw) 36 long) (
      ap (name_from 7 8) (append_assoc header (stored_words 7 name) behind)
      ∙ name_from-stored 7 name header behind 8 (sym e) (omega (arith, h.0)) h.1)
