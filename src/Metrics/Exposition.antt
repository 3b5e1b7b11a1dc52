-- ===== src/Metrics/Exposition.antt =====
-- routemq/metrics/exposition.py: the labels of a sample. A text is a list of code points; 92 is the
-- backslash, 34 the quote, and 10 the line feed.
use route_mq.Prelude.{
  ℕ, zero, suc, ◌≡◌, refl, sym, ap, ◌∙◌, inl, inr, Bool, true, false, Option, none, some, List, [],
  ◌∷◌, ◌++◌, append-nil, append_assoc, arith, length, All, ◌==◌, if◌then◌else◌, Bool-cases,
}

abbrev pub Chars : Type 0
Chars = List ℕ

-- `text.replace(c, new)` for a single character
abbrev pub replace_char : ℕ → Chars → Chars → Chars
replace_char c new [] = []
replace_char c new (x ∷ xs) = (if x == c then new else x ∷ []) ++ replace_char c new xs

-- `_escape_label_value`
unfoldable pub escape_label_value : Chars → Chars
escape_label_value value =
    replace_char 10 (92 ∷ b'n' ∷ [])
      (replace_char 34 (92 ∷ 34 ∷ []) (replace_char 92 (92 ∷ 92 ∷ []) value))

abbrev pub format_label : Chars × Chars → Chars
format_label (key, value) = key ++ b'=' ∷ 34 ∷ (escape_label_value value ++ 34 ∷ [])

-- `_format_labels`
unfoldable pub format_labels : List (Chars × Chars) → Chars
unfolding escape_label_value
format_labels [] = []
format_labels (l ∷ []) = format_label l
format_labels (l ∷ k ∷ ls) = format_label l ++ b',' ∷ format_labels (k ∷ ls)

-- The text format as a scraper reads it. The text before the first `=`, and the text after it:
abbrev with_char : ℕ → Option (Chars × Chars) → Option (Chars × Chars)
with_char c none = none
with_char c (some (a, b)) = some (c ∷ a, b)

unfoldable pub read_name : Chars → Option (Chars × Chars)
read_name [] = none
read_name (c ∷ cs) =
    let rest = read_name cs in if c == b'=' then some ([], cs) else with_char c rest

-- What a character stands for behind a backslash.
abbrev pub unescaped : ℕ → ℕ
unescaped c = if c == b'n' then 10 else c

-- The value up to the closing quote, and the text after it. The flag tells whether a backslash has
-- just been read.
unfoldable pub read_value : Bool → Chars → Option (Chars × Chars)
read_value escaping [] = none
read_value true (c ∷ cs) = with_char (unescaped c) (read_value false cs)
read_value false (c ∷ cs) =
    let after_escape = read_value true cs in
    let after_char = read_value false cs in
    if c == 92
    then after_escape
    else if c == 34
    then some ([], cs)
    else if c == 10
    then none
    else with_char c after_char

escaped_char : ℕ → Chars
escaped_char c =
    if c == 92
    then 92 ∷ 92 ∷ []
    else if c == 34
    then 92 ∷ 34 ∷ []
    else if c == 10
    then 92 ∷ b'n' ∷ []
    else c ∷ []

escape_label_value-cons :
    (c : ℕ) (cs : Chars) → escape_label_value (c ∷ cs) ≡ escaped_char c ++ escape_label_value cs
unfolding escape_label_value escaped_char
escape_label_value-cons c cs = elim (Bool-cases (c == 92)) [
  | inl slash ↦ rw slash refl
  | inr plain ↦ rw plain (elim (Bool-cases (c == 34)) [
    | inl quote ↦ rw quote refl
    | inr no_quote ↦
        rw no_quote
          (elim (Bool-cases (c == 10)) [ inl feed ↦ rw feed refl | inr other ↦ rw other refl ])
  ])
]

-- Reading one escaped character.
read_value-escaped_char :
    (c : ℕ) (rest : Chars)
    → read_value false (escaped_char c ++ rest) ≡ with_char c (read_value false rest)
unfolding read_value escaped_char
read_value-escaped_char c rest = elim (Bool-cases (c == 92)) [
  | inl slash ↦ let same : c ≡ 92 = ground arith in rw same refl
  | inr plain ↦ elim (Bool-cases (c == 34)) [
    | inl quote ↦ let same : c ≡ 34 = ground arith in rw same refl
    | inr no_quote ↦ elim (Bool-cases (c == 10)) [
      | inl feed ↦ let same : c ≡ 10 = ground arith in rw same refl
      | inr other ↦
          rw (plain, escaped_char)
            (rw (no_quote, escaped_char)
              (rw (other, escaped_char)
                (rw (plain, read_value) (rw (no_quote, read_value) (rw (other, read_value) refl)))))
    ]
  ]
]

escape_label_value-nil : escape_label_value [] ≡ []
unfolding escape_label_value
escape_label_value-nil = refl

read_value-quote : (rest : Chars) → read_value false (34 ∷ rest) ≡ some ([], rest)
unfolding read_value
read_value-quote rest = refl

read_value-escape :
    (value rest : Chars)
    → read_value false (escape_label_value value ++ 34 ∷ rest) ≡ some (value, rest)
read_value-escape [] rest =
    ap (λ t. read_value false (t ++ 34 ∷ rest)) escape_label_value-nil ∙ read_value-quote rest
read_value-escape (c ∷ cs) rest =
    ap (λ t. read_value false (t ++ 34 ∷ rest)) (escape_label_value-cons c cs)
    ∙ ap (read_value false) (append_assoc (escaped_char c) (escape_label_value cs) (34 ∷ rest))
    ∙ read_value-escaped_char c (escape_label_value cs ++ 34 ∷ rest)
    ∙ ap (with_char c) (read_value-escape cs rest)

abbrev pub has_equals : Chars → Bool
has_equals [] = false
has_equals (c ∷ cs) = if c == b'=' then true else has_equals cs

read_name-append :
    (key rest : Chars) → has_equals key ≡ false → read_name (key ++ b'=' ∷ rest) ≡ some (key, rest)
unfolding read_name
read_name-append [] rest h = refl
read_name-append (c ∷ cs) rest h = elim (Bool-cases (c == b'=')) [
  | inl equals ↦ absurd (ground (arith, h, equals))
  | inr other ↦
      let free : has_equals cs ≡ false = ground (arith, h, other) in
      rw other (rw (read_name-append cs rest free) refl)
]

abbrev value_after : Chars → Option (Chars × Chars) → Option ((Chars × Chars) × Chars)
value_after key none = none
value_after key (some (value, rest)) = some ((key, value), rest)

-- A value starts with a quote.
abbrev value_of : Option (Chars × Chars) → Option ((Chars × Chars) × Chars)
value_of none = none
value_of (some (key, [])) = none
value_of (some (key, c ∷ cs)) =
    let value = value_after key (read_value false cs) in if c == 34 then value else none

unfoldable pub read_label : Chars → Option ((Chars × Chars) × Chars)
unfolding read_name read_value
read_label text = value_of (read_name text)

read_label-format_label :
    (key value rest : Chars)
    → has_equals key ≡ false
    → read_label (format_label (key, value) ++ rest) ≡ some ((key, value), rest)
unfolding read_label
read_label-format_label key value rest h =
    let escaped = escape_label_value value in
    ap (λ t. value_of (read_name t))
      (append_assoc key (b'=' ∷ 34 ∷ (escaped ++ 34 ∷ [])) rest
        ∙ ap (λ t. key ++ b'=' ∷ 34 ∷ t) (append_assoc escaped (34 ∷ []) rest))
    ∙ ap value_of (read_name-append key (34 ∷ (escaped ++ 34 ∷ rest)) h)
    ∙ ap (value_after key) (read_value-escape value rest)

abbrev with_label : Chars × Chars → Option (List (Chars × Chars)) → Option (List (Chars × Chars))
with_label l none = none
with_label l (some ls) = some (l ∷ ls)

-- Labels with commas between them; the fuel is the most labels that are read.
unfoldable pub read_labels : ℕ → Chars → Option (List (Chars × Chars))
unfolding read_label
read_labels zero text = none
read_labels (suc k) text = elim (read_label text) [
  | none ↦ none
  | some (l, []) ↦ some (l ∷ [])
  | some (l, c ∷ more) ↦
      (let rest = with_label l (read_labels k more) in if c == b',' then rest else none)
]

-- A scraper reads back the labels that are written, whatever their values hold, where there are some
-- and no name has an equals sign.
pub read_labels-format_labels :
    (l : Chars × Chars) (ls : List (Chars × Chars))
    → All (λ (key, value). has_equals key ≡ false) (l ∷ ls)
    → read_labels (length (l ∷ ls)) (format_labels (l ∷ ls)) ≡ some (l ∷ ls)
unfolding read_labels format_labels
read_labels-format_labels (key, value) [] h =
    let here =
      ap read_label (sym (append-nil (format_label (key, value))))
      ∙ read_label-format_label key value [] h.0 in
    rw (here, read_labels) refl
read_labels-format_labels (key, value) (k ∷ ls) h =
    let here = read_label-format_label key value (b',' ∷ format_labels (k ∷ ls)) h.0 in
    let rest = read_labels-format_labels k ls h.1 in
    rw (here, read_labels) (ap (with_label (key, value)) rest)
