-- ===== src/Vault/Header/Fields.antt =====
-- The fields of a header that is printed line by line.
use lukscrypt.Prelude.{
  ℕ, Text, text_eq, nat_eq, Bool, true, false, not, ◌&&◌, ◌||◌, Option, none, some, List, [], ◌∷◌,
  ◌++◌, ◌≡◌, ◌≢◌, refl, ap, ◌∙◌, strip_prefix, text, all, All, take_while, drop_while, ◌==◌, arith,
}
use lukscrypt.Vault.Header.{re_space, spaced_word, field_at, find_field, dump_field}

-- Lines, each ended by a newline, and what follows them.
unfoldable pub print_lines : List Text → Text → Text
print_lines [] rest = rest
print_lines (l ∷ ls) rest = l ++ 0x0a ∷ print_lines ls rest

abbrev pub is_label_byte : ℕ → Bool
is_label_byte c = not (c == b':') && not (c == 0x0a)

abbrev pub is_word_byte : ℕ → Bool
is_word_byte c = not (re_space c)

abbrev pub is_blank : ℕ → Bool
is_blank c = c == b' ' || c == 0x09

abbrev pub is_inside : ℕ → Bool
is_inside c = not (c == 0x0a)

-- A line that does not start with the label and a colon; it may be empty.
abbrev pub IsOther : Text → Text → Type 0
IsOther label l = (all is_inside l ≡ true) × (strip_prefix (label ++ text ":") l ≡ none)

-- What follows a word: nothing, or a space of any kind and more.
abbrev pub IsBreak : Text → Type 0
IsBreak [] = Unit
IsBreak (c ∷ s) = re_space c ≡ true

strip_prefix-label :
    (label x : Text) → strip_prefix (label ++ text ":") (label ++ b':' ∷ x) ≡ some x
unfolding strip_prefix text
strip_prefix-label [] x = refl
strip_prefix-label (c ∷ label) x = ground (arith, strip_prefix-label label x)

-- A prefix that a line does not have is not there once the line has ended.
strip_prefix-line :
    (p l rest : Text)
    → all is_inside p ≡ true
    → strip_prefix p l ≡ none
    → strip_prefix p (l ++ 0x0a ∷ rest) ≡ none
unfolding strip_prefix
strip_prefix-line [] l rest h k = absurd (cc)
strip_prefix-line (c ∷ p) [] rest h k = ground arith
strip_prefix-line (c ∷ p) (d ∷ l) rest h k = ground (arith, strip_prefix-line p l rest)

label_inside : (s : Text) → all is_label_byte s ≡ true → all is_inside (s ++ text ":") ≡ true
unfolding text
label_inside [] h = refl
label_inside (c ∷ s) h = ground (arith, label_inside s)

field_at-line :
    (label l rest : Text)
    → all is_label_byte label ≡ true
    → strip_prefix (label ++ text ":") l ≡ none
    → field_at label (l ++ 0x0a ∷ rest) ≡ none
unfolding field_at
field_at-line label l rest h k =
    rw (strip_prefix-line (label ++ text ":") l rest (label_inside label h) k, field_at) refl

drop_while-blanks :
    (blanks : Text) (c : ℕ) (x : Text)
    → all is_blank blanks ≡ true
    → re_space c ≡ false
    → drop_while re_space (blanks ++ (c ∷ x)) ≡ c ∷ x
drop_while-blanks [] c x h k = ground arith
drop_while-blanks (b ∷ blanks) c x h k =
    ground (arith, drop_while-blanks blanks c x (ground arith) k)

take_while-break : (tail : Text) → IsBreak tail → take_while is_word_byte tail ≡ []
take_while-break [] h = refl
take_while-break (c ∷ tail) h = ground arith

take_while-word :
    (w tail : Text)
    → all is_word_byte w ≡ true
    → IsBreak tail
    → take_while is_word_byte (w ++ tail) ≡ w
take_while-word [] tail h k = take_while-break tail k
take_while-word (c ∷ w) tail h k = ground (arith, take_while-word w tail (ground arith) k)

spaced_word-value :
    (blanks w tail : Text)
    → blanks ≢ []
    → all is_blank blanks ≡ true
    → w ≢ []
    → all is_word_byte w ≡ true
    → IsBreak tail
    → spaced_word (blanks ++ (w ++ tail)) ≡ some w
unfolding spaced_word
spaced_word-value [] w tail a b c h k = absurd (a refl)
spaced_word-value (x ∷ blanks) [] tail a b c h k = absurd (c refl)
spaced_word-value (x ∷ blanks) (y ∷ w) tail a b c h k =
    let space : re_space x ≡ true = ground arith in
    rw
      (
        space,
        drop_while-blanks blanks y (w ++ tail) (ground arith) (ground arith),
        take_while-word (y ∷ w) tail h k,
      )
      refl

-- What is left of a line is passed over.
find_field-skip :
    (label x rest : Text)
    → all is_inside x ≡ true
    → find_field label false (x ++ 0x0a ∷ rest) ≡ find_field label true rest
unfolding find_field
find_field-skip label [] rest h = refl
find_field-skip label (c ∷ x) rest h =
    let e : (c == 0x0a) ≡ false = ground (arith, h) in
    rw e (find_field-skip label x rest (ground (arith, h)))

-- A line that starts without the field is passed over.
find_field-line :
    (label l rest : Text)
    → all is_label_byte label ≡ true
    → IsOther label l
    → find_field label true (l ++ 0x0a ∷ rest) ≡ find_field label true rest
unfolding find_field
find_field-line label [] rest h (inside, other) =
    rw (field_at-line label [] rest h other, find_field) refl
find_field-line label (c ∷ l) rest h (inside, other) =
    let e : (c == 0x0a) ≡ false = ground arith in
    rw (field_at-line label (c ∷ l) rest h other, find_field)
      (rw e (find_field-skip label l rest (ground arith)))

find_field-lines :
    (label : Text) (ls : List Text) (rest : Text)
    → all is_label_byte label ≡ true
    → All (IsOther label) ls
    → find_field label true (print_lines ls rest) ≡ find_field label true rest
unfolding print_lines
find_field-lines label [] rest h k = refl
find_field-lines label (l ∷ ls) rest h (k, ks) =
    find_field-line label l (print_lines ls rest) h k ∙ find_field-lines label ls rest h ks

find_field-here :
    (label x v : Text) → x ≢ [] → field_at label x ≡ some v → find_field label true x ≡ some v
unfolding find_field
find_field-here label [] v d k = absurd (d refl)
find_field-here label (c ∷ x) v d k = rw (k, find_field) refl

cons_nonempty : (s t : Text) (c : ℕ) → s ++ c ∷ t ≢ []
cons_nonempty [] t c e = cc
cons_nonempty (b ∷ s) t c e = cc

field_at-here :
    (label rest v : Text)
    → spaced_word rest ≡ some v
    → field_at label (label ++ b':' ∷ rest) ≡ some v
unfolding field_at
field_at-here label rest v h = rw (strip_prefix-label label rest, field_at) h

abbrev found_or : Option Text → Text
found_or none = []
found_or (some v) = v

-- However many lines stand before it that do not start with the label and a colon, empty ones too:
-- of a line that starts with the label, a colon and blanks or tabs `dumpField` reads the word after
-- them, up to the next space of any kind, whatever follows. If no line starts with the label and a
-- colon, it reads the empty text. A label has no colon and no newline.
pub dump_field-print_lines :
    (label : Text) (before : List Text) (blanks word tail : Text)
    → all is_label_byte label ≡ true
    → All (IsOther label) before
    → blanks ≢ []
    → all is_blank blanks ≡ true
    → word ≢ []
    → all is_word_byte word ≡ true
    → IsBreak tail
    → (dump_field (print_lines before (label ++ b':' ∷ (blanks ++ (word ++ tail)))) label ≡ word)
      × (dump_field (print_lines before []) label ≡ [])
unfolding dump_field find_field
dump_field-print_lines label before blanks word tail h k a b c d e =
    let rest = blanks ++ (word ++ tail) in
    let here : find_field label true (print_lines before (label ++ b':' ∷ rest)) ≡ some word =
      find_field-lines label before (label ++ b':' ∷ rest) h k
      ∙ find_field-here label (label ++ b':' ∷ rest) word (cons_nonempty label rest b':')
          (field_at-here label rest word (spaced_word-value blanks word tail a b c d e)) in
    (ap found_or here, ap found_or (find_field-lines label before [] h k))
