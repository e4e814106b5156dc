-- ===== src/Text/Fields.antt =====
-- Fields of a text, pwrapis/src/utils.c: `GetNthField`, `StrSplit`, `StrJoin` and `StrReplace`.
pub mod Tokens
pub mod Joining
use powerapi.Prelude.{
  ℕ, zero, suc, Bool, true, false, not, Option, none, some, List, [], ◌∷◌, ◌++◌, ◌==◌,
  if◌then◌else◌, ltb, length, take,
}

-- `strspn` and `strcspn` cut a text in two: what they skip, and what follows.
abbrev pub skip : (ℕ → Bool) → List ℕ → List ℕ
skip p [] = []
skip p (c ∷ s) = let rest = skip p s in if p c then rest else c ∷ s

abbrev pub span : (ℕ → Bool) → List ℕ → List ℕ
span p [] = []
span p (c ∷ s) = let rest = span p s in if p c then c ∷ rest else []

-- One round of the loop of `GetNthField`, from behind the last field: the field, and what follows.
abbrev pub cut : (ℕ → Bool) → List ℕ → Option (List ℕ × List ℕ)
cut sep [] = none
cut sep (c ∷ s) = some (span (λ d. not (sep d)) (c ∷ s), skip (λ d. not (sep d)) (c ∷ s))

unfoldable pub next_field : (ℕ → Bool) → List ℕ → Option (List ℕ × List ℕ)
next_field sep s = cut sep (skip sep s)

unfoldable pub field_loop : ℕ → (ℕ → Bool) → List ℕ → Option (List ℕ)
unfolding next_field
field_loop zero sep s = none
field_loop (suc zero) sep s = elim (next_field sep s) [ none ↦ none | some (f, r) ↦ some f ]
field_loop (suc (suc nth)) sep s = elim (next_field sep s) [
  | none ↦ none
  | some (f, r) ↦ field_loop (suc nth) sep r
]

-- The field, where there is one and the buffer has room for it.
unfoldable pub get_nth_field : List ℕ → (ℕ → Bool) → ℕ → ℕ → Option (List ℕ)
unfolding field_loop
get_nth_field src sep nth buf_len = elim (field_loop nth sep src) [
  | none ↦ none
  | some f ↦ if ltb buf_len (length f) then none else some f
]

-- The longest pieces without a separator, which `strtok_r` gives one after the other.
abbrev pub starts : (ℕ → Bool) → List ℕ → Bool
starts sep [] = true
starts sep (c ∷ s) = sep c

abbrev pub put_first : ℕ → List (List ℕ) → List (List ℕ)
put_first c [] = (c ∷ []) ∷ []
put_first c (t ∷ ts) = (c ∷ t) ∷ ts

unfoldable pub tokens : (ℕ → Bool) → List ℕ → List (List ℕ)
tokens sep [] = []
tokens sep (c ∷ s) =
    let rest = tokens sep s in
    if sep c then rest else if starts sep s then (c ∷ []) ∷ rest else put_first c rest

-- At most `item_num` items are stored.
unfoldable pub str_split : List ℕ → (ℕ → Bool) → ℕ → List (List ℕ)
unfolding tokens
str_split src sep item_num = take item_num (tokens sep src)

abbrev pub joined : List (List ℕ) → List ℕ → List ℕ
joined [] join_str = []
joined (s ∷ []) join_str = s
joined (s ∷ t ∷ ts) join_str = s ++ (join_str ++ joined (t ∷ ts) join_str)

-- The text built is below MAX_LINE_LENGTH, the size of the buffer that the source builds it in.
unfoldable pub str_join : List (List ℕ) → List ℕ → ℕ → Option (List ℕ)
str_join [] join_str buf_len = none
str_join (s ∷ ss) join_str buf_len =
    let text = joined (s ∷ ss) join_str in
    if buf_len == 0 then none else if ltb buf_len (length text) then none else some text

-- Each separator in a row, and those at the ends, become one `new` or nothing.
unfoldable pub str_replace : List ℕ → (ℕ → Bool) → List ℕ → ℕ → Option (List ℕ)
unfolding str_split str_join
str_replace src old new dest_len = str_join (str_split src old (length src)) new dest_len
