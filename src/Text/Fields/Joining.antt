-- ===== src/Text/Fields/Joining.antt =====
-- Splitting a text that was joined gives the items back.
use mathlib.Core.List.{append-nil}
use powerapi.Prelude.{
  ℕ, ◌≡◌, ◌≢◌, refl, sym, ap, ◌∙◌, Bool, true, false, some, List, [], ◌∷◌, ◌++◌, arith, length,
  take,
}
use powerapi.Text.Fields.{starts, put_first, tokens, str_split, joined, str_join}
use powerapi.Text.Fields.Tokens.{tokens_sep, tokens_last, tokens_more}

abbrev pub AllSep : (ℕ → Bool) → List ℕ → Type 0
AllSep sep [] = Unit {0}
AllSep sep (c ∷ s) = (sep c ≡ true) × AllSep sep s

abbrev pub NoSep : (ℕ → Bool) → List ℕ → Type 0
NoSep sep [] = Unit {0}
NoSep sep (c ∷ s) = (sep c ≡ false) × NoSep sep s

-- Items with a character at least, and without a separator.
abbrev pub Items : (ℕ → Bool) → List (List ℕ) → Type 0
Items sep [] = Unit {0}
Items sep (t ∷ ts) = (t ≢ []) × NoSep sep t × Items sep ts

module _ (sep : ℕ → Bool) where
  tokens_word :
      (c : ℕ) (t r : List ℕ)
      → NoSep sep (c ∷ t)
      → starts sep r ≡ true
      → tokens sep ((c ∷ t) ++ r) ≡ (c ∷ t) ∷ tokens sep r
  tokens_word c [] r h e = tokens_last sep c r h.0 e
  tokens_word c (d ∷ t) r h e =
      tokens_more sep c ((d ∷ t) ++ r) h.0 h.1.0 ∙ ap (put_first c) (tokens_word d t r h.1 e)

  tokens_seps : (j r : List ℕ) → AllSep sep j → tokens sep (j ++ r) ≡ tokens sep r
  tokens_seps [] r h = refl
  tokens_seps (c ∷ j) r h = tokens_sep sep c (j ++ r) h.0 ∙ tokens_seps j r h.1

  tokens_item :
      (t r : List ℕ)
      → t ≢ []
      → NoSep sep t
      → starts sep r ≡ true
      → tokens sep (t ++ r) ≡ t ∷ tokens sep r
  tokens_item [] r ne h e = absurd (ne refl)
  tokens_item (c ∷ t) r ne h e = tokens_word c t r h e

  tokens-joined :
      (c : ℕ) (j : List ℕ) (ts : List (List ℕ))
      → AllSep sep (c ∷ j)
      → Items sep ts
      → tokens sep (joined ts (c ∷ j)) ≡ ts
  unfolding tokens
  tokens-joined c j [] h i = refl
  tokens-joined c j (t ∷ []) h i =
      ap (tokens sep) (sym (append-nil t)) ∙ tokens_item t [] i.0 i.1 refl
  tokens-joined c j (t ∷ u ∷ ts) h i =
      tokens_item t ((c ∷ j) ++ joined (u ∷ ts) (c ∷ j)) i.0 i.1 h.0
      ∙ ap (λ l. t ∷ l)
          (tokens_seps (c ∷ j) (joined (u ∷ ts) (c ∷ j)) h ∙ tokens-joined c j (u ∷ ts) h i.2)

  take-length : (ts : List (List ℕ)) → take (length ts) ts ≡ ts
  take-length [] = refl
  take-length (t ∷ ts) = ap (λ l. t ∷ l) (take-length ts)

  join_fits :
      (ts : List (List ℕ)) (join text : List ℕ) (buf_len : ℕ)
      → str_join ts join buf_len ≡ some text
      → text ≡ joined ts join
  unfolding str_join
  join_fits [] join text buf_len e = absurd (cc)
  join_fits (t ∷ ts) join text buf_len e = ground arith

  -- Where `StrJoin` joins items, none of them empty or with a separator in it, by one or more
  -- separators, `StrSplit` of the result with room for as many items gives them back.
  pub split-join :
      (c : ℕ) (j : List ℕ) (ts : List (List ℕ)) (text : List ℕ) (buf_len : ℕ)
      → AllSep sep (c ∷ j)
      → Items sep ts
      → str_join ts (c ∷ j) buf_len ≡ some text
      → str_split text sep (length ts) ≡ ts
  unfolding str_split
  split-join c j ts text buf_len h i e =
      ap (λ s. take (length ts) (tokens sep s)) (join_fits ts (c ∷ j) text buf_len e)
      ∙ rw (tokens-joined c j ts h i) (take-length ts)
