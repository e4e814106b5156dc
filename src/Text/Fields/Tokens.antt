-- ===== src/Text/Fields/Tokens.antt =====
-- `GetNthField` counts the same pieces as `strtok_r`, and splitting undoes joining.
use powerapi.Prelude.{
  ◌⊎◌, ◌↔◌, ℕ, zero, suc, ◌≤◌, ◌≡◌, refl, sym, ap, ◌∙◌, Bool, true, false, not, Option, none, some,
  List, [], ◌∷◌, arith, if◌then◌else◌, ltb, length, Bool-cases, inl, inr,
}
use powerapi.Text.Fields.{
  skip, span, cut, next_field, field_loop, get_nth_field, starts, put_first, tokens,
}

abbrev pub nth_token : List (List ℕ) → ℕ → Option (List ℕ)
nth_token [] n = none
nth_token (t ∷ ts) zero = none
nth_token (t ∷ ts) (suc zero) = some t
nth_token (t ∷ ts) (suc (suc n)) = nth_token ts (suc n)

module _ (sep : ℕ → Bool) where
  pub tokens_sep : (c : ℕ) (s : List ℕ) → sep c ≡ true → tokens sep (c ∷ s) ≡ tokens sep s
  unfolding tokens
  tokens_sep c s e = rw e

  pub tokens_last :
      (c : ℕ) (s : List ℕ)
      → sep c ≡ false
      → starts sep s ≡ true
      → tokens sep (c ∷ s) ≡ (c ∷ []) ∷ tokens sep s
  unfolding tokens
  tokens_last c s e f = rw (e, f)

  pub tokens_more :
      (c : ℕ) (s : List ℕ)
      → sep c ≡ false
      → starts sep s ≡ false
      → tokens sep (c ∷ s) ≡ put_first c (tokens sep s)
  unfolding tokens
  tokens_more c s e f = rw (e, f)

  -- What is left of the pieces after the separators in front.
  tokens-skip : (s : List ℕ) → tokens sep (skip sep s) ≡ tokens sep s
  tokens-skip [] = refl
  tokens-skip (c ∷ s) = elim (Bool-cases (sep c)) [
    | inl e ↦ rw (tokens_sep c s e, e) (tokens-skip s)
    | inr e ↦ rw e refl
  ]

  field : ℕ → Bool
  field c = not (sep c)

  -- A text that begins with a character that is no separator begins with a piece.
  tokens-span :
      (c : ℕ) (s : List ℕ)
      → sep c ≡ false
      → tokens sep (c ∷ s) ≡ (c ∷ span field s) ∷ tokens sep (skip field s)
  unfolding field
  tokens-span c [] e = tokens_last c [] e refl
  tokens-span c (d ∷ s) e = elim (Bool-cases (sep d)) [
    | inl f ↦ tokens_last c (d ∷ s) e f ∙ rw f refl
    | inr f ↦ tokens_more c (d ∷ s) e f ∙ rw (tokens-span d s f) (rw f refl)
  ]

  cut-tokens :
      (t : List ℕ)
      → starts sep t ≡ false
      → (f : List ℕ) × (r : List ℕ) × (cut sep t ≡ some (f, r)) × (tokens sep t ≡ f ∷ tokens sep r)
  unfolding field
  cut-tokens [] e = absurd (cc)
  cut-tokens (c ∷ s) e = (c ∷ span field s, skip field s, rw e refl, tokens-span c s e)

  skip-cases : (s : List ℕ) → (skip sep s ≡ []) ⊎ (starts sep (skip sep s) ≡ false)
  skip-cases [] = inl refl
  skip-cases (c ∷ s) = elim (Bool-cases (sep c)) [
    | inl e ↦ rw e (skip-cases s)
    | inr e ↦ rw e (inr e)
  ]

  nth_token-zero : (ts : List (List ℕ)) → nth_token ts 0 ≡ none
  nth_token-zero [] = refl
  nth_token-zero (t ∷ ts) = refl

  -- One round takes the first piece.
  next_field_lem :
      (s : List ℕ)
      → ((next_field sep s ≡ none) × (tokens sep s ≡ []))
        ⊎ ((f : List ℕ) × (r : List ℕ) × (next_field sep s ≡ some (f, r))
            × (tokens sep s ≡ f ∷ tokens sep r))
  unfolding next_field tokens
  next_field_lem s = elim (skip-cases s) [
    | inl e ↦ inl (ap (cut sep) e, sym (tokens-skip s) ∙ ap (tokens sep) e)
    | inr e ↦ let (f, r, p, q) = cut-tokens (skip sep s) e in inr (f, r, p, sym (tokens-skip s) ∙ q)
  ]

  field_loop-nth_token : (n : ℕ) (s : List ℕ) → field_loop n sep s ≡ nth_token (tokens sep s) n
  unfolding field_loop
  field_loop-nth_token zero s = sym (nth_token-zero (tokens sep s))
  field_loop-nth_token (suc zero) s = elim (next_field_lem s) [
    | inl (e, t) ↦ rw (e, t, field_loop)
    | inr (f, r, e, t) ↦ rw (e, t, field_loop)
  ]
  field_loop-nth_token (suc (suc n)) s = elim (next_field_lem s) [
    | inl (e, t) ↦ rw (e, t, field_loop)
    | inr (f, r, e, t) ↦ rw (e, t, field_loop) (field_loop-nth_token (suc n) r)
  ]

  fits :
      (buf_len : ℕ) (o : Option (List ℕ)) (f : List ℕ)
      → (elim o as (λ _. Option (List ℕ)) [
        | none ↦ none
        | some t ↦ if ltb buf_len (length t) then none else some t
      ]
          ≡ some f)
        ↔ ((o ≡ some f) × (length f ≤ buf_len))
  fits buf_len none f = (λ e. absurd (cc e), λ h. absurd (cc (h.0)))
  fits buf_len (some t) f = (λ e. (ground arith, ground arith), λ h. ground arith)

  -- `GetNthField` gives a text exactly where that is the nth of the pieces without a separator that
  -- the source consists of, counted from 1, and is no longer than the buffer.
  pub get_nth_field-nth_token :
      (src : List ℕ) (nth buf_len : ℕ) (f : List ℕ)
      → (get_nth_field src sep nth buf_len ≡ some f)
        ↔ ((nth_token (tokens sep src) nth ≡ some f) × (length f ≤ buf_len))
  unfolding get_nth_field
  get_nth_field-nth_token src nth buf_len f =
      rw (← field_loop-nth_token nth src) (fits buf_len (field_loop nth sep src) f)
