-- ===== src/Text/Edges.antt =====
-- What the text helpers do at the edges of their buffers.
use mathlib.Core.Option
use native.Mathlib.Decide.{ℕ_discrete}
use powerapi.Prelude.{
  ◌↔◌, Bool-cases, ℕ, zero, suc, ◌<◌, ◌≤◌, ◌≡◌, refl, true, inl, inr, Option, none, some, List, [],
  ◌∷◌, arith, length, get_or,
}
use powerapi.Text.{is_space, tail_loop, lr_trim}

abbrev pub AllSpace : List ℕ → Type 0
AllSpace [] = Unit {0}
AllSpace (c ∷ s) = (is_space c ≡ true) × AllSpace s

get_or-space : (s : List ℕ) (i : ℕ) → AllSpace s → i < length s → is_space (get_or s i 0) ≡ true
get_or-space [] i h lt = absurd (omega arith)
get_or-space (c ∷ s) zero h lt = h.0
get_or-space (c ∷ s) (suc i) h lt = get_or-space s i h.1 (omega arith)

tail_loop-none : (n : ℕ) (s : List ℕ) → AllSpace s → n ≤ length s → tail_loop n s ≡ none
unfolding tail_loop
tail_loop-none zero s h le = refl
tail_loop-none (suc n) s h le =
    rw (get_or-space s n h (omega arith)) (tail_loop-none n s h (omega arith))

map-none {ℓ κ} :
    {A : Type ℓ} {B : Type κ} (f : A → B) (o : Option A) → Option.map f o ≡ none → o ≡ none
map-none f none e = refl
map-none f (some a) e = absurd (cc)

tail_loop_spaces :
    (n i : ℕ) (s : List ℕ) → tail_loop n s ≡ none → i < n → is_space (get_or s i 0) ≡ true
unfolding tail_loop
tail_loop_spaces zero i s e lt = absurd (omega arith)
tail_loop_spaces (suc n) i s e lt = elim (Bool-cases (is_space (get_or s n 0))) [
  | inl p ↦
      let e' : tail_loop n s ≡ none = rw p at e in
      elim (ℕ_discrete i n) [ yes q ↦ rw q p | no q ↦ tail_loop_spaces n i s e' (omega arith) ]
  | inr p ↦ let e' : some (suc n) ≡ none = rw p at e in absurd (cc)
]

AllSpace-pointwise :
    (s : List ℕ) → ((i : ℕ) → i < length s → is_space (get_or s i 0) ≡ true) → AllSpace s
AllSpace-pointwise [] h = tt
AllSpace-pointwise (c ∷ s) h =
    (h 0 (omega arith), AllSpace-pointwise s (λ i lt. h (suc i) (omega arith)))

-- `LRtrim` reads before the start of the text exactly where the text is empty or all spaces.
pub lr_trim_leaves : (s : List ℕ) → (lr_trim s ≡ none) ↔ AllSpace s
unfolding lr_trim
lr_trim_leaves s = (
  (λ e.
      AllSpace-pointwise s
        (λ i lt. tail_loop_spaces (length s) i s (map-none _ (tail_loop (length s) s) e) lt)),
  (λ h. rw (tail_loop-none (length s) s h (omega arith))),
)
