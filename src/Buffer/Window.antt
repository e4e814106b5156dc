-- ===== src/Buffer/Window.antt =====
-- The slots of a ring from one index on, in the order of the ring.
use powerapi.Prelude.{
  ℕ, zero, suc, ◌+◌, ◌-◌, ◌%◌, ◌≤◌, ◌<◌, ◌≡◌, refl, ap, ap₂, ◌∙◌, Option, none, List, [], ◌∷◌, ◌++◌,
  arith, get_or, set, get_or-set_ne, get_or-set_self, length,
}

-- How many steps round the ring lead from `h` to `t`.
abbrev pub distance : ℕ → ℕ → ℕ
distance h t = (t + 64 - h) % 64

module _ {A : Type 0} where
  -- The `n` slots from `h` on.
  abbrev pub window : List (Option A) → ℕ → ℕ → List (Option A)
  window slots h zero = []
  window slots h (suc n) = get_or slots h none ∷ window slots ((h + 1) % 64) n

  -- A write outside the window leaves it alone.
  pub window-set :
      (slots : List (Option A)) (h n i : ℕ) (v : Option A)
      → h < 64
      → i < 64
      → n ≤ distance h i
      → window (set slots i v) h n ≡ window slots h n
  window-set slots h zero i v hh hi d = refl
  window-set slots h (suc n) i v hh hi d =
      ap₂ ◌∷◌ (get_or-set_ne slots i h v none (omega arith))
        (window-set slots ((h + 1) % 64) n i v (omega arith) hi (omega arith))

  -- The window that is one slot longer.
  pub window-snoc :
      (slots : List (Option A)) (h n i : ℕ)
      → h < 64
      → i ≡ (h + n) % 64
      → window slots h (suc n) ≡ window slots h n ++ get_or slots i none ∷ []
  window-snoc slots h zero i hh e = ap (λ k. get_or slots k none ∷ []) (omega arith)
  window-snoc slots h (suc n) i hh e =
      ap (◌∷◌ (get_or slots h none))
        (window-snoc slots ((h + 1) % 64) n i (omega arith) (omega arith))

  pub length-window : (slots : List (Option A)) (h n : ℕ) → length (window slots h n) ≡ n
  length-window slots h zero = refl
  length-window slots h (suc n) = ap suc (length-window slots ((h + 1) % 64) n)

  -- A write just past a window extends it.
  pub window-store :
      (slots : List (Option A)) (h n i : ℕ) (v : Option A)
      → length slots ≡ 64
      → h < 64
      → n < 64
      → i ≡ (h + n) % 64
      → window (set slots i v) h (suc n) ≡ window slots h n ++ v ∷ []
  window-store slots h n i v len hh hn e =
      window-snoc (set slots i v) h n i hh e
      ∙ ap₂ (λ l x. l ++ x ∷ []) (window-set slots h n i v hh (omega arith) (omega arith))
          (get_or-set_self slots i v none (omega arith))

  -- The parts of a window that is not empty.
  pub window_uncons :
      (slots : List (Option A)) (h n : ℕ) (v : Option A) (r : List (Option A))
      → window slots h n ≡ v ∷ r
      → (m : ℕ) × (n ≡ suc m) × (get_or slots h none ≡ v) × (window slots ((h + 1) % 64) m ≡ r)
  window_uncons slots h zero v r e = cc
  window_uncons slots h (suc n) v r e = (n, refl, cc, cc)
