-- ===== src/Socket/Pieces.antt =====
-- A message of any length is sent as pieces that fit in the buffer.
use powerapi.Prelude.{
  ℕ, zero, suc, ◌+◌, ◌-◌, ◌≤◌, ◌<◌, ◌≡◌, refl, sym, ap, ◌∙◌, some, List, [], ◌∷◌, ◌++◌, arith, ltb,
  leb, take, drop, length, length-append, length-drop, length-take, take-append-drop, inl, inr,
  Bool-cases,
}
use mathlib.Core.List.{append_assoc, append-nil}
use powerapi.Socket.Stream.{joined}
use powerapi.Socket.{max_data_size, piece_loop, pieces}

-- No piece is longer than the buffer.
abbrev pub Short : List (List ℕ) → Type 0
Short [] = Unit {0}
Short (p ∷ ps) = (length p ≤ max_data_size) × Short ps

pub take_all : (n : ℕ) (xs : List ℕ) → length xs ≤ n → take n xs ≡ xs
take_all zero [] h = refl
take_all (suc n) [] h = refl
take_all zero (x ∷ xs) h = absurd (omega (arith, h))
take_all (suc n) (x ∷ xs) h = ap (λ l. x ∷ l) (take_all n xs (omega (arith, h)))

drop_nil : (n : ℕ) → drop {A = ℕ} n [] ≡ []
drop_nil zero = refl
drop_nil (suc n) = refl

drop-drop : (m n : ℕ) (xs : List ℕ) → drop (m + n) xs ≡ drop n (drop m xs)
drop-drop zero n xs = ap (λ k. drop k xs) (omega arith)
drop-drop (suc m) n [] = drop_nil (suc m + n) ∙ sym (drop_nil n)
drop-drop (suc m) n (x ∷ xs) =
    let more : suc m + n ≡ suc (m + n) = omega arith in
    ap (λ k. drop k (x ∷ xs)) more ∙ drop-drop m n xs

loop_whole :
    (fuel : ℕ) (content : List ℕ) (data_sent left_len : ℕ)
    → left_len < fuel
    → length content ≡ data_sent + left_len
    → (ps : List (List ℕ)) × (piece_loop fuel content data_sent left_len ≡ some ps)
      × (joined ps ≡ drop data_sent content)
      × Short ps
unfolding piece_loop
loop_whole zero content d l h e = absurd (omega (arith, h))
loop_whole (suc fuel) content d l h e = elim (Bool-cases (ltb max_data_size l)) [
  | inr short ↦ (
    take l (drop d content) ∷ [],
    rw short refl,
    append-nil _ ∙ take_all l (drop d content) (omega (arith, e, length-drop d content)),
    (ground (arith, length-take l (drop d content), short), tt),
  )
  | inl long ↦
      let (ps, run, whole, fits) =
        loop_whole fuel content (d + max_data_size) (l - max_data_size) (ground (arith, long))
          (ground (arith, long, e)) in
      let here = drop d content in
      (
        take max_data_size here ∷ ps,
        rw (long, run) refl,
        ap (λ r. take max_data_size here ++ r) (whole ∙ drop-drop d max_data_size content)
            ∙ take-append-drop max_data_size here,
        (omega (arith, length-take max_data_size here), fits),
      )
]

-- The pieces that `ProcessSendMsgToClient` sends for a message are together its head and its
-- payload, and none is longer than the buffer that they are copied to. The loop ends.
pub pieces_whole :
    (head_bytes content : List ℕ) (data_len : ℕ)
    → length head_bytes ≤ max_data_size
    → length content ≡ data_len
    → (ps : List (List ℕ)) × (pieces head_bytes content data_len ≡ some ps)
      × (joined ps ≡ head_bytes ++ content)
      × Short ps
unfolding pieces
pieces_whole head_bytes content n hh hc =
    elim (Bool-cases (leb (length head_bytes + n) max_data_size)) [
      | inl one ↦ (
        (head_bytes ++ take n content) ∷ [],
        rw one refl,
        append-nil _ ∙ ap (λ r. head_bytes ++ r) (take_all n content (omega (arith, hc))),
        (ground (arith, one, length-append head_bytes (take n content), length-take n content), tt),
      )
      | inr more ↦
          let room = max_data_size - length head_bytes in
          let (ps, run, whole, fits) =
            loop_whole (suc n) content room (length head_bytes + n - max_data_size)
              (ground (arith, more)) (ground (arith, more, hc)) in
          (
            (head_bytes ++ take room content) ∷ ps,
            rw (more, run) refl,
            append_assoc head_bytes (take room content) (joined ps)
                ∙ ap (λ r. head_bytes ++ r)
                    (ap (λ r. take room content ++ r) whole ∙ take-append-drop room content),
            (
              omega (
                arith,
                hh,
                length-append head_bytes (take room content),
                length-take room content,
              ),
              fits,
            ),
          )
    ]
