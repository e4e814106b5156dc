-- ===== src/Socket/Stream.antt =====
-- However the system cuts the bytes, they arrive, and go out, whole and in order.
use powerapi.Prelude.{
  ℕ, zero, suc, ◌+◌, ◌-◌, ◌<◌, ◌≡◌, refl, ap, Option, some, List, [], ◌∷◌, ◌++◌, map, arith, drop,
  length, length-append, length-drop, take-append-drop,
}
use powerapi.Socket.{Recv, got, received, read_msg, sent, write_msg}

-- Each cut has a byte at least.
abbrev pub Cuts : List (List ℕ) → Type 0
Cuts [] = Unit {0}
Cuts (c ∷ cs) = (0 < length c) × Cuts cs

abbrev pub joined : List (List ℕ) → List ℕ
joined [] = []
joined (c ∷ cs) = c ++ joined cs

-- If the answers of `recv` cut the bytes of a message in any way, `ReadMsg` returns these bytes, and
-- leaves what comes after them.
pub read_msg_whole :
    (cuts : List (List ℕ)) (rest : List Recv)
    → Cuts cuts
    → read_msg (length (joined cuts)) (map got cuts ++ rest) ≡ received (joined cuts) rest
unfolding read_msg
read_msg_whole [] rest c = refl
read_msg_whole ([] ∷ cuts) rest c = absurd (omega (arith, c.0))
read_msg_whole ((b ∷ bytes) ∷ cuts) rest c =
    let left : length (bytes ++ joined cuts) - length bytes ≡ length (joined cuts) =
      omega (arith, length-append bytes (joined cuts)) in
    rw (left, read_msg_whole cuts rest c.1) refl

abbrev pub total : List ℕ → ℕ
total [] = 0
total (n ∷ ns) = n + total ns

abbrev pub Progress : List ℕ → Type 0
Progress [] = Unit {0}
Progress (n ∷ ns) = (0 < n) × Progress ns

-- If `send` takes some bytes each time, and all bytes in the end, then exactly the bytes given to
-- `WriteMsg` go out, in their order.
pub write_msg_whole :
    (content taken : List ℕ) (rest : List (Option ℕ))
    → Progress taken
    → total taken ≡ length content
    → write_msg content (length content) (map some taken ++ rest) ≡ sent content rest
unfolding write_msg
write_msg_whole [] [] rest p e = refl
write_msg_whole [] (zero ∷ ns) rest p e = absurd (omega (arith, p.0))
write_msg_whole [] (suc n ∷ ns) rest p e = absurd (omega (arith, e))
write_msg_whole (b ∷ content) [] rest p e = absurd (omega (arith, e))
write_msg_whole (b ∷ content) (zero ∷ ns) rest p e = absurd (omega (arith, p.0))
write_msg_whole (b ∷ content) (suc n ∷ ns) rest p e =
    let after = drop n content in
    let left : length content - n ≡ length after = omega (arith, length-drop n content) in
    rw (left, write_msg_whole after ns rest p.1 (omega (arith, e, length-drop n content)))
      (ap (λ l. sent (b ∷ l) rest) (take-append-drop n content))
