-- ===== src/Socket/Tests.antt =====
-- Four bytes that go over a connection in two parts.
use powerapi.Prelude.{ℕ, ◌≡◌, refl, some, List, [], ◌∷◌, arith}
use powerapi.Socket.{pieces}
use powerapi.Socket.Stream.{joined}
use powerapi.Socket.Pieces.{Short, pieces_whole}

pieces_whole_example :
    (ps : List (List ℕ)) × (pieces (7 ∷ 7 ∷ []) (1 ∷ 2 ∷ 3 ∷ []) 3 ≡ some ps)
    × (joined ps ≡ 7 ∷ 7 ∷ 1 ∷ 2 ∷ 3 ∷ [])
    × Short ps
pieces_whole_example = pieces_whole (7 ∷ 7 ∷ []) (1 ∷ 2 ∷ 3 ∷ []) 3 (omega arith) refl
