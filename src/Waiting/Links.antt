-- ===== src/Waiting/Links.antt =====
-- Chains of nodes.
use powerapi.Prelude.{ℕ, ◌≡◌, ◌≢◌, refl, sym, List, [], ◌∷◌, ◌++◌, arith}
use powerapi.Waiting.{Node, update, set_next, set_prev}

-- The first of the nodes, or what comes after them, and the last, or what comes before.
abbrev pub first : List ℕ → ℕ → ℕ
first [] n = n
first (x ∷ xs) n = x

abbrev pub last : ℕ → List ℕ → ℕ
last p [] = p
last p (x ∷ xs) = last x xs

-- The nodes hang together, `p` before the first and `n` after the last.
abbrev pub Seg : (ℕ → Node) → ℕ → List ℕ → ℕ → Type 0
Seg c p [] n = Unit {0}
Seg c p (x ∷ xs) n = ((c x).prev ≡ p) × ((c x).next ≡ first xs n) × Seg c x xs n

abbrev pub Absent : ℕ → List ℕ → Type 0
Absent a [] = Unit {0}
Absent a (x ∷ xs) = (x ≢ a) × Absent a xs

-- The addresses differ, and none is NULL.
abbrev pub Distinct : List ℕ → Type 0
Distinct [] = Unit {0}
Distinct (x ∷ xs) = (x ≢ 0) × Absent x xs × Distinct xs

pub Seg-append :
    (c : ℕ → Node) (p : ℕ) (ys zs : List ℕ) (n : ℕ)
    → Seg c p (ys ++ zs) n
    → Seg c p ys (first zs n) × Seg c (last p ys) zs n
Seg-append c p [] zs n s = (tt, s)
Seg-append c p (y ∷ []) zs n s = ((s.0, s.1, tt), s.2)
Seg-append c p (y ∷ x ∷ ys) zs n s =
    let r = Seg-append c y (x ∷ ys) zs n s.2 in ((s.0, s.1, r.0), r.1)

pub Seg-concat :
    (c : ℕ → Node) (p : ℕ) (ys zs : List ℕ) (n : ℕ)
    → Seg c p ys (first zs n)
    → Seg c (last p ys) zs n
    → Seg c p (ys ++ zs) n
Seg-concat c p [] zs n s t = t
Seg-concat c p (y ∷ []) zs n s t = (s.0, s.1, t)
Seg-concat c p (y ∷ x ∷ ys) zs n s t = (s.0, s.1, Seg-concat c y (x ∷ ys) zs n s.2 t)

-- A change of a node outside.
pub Seg-update :
    (c : ℕ → Node) (p : ℕ) (xs : List ℕ) (n a : ℕ) (v : Node)
    → Absent a xs
    → Seg c p xs n
    → Seg (update c a v) p xs n
Seg-update c p [] n a v out s = tt
Seg-update c p (x ∷ xs) n a v out s =
    (ground arith, ground arith, Seg-update c x xs n a v out.1 s.2)

pub Absent-last : (a y : ℕ) (ys : List ℕ) → Absent a (y ∷ ys) → last y ys ≢ a
Absent-last a y [] out = out.0
Absent-last a y (x ∷ ys) out = Absent-last a x ys out.1

-- The link out of the last node.
pub Seg-set_next :
    (c : ℕ → Node) (p x : ℕ) (xs : List ℕ) (n m : ℕ)
    → Distinct (x ∷ xs)
    → Seg c p (x ∷ xs) n
    → Seg (set_next c (last x xs) m) p (x ∷ xs) m
Seg-set_next c p x [] n m d s = ground arith
Seg-set_next c p x (y ∷ ys) n m d s =
    let out = Absent-last x y ys d.1 in
    (ground arith, ground arith, Seg-set_next c x y ys n m d.2 s.2)

-- The link out of the first node.
pub Seg-set_prev :
    (c : ℕ → Node) (p q x : ℕ) (xs : List ℕ) (n : ℕ)
    → Distinct (x ∷ xs)
    → Seg c p (x ∷ xs) n
    → Seg (set_prev c x q) q (x ∷ xs) n
Seg-set_prev c p q x xs n d s =
    (ground arith, ground arith, Seg-update c x xs n x (record (c x) { prev = q }) d.1 s.2)

-- No node of the one list is in the other.
abbrev pub Apart : List ℕ → List ℕ → Type 0
Apart [] zs = Unit {0}
Apart (y ∷ ys) zs = Absent y zs × Apart ys zs

pub Absent-append : (a : ℕ) (ys zs : List ℕ) → Absent a (ys ++ zs) → Absent a ys × Absent a zs
Absent-append a [] zs h = (tt, h)
Absent-append a (y ∷ ys) zs h = let r = Absent-append a ys zs h.1 in ((h.0, r.0), r.1)

pub Absent-concat : (a : ℕ) (ys zs : List ℕ) → Absent a ys → Absent a zs → Absent a (ys ++ zs)
Absent-concat a [] zs h k = k
Absent-concat a (y ∷ ys) zs h k = (h.0, Absent-concat a ys zs h.1 k)

pub Distinct-append :
    (ys zs : List ℕ) → Distinct (ys ++ zs) → Distinct ys × Distinct zs × Apart ys zs
Distinct-append [] zs d = (tt, d, tt)
Distinct-append (y ∷ ys) zs d =
    let r = Distinct-append ys zs d.2 in
    let o = Absent-append y ys zs d.1 in ((d.0, o.0, r.0), r.1, (o.1, r.2))

pub Distinct-concat :
    (ys zs : List ℕ) → Distinct ys → Distinct zs → Apart ys zs → Distinct (ys ++ zs)
Distinct-concat [] zs d e a = e
Distinct-concat (y ∷ ys) zs d e a =
    (d.0, Absent-concat y ys zs d.1 a.0, Distinct-concat ys zs d.2 e a.1)

pub Apart-head : (ys : List ℕ) (x : ℕ) (zs : List ℕ) → Apart ys (x ∷ zs) → Absent x ys
Apart-head [] x zs a = tt
Apart-head (y ∷ ys) x zs a = (λ e. a.0.0 (sym e), Apart-head ys x zs a.1)

pub Apart-tail : (ys : List ℕ) (x : ℕ) (zs : List ℕ) → Apart ys (x ∷ zs) → Apart ys zs
Apart-tail [] x zs a = tt
Apart-tail (y ∷ ys) x zs a = (a.0.1, Apart-tail ys x zs a.1)

pub Apart-last : (y : ℕ) (ys zs : List ℕ) → Apart (y ∷ ys) zs → Absent (last y ys) zs
Apart-last y [] zs a = a.0
Apart-last y (x ∷ ys) zs a = Apart-last x ys zs a.1

pub Distinct-last : (y : ℕ) (ys : List ℕ) → Distinct (y ∷ ys) → last y ys ≢ 0
Distinct-last y [] d = d.0
Distinct-last y (x ∷ ys) d = Distinct-last x ys d.2

pub last-append : (p : ℕ) (ys : List ℕ) (z : ℕ) (zs : List ℕ) → last p (ys ++ z ∷ zs) ≡ last z zs
last-append p [] z zs = refl
last-append p (y ∷ ys) z zs = last-append y ys z zs

pub last-nil : (p : ℕ) (ys : List ℕ) → last p (ys ++ []) ≡ last p ys
last-nil p [] = refl
last-nil p (y ∷ ys) = last-nil y ys
