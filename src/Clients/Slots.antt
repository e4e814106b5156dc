-- ===== src/Clients/Slots.antt =====
-- The slots of a well-formed client table: each is free in both fields or in none, and no two
-- connected slots have one id.
use powerapi.Prelude.{
  ℕ, zero, suc, ◌<◌, ◌≡◌, ◌≢◌, ◌⊎◌, refl, Bool, true, false, none, some, List, [], ◌∷◌, arith, ◌==◌,
  get_or, set, length, map, Option-cases, inl, inr,
}
use powerapi.Clients.{
  PwrClient, max_client_num, invalid_fd, invalid_index, no_client, find_slot, close_slot,
}

-- No slot has the id.
abbrev pub Absent : ℕ → List PwrClient → Type 0
Absent s [] = Unit {0}
Absent s (c ∷ cs) = (c.sys_id ≢ s) × Absent s cs

abbrev pub Slot : PwrClient → Type 0
Slot c =
    ((c.fd ≡ invalid_fd) × (c.sys_id ≡ invalid_index))
    ⊎ ((c.fd ≢ invalid_fd) × (c.sys_id ≢ invalid_index))

abbrev pub AllSlots : List PwrClient → Type 0
AllSlots [] = Unit {0}
AllSlots (c ∷ cs) = Slot c × ((c.sys_id ≡ invalid_index) ⊎ Absent c.sys_id cs) × AllSlots cs

pub record IsValid (cs : List PwrClient) : Type 0 where
  pub size : length cs ≡ max_client_num
  pub slots : AllSlots cs

pub not_found :
    (s : ℕ) (cs : List PwrClient) → find_slot (λ c. c.sys_id == s) cs ≡ none → Absent s cs
unfolding find_slot
not_found s [] e = tt
not_found s (c ∷ cs) e = elim (Option-cases (find_slot (λ x. x.sys_id == s) cs)) [
  | inl missing ↦ ground (arith, not_found s cs missing)
  | inr (i, found) ↦ ground (arith, found)
]

-- A hit in the tail of the table.
pub find_tail :
    (test : PwrClient → Bool) (c : PwrClient) (cs : List PwrClient) (i : ℕ)
    → find_slot test (c ∷ cs) ≡ some (suc i)
    → (test c ≡ false) × (find_slot test cs ≡ some i)
unfolding find_slot
find_tail test c cs i e = elim (Option-cases (find_slot test cs)) [
  | inl missing ↦ absurd (ground (arith, missing))
  | inr (j, found) ↦ ground (arith, found)
]

pub find_head :
    (test : PwrClient → Bool) (c : PwrClient) (cs : List PwrClient)
    → find_slot test (c ∷ cs) ≡ some 0
    → test c ≡ true
unfolding find_slot
find_head test c cs e = elim (Option-cases (find_slot test cs)) [
  | inl missing ↦ ground (arith, missing)
  | inr (j, found) ↦ ground (arith, found)
]

Absent-set :
    (s : ℕ) (cs : List PwrClient) (i : ℕ) (v : PwrClient)
    → v.sys_id ≢ s
    → Absent s cs
    → Absent s (set cs i v)
Absent-set s [] i v ne a = tt
Absent-set s (c ∷ cs) zero v ne a = (ne, a.1)
Absent-set s (c ∷ cs) (suc i) v ne a = (a.0, Absent-set s cs i v ne a.1)

Absent-invalid :
    (cs : List PwrClient) (i s : ℕ)
    → s ≢ invalid_index
    → Absent s cs
    → Absent s (set cs i no_client)
Absent-invalid cs i s ne a = Absent-set s cs i no_client (λ e. ne (ground (arith, e))) a

Absent-reconnect :
    (s : ℕ) (cs : List PwrClient) (i fd : ℕ)
    → Absent s cs
    → Absent s (set cs i (record (get_or cs i no_client) { fd = fd }))
Absent-reconnect s [] i fd a = tt
Absent-reconnect s (c ∷ cs) zero fd a = a
Absent-reconnect s (c ∷ cs) (suc i) fd a = (a.0, Absent-reconnect s cs i fd a.1)

-- A new descriptor for a client of the table.
pub AllSlots-reconnect :
    (cs : List PwrClient) (i s fd : ℕ)
    → fd ≢ invalid_fd
    → s ≢ invalid_index
    → find_slot (λ c. c.sys_id == s) cs ≡ some i
    → AllSlots cs
    → AllSlots (set cs i (record (get_or cs i no_client) { fd = fd }))
AllSlots-reconnect [] i s fd hf hs e v = tt
AllSlots-reconnect (c ∷ cs) zero s fd hf hs e v =
    ground (arith, find_head (λ x. x.sys_id == s) c cs e)
AllSlots-reconnect (c ∷ cs) (suc i) s fd hf hs e v = (
  v.0,
  ground (arith, Absent-reconnect c.sys_id cs i fd),
  AllSlots-reconnect cs i s fd hf hs (find_tail (λ x. x.sys_id == s) c cs i e).1 v.2,
)

-- A client in a free slot.
pub AllSlots-new :
    (cs : List PwrClient) (i : ℕ) (new : PwrClient)
    → new.fd ≢ invalid_fd
    → new.sys_id ≢ invalid_index
    → Absent new.sys_id cs
    → AllSlots cs
    → AllSlots (set cs i new)
AllSlots-new [] i new hf hs a v = tt
AllSlots-new (c ∷ cs) zero new hf hs a v = (inr (hf, hs), inr a.1, v.2)
AllSlots-new (c ∷ cs) (suc i) new hf hs a v = (
  v.0,
  elim v.1 [
    | inl e ↦ inl e
    | inr b ↦ inr (Absent-set c.sys_id cs i new (λ e. a.0 (ground (arith, e))) b)
  ],
  AllSlots-new cs i new hf hs a.1 v.2,
)

pub AllSlots-delete : (cs : List PwrClient) (i : ℕ) → AllSlots cs → AllSlots (set cs i no_client)
AllSlots-delete [] i v = tt
AllSlots-delete (c ∷ cs) zero v = (inl (refl, refl), inl refl, v.2)
AllSlots-delete (c ∷ cs) (suc i) v =
    (v.0, ground (arith, Absent-invalid cs i c.sys_id), AllSlots-delete cs i v.2)

Absent-close :
    (s : ℕ) (cs : List PwrClient) → s ≢ invalid_index → Absent s cs → Absent s (map close_slot cs)
unfolding close_slot
Absent-close s [] ne a = tt
Absent-close s (c ∷ cs) ne a = (ground arith, Absent-close s cs ne a.1)

pub AllSlots-close : (cs : List PwrClient) → AllSlots cs → AllSlots (map close_slot cs)
unfolding close_slot
AllSlots-close [] v = tt
AllSlots-close (c ∷ cs) v =
    (ground arith, ground (arith, Absent-close c.sys_id cs), AllSlots-close cs v.2)

pub Absent-get :
    (s : ℕ) (cs : List PwrClient) (i : ℕ)
    → i < length cs
    → Absent s cs
    → (get_or cs i no_client).sys_id ≢ s
Absent-get s [] i h a = absurd (ground arith)
Absent-get s (c ∷ cs) zero h a = a.0
Absent-get s (c ∷ cs) (suc i) h a = Absent-get s cs i (omega arith) a.1
