-- ===== src/CpuService/Readings/Attributes.antt =====
-- Which attribute of the processor a line stands for.
use powerapi.Prelude.{
  ℕ, suc, ◌+◌, ◌-◌, ◌≤◌, ◌≡◌, refl, arith, true, false, Option, none, some, List, [], ◌∷◌, ◌++◌,
  ◌==◌, Bool-cases, ==-false, Option-cases, inl, inr, length, ◌∙◌, take, drop,
}
use powerapi.Text.{ltrim}
use powerapi.Config.{codes}
use powerapi.CpuUsage.{has}
use powerapi.CpuService.Readings.{
  CpuInfo, arr_loop, get_cpu_arr_id, cpu_info_copy, copy_numa, read_attribute, read_attributes,
  cpu_info_read, before_colon,
}

arr_loop-found :
    (att a : List ℕ) (i : ℕ) (xs ys : List (List ℕ))
    → has att a ≡ true
    → arr_loop att i (xs ++ a ∷ ys) ≤ i + length xs
unfolding arr_loop
arr_loop-found att a i [] ys h = rw h (omega arith)
arr_loop-found att a i (x ∷ xs) ys h = elim (Bool-cases (has att x)) [
  | inl e ↦ rw e (omega arith)
  | inr e ↦ rw e (omega (arith, arr_loop-found att a (suc i) xs ys h))
]

arr_loop-ge : (att : List ℕ) (i : ℕ) (xs : List (List ℕ)) → i ≤ arr_loop att i xs
unfolding arr_loop
arr_loop-ge att i [] = omega arith
arr_loop-ge att i (x ∷ xs) = elim (Bool-cases (has att x)) [
  | inl e ↦ rw e (omega arith)
  | inr e ↦ rw e (omega (arith, arr_loop-ge att (suc i) xs))
]

arr_loop-at :
    (att a : List ℕ) (i : ℕ) (xs ys : List (List ℕ))
    → arr_loop att i (xs ++ a ∷ ys) ≡ i + length xs
    → has att a ≡ true
unfolding arr_loop
arr_loop-at att a i [] ys h = elim (Bool-cases (has att a)) [
  | inl e ↦ e
  | inr e ↦ absurd (omega (arith, rw e at h, arr_loop-ge att (suc i) ys))
]
arr_loop-at att a i (x ∷ xs) ys h = elim (Bool-cases (has att x)) [
  | inl e ↦ absurd (omega (arith, rw e at h))
  | inr e ↦ arr_loop-at att a (suc i) xs ys (omega (arith, rw e at h))
]

abbrev firsts : List (List ℕ)
firsts =
    codes "Architecture"
    ∷ codes "Model name"
    ∷ codes "Byte Order"
    ∷ codes "NUMA node(s)"
    ∷ codes "NUMA node"
    ∷ []

abbrev lasts : List (List ℕ)
lasts =
    codes "Thread(s) per core" ∷ codes "Core(s) per socket" ∷ codes "max MHz" ∷ codes "min MHz" ∷ []

-- An attribute that names `CPU(s)` is one of the first six.
core_id-le : (att : List ℕ) → has att (codes "CPU(s)") ≡ true → get_cpu_arr_id att ≤ 5
unfolding get_cpu_arr_id
core_id-le att h = arr_loop-found att (codes "CPU(s)") 0 firsts (codes "On-line CPU" ∷ lasts) h

online_id : (att : List ℕ) → get_cpu_arr_id att ≡ 6 → has att (codes "On-line CPU") ≡ true
unfolding get_cpu_arr_id
online_id att h = arr_loop-at att (codes "On-line CPU") 0 (firsts ++ codes "CPU(s)" ∷ []) lasts h

-- The name of the attribute in a line.
abbrev pub attribute : List ℕ → List ℕ
attribute line = ltrim (before_colon line)

-- Every line about the processors that are on line names `CPU(s)` too.
abbrev pub OnlineInCpus : List (List ℕ) → Type 0
OnlineInCpus [] = Unit {0}
OnlineInCpus (line ∷ lines) =
    (has (attribute line) (codes "On-line CPU") ≡ true
      → has (attribute line) (codes "CPU(s)") ≡ true)
    × OnlineInCpus lines

not_online :
    (line : List ℕ)
    → (has (attribute line) (codes "On-line CPU") ≡ true
        → has (attribute line) (codes "CPU(s)") ≡ true)
    → (get_cpu_arr_id (attribute line) == 6) ≡ false
not_online line h =
    ==-false _ 6
      (λ e. omega (arith, core_id-le (attribute line) (h (online_id (attribute line) e))))

module _ {F : Type 0} (atof : List ℕ → F) where
  abbrev Keeps : CpuInfo F → Option (CpuInfo F) → Type 0
  Keeps d none = Unit {0}
  Keeps d (some r) = r.online_list ≡ d.online_list

  Keeps-trans :
      (d d' : CpuInfo F) (o : Option (CpuInfo F))
      → d'.online_list ≡ d.online_list
      → Keeps d' o
      → Keeps d o
  Keeps-trans d d' none e k = tt
  Keeps-trans d d' (some r) e k = k ∙ e

  cpu_info_copy-Keeps :
      (att value : List ℕ) (d : CpuInfo F)
      → (get_cpu_arr_id att == 6) ≡ false
      → Keeps d (cpu_info_copy atof att value d)
  unfolding cpu_info_copy copy_numa
  cpu_info_copy-Keeps att value d h = ground arith

  read_attribute-Keeps :
      (line : List ℕ) (d : CpuInfo F)
      → (get_cpu_arr_id (attribute line) == 6) ≡ false
      → Keeps d (read_attribute atof line d)
  unfolding read_attribute
  read_attribute-Keeps line d h =
      let value = ltrim (drop (length (before_colon line) + 1) line) in
      elim (Bool-cases (length value == 0)) [
        | inl e ↦ rw e tt
        | inr e ↦ rw e (cpu_info_copy-Keeps (attribute line) (take (length value - 1) value) d h)
      ]

  read_attributes-Keeps :
      (lines : List (List ℕ)) (d : CpuInfo F)
      → OnlineInCpus lines
      → Keeps d (read_attributes atof lines d)
  unfolding read_attributes
  read_attributes-Keeps [] d h = refl
  read_attributes-Keeps (line ∷ lines) d h = elim (Option-cases (read_attribute atof line d)) [
    | inl e ↦ rw (e, read_attributes) tt
    | inr (d', e) ↦
        let one : d'.online_list ≡ d.online_list =
          rw e at (read_attribute-Keeps line d (not_online line h.0)) in
        rw (e, read_attributes)
          (Keeps-trans d d' (read_attributes atof lines d') one
            (read_attributes-Keeps lines d' h.1))
  ]

  -- If each line about the processors that are on line names `CPU(s)`, as `lscpu` writes it, then
  -- `CpuInfoRead` does not store the list of these processors: it is what the memory held before.
  pub online_list_unread :
      (lines : List (List ℕ)) (d r : CpuInfo F) (code : ℕ)
      → OnlineInCpus lines
      → cpu_info_read atof (some lines) d ≡ some (code, r)
      → r.online_list ≡ d.online_list
  unfolding cpu_info_read
  online_list_unread lines d r code h e = elim (Option-cases (read_attributes atof lines d)) [
    | inl bad ↦ ground (arith, bad)
    | inr (d', good) ↦
        let kept : d'.online_list ≡ d.online_list = rw good at (read_attributes-Keeps lines d h) in
        ground (arith, good, kept)
  ]
