-- ===== src/CpuService/Deciding.antt =====
-- What the requests to read and to set frequencies and governors come to.
use powerapi.Prelude.{
  ℕ, zero, suc, ◌≡◌, ◌≢◌, refl, sym, ap, ◌∙◌, Bool, true, false, Option, none, some, List, [], ◌∷◌,
  arith, ◌==◌, ==_iff, replicate, Bool-cases, inl, inr, take,
}
use powerapi.Prelude.Int.{ℤ}
use powerapi.Codes.{success, err_invalide_param, err_policy_invalide}
use powerapi.Text.{in_int_range}
use powerapi.CpuService.{
  CurFreq, FreqRange, check_ids, check_policys, input_target_policys, check_freq_in_range,
  governor_test, set_cpu_freq_test, set_cpu_freq, Reading, reads, answers, crash, get_cpu_freq,
  read_merged, merge_duplicate_policys, all_available, set_governors, governor_set,
}

read_of : Reading → List (List ℕ)
read_of (reads l) = l
read_of (answers c) = []
read_of crash = []

reads-injective : {a b : List (List ℕ)} → reads a ≡ reads b → a ≡ b
unfolding read_of
reads-injective e = ap read_of e

module _ {F : Type 0} where
  check_ids-ne-one : (ps : List ℤ) (l : List (CurFreq F)) → (check_ids ps l == 1) ≡ false
  unfolding check_ids
  check_ids-ne-one ps [] = refl
  check_ids-ne-one ps (x ∷ l) = elim (Bool-cases (in_int_range ps x.policy_id == 1)) [
    | inl e ↦ rw e refl
    | inr e ↦ rw e (check_ids-ne-one ps l)
  ]

  first_only :
      (name : ℤ → List ℕ) (x : CurFreq F) (l : List (CurFreq F)) (n : ℕ)
      → input_target_policys name (x ∷ l) n ≡ replicate n (name x.policy_id)
  unfolding input_target_policys
  first_only name x l zero = refl
  first_only name x l (suc n) = ap (λ r. name x.policy_id ∷ r) (first_only name x l n)

  read_merged_first :
      (name : ℤ → List ℕ) (policys : Option (List ℤ)) (x : CurFreq F) (l : List (CurFreq F)) (n : ℕ)
      (names : List (List ℕ))
      → read_merged name policys (x ∷ l, n) ≡ reads names
      → names ≡ replicate n (name x.policy_id)
  unfolding read_merged
  read_merged_first name policys x l n names e =
      elim (Bool-cases (check_policys policys (take n (x ∷ l)) == 0)) [
        | inl p ↦
            let e' : reads (input_target_policys name (x ∷ l) n) ≡ reads names = rw p at e in
            sym (reads-injective e') ∙ first_only name x l n
        | inr p ↦ let e' : answers err_policy_invalide ≡ reads names = rw p at e in absurd (cc)
      ]

  -- When `GetCpuFreq` reads the policies that a request names, it reads the first of them as often
  -- as there are policies after merging, and no other.
  pub reads_first_only :
      (name : ℤ → List ℕ) (cpu_num : ℕ) (policys : Option (List ℤ)) (found : Option (List (List ℕ)))
      (data_len n : ℕ) (target : List (CurFreq F)) (x : CurFreq F) (l : List (CurFreq F))
      (names : List (List ℕ))
      → merge_duplicate_policys true cpu_num target ≡ some (x ∷ l, n)
      → get_cpu_freq name true cpu_num policys found (suc data_len) (some target) ≡ reads names
      → names ≡ replicate n (name x.policy_id)
  unfolding get_cpu_freq
  reads_first_only name cpu_num policys found data_len n target x l names m e =
      let e' : read_merged name policys (x ∷ l, n) ≡ reads names = rw (m, get_cpu_freq) at e in
      read_merged_first name policys x l n names e'

module _ {F : Type 0} (below : F → F → Bool) where
  governor_test-ids :
      (gov : Option Bool) (ps qs : List ℤ) (l : List (CurFreq F))
      → governor_test below gov (some ps) l ≡ governor_test below gov (some qs) l
  unfolding governor_test
  governor_test-ids none ps qs l = refl
  governor_test-ids (some u) ps qs l = rw (check_ids-ne-one ps l, check_ids-ne-one qs l)

  -- Where the policies of the system can be read, `SetCpuFreq` does the same whatever they are: it
  -- never refuses an id that is none of them.
  pub set_cpu_freq_any_id :
      (khz : F → ℤ) (gov : Option Bool) (ps qs : List ℤ) (range : Option (FreqRange F))
      (opens : List Bool) (l : List (CurFreq F))
      → set_cpu_freq below khz gov (some ps) range opens l
        ≡ set_cpu_freq below khz gov (some qs) range opens l
  unfolding set_cpu_freq set_cpu_freq_test
  set_cpu_freq_any_id khz gov ps qs none opens l = refl
  set_cpu_freq_any_id khz gov ps qs (some r) opens l = rw (governor_test-ids gov ps qs l)

  abbrev pub AllIn : FreqRange F → List (CurFreq F) → Type 0
  AllIn r [] = Unit {0}
  AllIn r (x ∷ l) =
      (below x.cur_freq r.min_freq ≡ false) × (below r.max_freq x.cur_freq ≡ false) × AllIn r l

  check_freq_in_range-AllIn :
      (l : List (CurFreq F)) (r : FreqRange F)
      → (check_freq_in_range below l r == 0) ≡ true
      → AllIn r l
  unfolding check_freq_in_range
  check_freq_in_range-AllIn [] r e = tt
  check_freq_in_range-AllIn (x ∷ l) r e = elim (Bool-cases (below x.cur_freq r.min_freq)) [
    | inl p ↦ let e' : false ≡ true = rw p at e in absurd (cc)
    | inr p ↦ elim (Bool-cases (below r.max_freq x.cur_freq)) [
      | inl q ↦ let e' : false ≡ true = rw (p, q) at e in absurd (cc)
      | inr q ↦
          let e' : (check_freq_in_range below l r == 0) ≡ true = rw (p, q) at e in
          (p, q, check_freq_in_range-AllIn l r e')
    ]
  ]

  userspace_only :
      (gov : Option Bool) (ps : Option (List ℤ)) (l : List (CurFreq F))
      → governor_test below gov ps l ≡ 0
      → gov ≡ some true
  unfolding governor_test
  userspace_only none ps l e = absurd (omega (arith, e))
  userspace_only (some u) ps l e = ground arith

  -- `SetCpuFreq` gives a command only where the governor was read as userspace and the range of the
  -- frequency was read, and only if all frequencies of the request lie in it.
  pub commands_allowed :
      (khz : F → ℤ) (gov : Option Bool) (ps : Option (List ℤ)) (range : Option (FreqRange F))
      (opens : List Bool) (l : List (CurFreq F))
      → (set_cpu_freq below khz gov ps range opens l).1 ≢ []
      → (gov ≡ some true) × ((r : FreqRange F) × (range ≡ some r) × AllIn r l)
  unfolding set_cpu_freq set_cpu_freq_test
  commands_allowed khz gov ps none opens l h = absurd (h refl)
  commands_allowed khz gov ps (some r) opens l h =
      elim (Bool-cases (check_freq_in_range below l r == 0)) [
        | inr e ↦ absurd (h (rw e refl))
        | inl e ↦ elim (Bool-cases (governor_test below gov ps l == 0)) [
          | inl g ↦ (
            userspace_only gov ps l ((==_iff _ 0).0 g),
            (r, refl, check_freq_in_range-AllIn l r e),
          )
          | inr g ↦ absurd (h (rw (e, g) refl))
        ]
      ]

abbrev pub AllAvailable : (List ℕ → ℕ) → List (List ℕ) → Type 0
AllAvailable check [] = Unit {0}
AllAvailable check (p ∷ policys) = (check p ≡ 0) × AllAvailable check policys

all_available-AllAvailable :
    (check : List ℕ → ℕ) (policys : List (List ℕ))
    → all_available check policys ≡ true
    → AllAvailable check policys
unfolding all_available
all_available-AllAvailable check [] e = tt
all_available-AllAvailable check (p ∷ policys) e = elim (Bool-cases (check p == 0)) [
  | inl q ↦
      let e' : all_available check policys ≡ true = rw q at e in
      ((==_iff (check p) 0).0 q, all_available-AllAvailable check policys e')
  | inr q ↦ let e' : false ≡ true = rw q at e in absurd (cc)
]

set_governors_all :
    (opens : List Bool) (policys : List (List ℕ))
    → (set_governors opens policys).0 ≡ success
    → (set_governors opens policys).1 ≡ policys
unfolding set_governors
set_governors_all opens [] e = refl
set_governors_all [] (p ∷ policys) e = absurd (omega (arith, e))
set_governors_all (false ∷ opens) (p ∷ policys) e = absurd (omega (arith, e))
set_governors_all (true ∷ opens) (p ∷ policys) e =
    ap (λ r. p ∷ r) (set_governors_all opens policys e)

set_part :
    (check : List ℕ → ℕ) (malloc : Bool) (opens : List Bool) (policys : List (List ℕ))
    → all_available check policys ≡ true
    → (governor_set check malloc opens policys).0 ≡ success
    → (governor_set check malloc opens policys).1 ≡ policys
unfolding governor_set
set_part check true opens policys e s =
    let s' : (set_governors opens policys).0 ≡ success = rw e at s in
    rw e (set_governors_all opens policys s')
set_part check false opens policys e s =
    let s' : 1 ≡ success = rw e at s in absurd (omega (arith, s'))

refused :
    (check : List ℕ → ℕ) (malloc : Bool) (opens : List Bool) (policys : List (List ℕ))
    → all_available check policys ≡ false
    → (governor_set check malloc opens policys).0 ≢ success
unfolding governor_set
refused check malloc opens policys e s =
    let s' : err_invalide_param ≡ success = rw e at s in absurd (omega (arith, s'))

-- `GovernorSet` sets a governor only if it is available for all the policies, and answers with
-- SUCCESS only if it has set it for all of them.
pub governor_set_all :
    (check : List ℕ → ℕ) (malloc : Bool) (opens : List Bool) (policys : List (List ℕ))
    → ((governor_set check malloc opens policys).1 ≢ [] → AllAvailable check policys)
      × ((governor_set check malloc opens policys).0 ≡ success
          → (governor_set check malloc opens policys).1 ≡ policys)
unfolding governor_set
governor_set_all check malloc opens policys = elim (Bool-cases (all_available check policys)) [
  | inl e ↦ (λ h. all_available-AllAvailable check policys e, set_part check malloc opens policys e)
  | inr e ↦ (λ h. absurd (h (rw e refl)), λ s. absurd (refused check malloc opens policys e s))
]
