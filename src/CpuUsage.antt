-- ===== src/CpuUsage.antt =====
-- The usage of the processors, `CPUUsageRead` of pwrapis/src/cpuservice.c, from two readings of
-- /proc/stat. `F` stands for double, with 1 - a / b for two counts; what `strtoul` reads is an
-- argument, and so are the lines that `fgets` gives from each reading, `none` where `popen` fails.
-- A result `none` stands for a read or write outside the memory that the code may use.
pub mod Cores
pub mod Tests
use powerapi.Prelude.{
  ℕ, zero, suc, ◌+◌, ◌%◌, ◌^◌, Bool, true, false, not, ◌||◌, Option, none, some, List, [], ◌∷◌,
  ◌==◌, if◌then◌else◌, ltb, length, get_or, set, take, drop, replicate, map,
}
use powerapi.Prelude.Int.{ℤ, pos, negsuc, sub_u64}
use powerapi.Codes.{success, err_common}
use powerapi.Text.{str_match, delete_substr, c_str, same_ℤ}

abbrev pub cpu_usage_column : ℕ
cpu_usage_column = 8

abbrev pub cpu_idle_column : ℕ
cpu_idle_column = 4

abbrev pub blank : ℕ
blank = 32

-- `strstr`, as a test.
abbrev pub has : List ℕ → List ℕ → Bool
has [] sub = false
has (c ∷ s) sub = elim (str_match (c ∷ s) sub) [ none ↦ has s sub | some rest ↦ true ]

abbrev pub skip_blanks : List ℕ → List ℕ
skip_blanks [] = []
skip_blanks (c ∷ s) = let rest = skip_blanks s in if c == blank then rest else c ∷ s

abbrev pub prepend : ℕ → Option (List ℕ × List ℕ) → Option (List ℕ × List ℕ)
prepend c none = none
prepend c (some (f, s)) = some (c ∷ f, s)

-- The field up to the next blank, and what follows the blanks; `none` where the line has no blank left.
unfoldable pub field : List ℕ → Option (List ℕ × List ℕ)
field [] = none
field (c ∷ s) =
    let rest = prepend c (field s) in if c == blank then some ([], skip_blanks s) else rest

abbrev pub cpu_name : List ℕ
cpu_name = b'c' ∷ b'p' ∷ b'u' ∷ []

-- A text in a buffer of 1000 bytes, most of them 0, without the part `cpu`.
unfoldable pub core_number : List ℕ → List ℕ
unfolding delete_substr
core_number name = elim (delete_substr name cpu_name (replicate 3 0)) [
  | none ↦ name
  | some (_, bytes) ↦ c_str bytes
]

-- What is stored in `coreUsage`.
pub record CoreUsage (F : Type 0) : Type 0 where
  pub core_no : ℕ
  pub usage : F

pub record Usage (F : Type 0) : Type 0 where
  pub avg_usage : F
  pub core_num : ℕ
  pub core_usage : List (CoreUsage F)

-- `paras[2][CPU_USAGE_COLUMN]`, and the number behind it.
pub record Paras : Type 0 where
  pub first : List ℕ
  pub second : List ℕ
  pub behind : ℕ

-- Nine numbers stored from the start of a row of eight on.
abbrev pub write_first : Paras → List ℕ → Paras
write_first p [] = p
write_first p (v ∷ vs) = record p {
  first = take cpu_usage_column (v ∷ vs);
  second = set p.second 0 (get_or (v ∷ vs) cpu_usage_column 0);
}

abbrev pub write_second : Paras → List ℕ → Paras
write_second p [] = p
write_second p (v ∷ vs) = record p {
  second = take cpu_usage_column (v ∷ vs);
  behind = get_or (v ∷ vs) cpu_usage_column 0;
}

abbrev pub sum : List ℕ → ℕ
sum [] = 0
sum (n ∷ ns) = n + sum ns

module _ (strtoul : List ℕ → ℕ) where
  -- The fields of a line, as numbers.
  unfoldable pub numbers : ℕ → List ℕ → Option (List ℕ)
  unfolding field
  numbers zero s = some []
  numbers (suc n) s = elim (field s) [
    | none ↦ none
    | some (f, rest) ↦ elim (numbers n rest) [ none ↦ none | some vs ↦ some (strtoul f ∷ vs) ]
  ]

  -- What is returned, and the nine numbers stored, where any are. In line 0 the first of them stays
  -- `old`.
  unfoldable pub usage_to_long : List ℕ → ℕ → ℕ → Option (ℤ × List ℕ)
  unfolding numbers core_number
  usage_to_long buf line old = elim (field buf) [
    | none ↦ none
    | some (name, rest) ↦
        if not (line == 0 || has name cpu_name)
        then some (negsuc 1, [])
        else elim (numbers cpu_usage_column rest) [
          | none ↦ none
          | some vs ↦ some (
            if line == 0 then negsuc 0 else pos (strtoul (core_number name)),
            (if line == 0 then old else strtoul (core_number name)) ∷ vs,
          )
        ]
  ]

  module _ {F : Type 0} (one_minus : ℕ → ℕ → F) where
    -- The sums leave out the first column; `none` where the number of a core is no index.
    unfoldable pub calculate_usage : Usage F → Paras → ℕ → Option (Usage F)
    calculate_usage rst_data p i =
        let sum1 = sum (drop 1 p.first) % 2 ^ 64 in
        let sum2 = sum (drop 1 p.second) % 2 ^ 64 in
        let idle = sub_u64 (get_or p.second cpu_idle_column 0) (get_or p.first cpu_idle_column 0) in
        let usage = one_minus idle (sub_u64 sum2 sum1) in
        let core = get_or p.first 0 0 in
        if i == 0
        then some (record rst_data { avg_usage = usage })
        else if ltb core (length rst_data.core_usage)
        then some (record rst_data {
          core_usage = set rst_data.core_usage core (record { core_no = core; usage = usage });
        })
        else none

    -- The loop, with `left` lines left; the first reading is looked at first.
    unfoldable pub usage_loop :
        ℕ → ℕ → List (List ℕ) → List (List ℕ) → Paras → Usage F → Option (ℕ × Usage F)
    usage_loop zero i lines1 lines2 p rst_data = some (success, rst_data)
    usage_loop (suc left) i [] lines2 p rst_data = some (err_common, rst_data)
    usage_loop (suc left) i (buf1 ∷ lines1) [] p rst_data = some (err_common, rst_data)
    usage_loop (suc left) i (buf1 ∷ lines1) (buf2 ∷ lines2) p rst_data =
        elim (usage_to_long buf1 i (get_or p.first 0 0)) [
          | none ↦ none
          | some (code1, vs1) ↦
              elim (usage_to_long buf2 i (get_or (write_first p vs1).second 0 0)) [
                | none ↦ none
                | some (code2, vs2) ↦ elim (same_ℤ code1 code2) [
                  | false ↦ some (err_common, rst_data)
                  | true ↦
                      elim (calculate_usage rst_data (write_second (write_first p vs1) vs2) i) [
                        | none ↦ none
                        | some rst_data' ↦
                            usage_loop left (suc i) lines1 lines2
                              (write_second (write_first p vs1) vs2) rst_data'
                      ]
                ]
              ]
        ]

    unfoldable pub cpu_usage_read :
        Option (List (List ℕ)) → Option (List (List ℕ)) → Paras → Usage F → ℕ → Option (ℕ × Usage F)
    unfolding usage_loop
    cpu_usage_read none fp2 junk rst_data core_num = some (err_common, rst_data)
    cpu_usage_read (some lines1) none junk rst_data core_num = some (err_common, rst_data)
    cpu_usage_read (some lines1) (some lines2) junk rst_data core_num =
        usage_loop (core_num + 1) 0 lines1 lines2 junk (record rst_data { core_num = core_num })
