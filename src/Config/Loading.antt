-- ===== src/Config/Loading.antt =====
-- What the settings are after the file is loaded.
use mathlib.Core.Option
use mathlib.Core.Path.{subst}
use powerapi.Prelude.{
  ◌<◌, ◌-◌, ◌*◌, ◌^◌, ◌&&◌, ℕ, ◌≤◌, ◌≡◌, refl, Bool, true, Option, none, some, List, [], ◌∷◌, arith,
  leb, Bool-cases, inl, inr, ◌⊎◌,
}
use powerapi.Config.{
  Settings, CnfItemType, fls, cnt, lgv, lgp, bkp, pfx, svp, skf, int_value, number_ok, file_size,
  string_to_enum, Line, skipped, faulty, item, parse_line, update_log_cfg, update_serv_cfg,
  init_log_cfg, init_serv_cfg, load_type, load_loop,
}

-- The count of old files is a positive int, the size of a file is that of one to 2047 megabytes, less
-- the length of a line, and the port is one.
pub record IsValid (g : Settings) : Type 0 where
  pub some_files : 1 ≤ g.log.max_cmp_cnt
  pub int_files : g.log.max_cmp_cnt < 2 ^ 31
  pub size_above : 1_048_320 ≤ g.log.max_file_size
  pub size_below : g.log.max_file_size ≤ 2047 * 1_048_576 - 256
  pub real_port : g.serv.port ≤ 65_535

-- What `InitConfig` sets before it loads the file, from the file's checksum.
unfoldable pub initial : List ℕ → Settings
initial md5 = record { log = init_log_cfg; serv = init_serv_cfg; last_md5 = md5 }

initial-IsValid : (md5 : List ℕ) → IsValid (initial md5)
unfolding initial init_log_cfg init_serv_cfg file_size
initial-IsValid md5 = record {
  some_files = omega arith;
  int_files = omega arith;
  size_above = omega arith;
  size_below = omega arith;
  real_port = omega arith;
}

number_ok-le :
    (low : ℕ) (value : List ℕ)
    → number_ok low value ≡ true
    → (low ≤ int_value value) × (int_value value < 2 ^ 31)
number_ok-le low value e = ground (arith, e)

file_size_range :
    (mb : ℕ)
    → 1 ≤ mb
    → mb ≤ 2047
    → (1_048_320 ≤ file_size mb) × (file_size mb ≤ 2047 * 1_048_576 - 256)
unfolding file_size
file_size_range mb low high = ground arith

-- An item that does not give a file size above 2047 megabytes.
abbrev pub SmallItem : Option CnfItemType → List ℕ → Type 0
SmallItem (some fls) value = int_value value ≤ 2047
SmallItem type value = Unit {0}

abbrev pub SmallLine : Line → Type 0
SmallLine (item key value) = SmallItem (string_to_enum key) value
SmallLine line = Unit {0}

-- No line gives such a size.
abbrev pub SmallSizes : List (List ℕ) → Type 0
SmallSizes [] = Unit {0}
SmallSizes (line ∷ lines) = SmallLine (parse_line line) × SmallSizes lines

load_type-IsValid :
    (exists : List ℕ → Bool) (type : Option CnfItemType) (value : List ℕ) (g : Settings)
    → SmallItem type value
    → IsValid g
    → IsValid (load_type exists type value g)
unfolding update_log_cfg update_serv_cfg
load_type-IsValid exists none value g small v = v
load_type-IsValid exists (some fls) value g small v = elim (Bool-cases (number_ok 1 value)) [
  | inl e ↦ rw e (record {
    some_files = v.some_files;
    int_files = v.int_files;
    size_above = (file_size_range (int_value value) (number_ok-le 1 value e).0 small).0;
    size_below = (file_size_range (int_value value) (number_ok-le 1 value e).0 small).1;
    real_port = v.real_port;
  })
  | inr e ↦ rw e v
]
load_type-IsValid exists (some cnt) value g small v = elim (Bool-cases (number_ok 1 value)) [
  | inl e ↦ rw e (record {
    some_files = (number_ok-le 1 value e).0;
    int_files = (number_ok-le 1 value e).1;
    size_above = v.size_above;
    size_below = v.size_below;
    real_port = v.real_port;
  })
  | inr e ↦ rw e v
]
load_type-IsValid exists (some lgv) value g small v = elim (Bool-cases (number_ok 0 value)) [
  | inl e ↦ rw e (record {
    some_files = v.some_files;
    int_files = v.int_files;
    size_above = v.size_above;
    size_below = v.size_below;
    real_port = v.real_port;
  })
  | inr e ↦ rw e v
]
load_type-IsValid exists (some lgp) value g small v = record {
  some_files = v.some_files;
  int_files = v.int_files;
  size_above = v.size_above;
  size_below = v.size_below;
  real_port = v.real_port;
}
load_type-IsValid exists (some bkp) value g small v = record {
  some_files = v.some_files;
  int_files = v.int_files;
  size_above = v.size_above;
  size_below = v.size_below;
  real_port = v.real_port;
}
load_type-IsValid exists (some pfx) value g small v = record {
  some_files = v.some_files;
  int_files = v.int_files;
  size_above = v.size_above;
  size_below = v.size_below;
  real_port = v.real_port;
}
load_type-IsValid exists (some svp) value g small v =
    elim (Bool-cases (number_ok 0 value && leb (int_value value) 65_535)) [
      | inl e ↦ rw e (record {
        some_files = v.some_files;
        int_files = v.int_files;
        size_above = v.size_above;
        size_below = v.size_below;
        real_port = ground arith;
      })
      | inr e ↦ rw e v
    ]
load_type-IsValid exists (some skf) value g small v = elim (Bool-cases (exists value)) [
  | inl e ↦ rw e (record {
    some_files = v.some_files;
    int_files = v.int_files;
    size_above = v.size_above;
    size_below = v.size_below;
    real_port = v.real_port;
  })
  | inr e ↦ rw e v
]

pub Line-cases :
    (l : Line) → (l ≡ skipped) ⊎ ((l ≡ faulty) ⊎ ((k : List ℕ) × (v : List ℕ) × (l ≡ item k v)))
Line-cases skipped = inl refl
Line-cases faulty = inr (inl refl)
Line-cases (item k v) = inr (inr (k, v, refl))

load_loop-IsValid :
    (exists : List ℕ → Bool) (lines : List (List ℕ)) (g g' : Settings)
    → load_loop exists lines g ≡ some g'
    → SmallSizes lines
    → IsValid g
    → IsValid g'
unfolding load_loop
load_loop-IsValid exists [] g g' e small v = subst (λ s. IsValid s) (Option.some-injective _ _ e) v
load_loop-IsValid exists (line ∷ lines) g g' e (small, more) v =
    elim (Line-cases (parse_line line)) [
      | inl p ↦
          let e' : load_loop exists lines g ≡ some g' = rw (p, load_loop) at e in
          load_loop-IsValid exists lines g g' e' more v
      | inr (inl p) ↦ let e' : none ≡ some g' = rw (p, load_loop) at e in absurd (cc)
      | inr (inr (k, t, p)) ↦
          let h = load_type exists (string_to_enum k) t g in
          let e' : load_loop exists lines h ≡ some g' = rw (p, load_loop) at e in
          load_loop-IsValid exists lines h g' e' more
            (load_type-IsValid exists (string_to_enum k) t g (subst (λ q. SmallLine q) p small) v)
    ]

-- If no line of the file gives a file size above 2047 megabytes, whatever else the lines are, the
-- settings that the daemon starts with, once the file is loaded over the defaults, have a positive
-- count of old files, a file size of one megabyte or more and of 2047 at most, less the length of a
-- line, and a port up to 65535.
pub loaded-IsValid :
    (exists : List ℕ → Bool) (md5 : List ℕ) (lines : List (List ℕ)) (g : Settings)
    → load_loop exists lines (initial md5) ≡ some g
    → SmallSizes lines
    → IsValid g
loaded-IsValid exists md5 lines g e small =
    load_loop-IsValid exists lines (initial md5) g e small (initial-IsValid md5)
