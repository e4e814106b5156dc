-- ===== src/Config/Reloading.antt =====
-- What a change of the file does while the daemon runs.
use mathlib.Core.Option
use mathlib.Core.Path.{subst}
use powerapi.Prelude.{
  ℕ, ◌-◌, ◌^◌, ◌≡◌, refl, ap, ◌∙◌, Bool, true, false, ◌||◌, Option, none, some, List, [], ◌∷◌, ◌==◌,
  length, Bool-cases, inl, inr, map-eq-some,
}
use powerapi.Codes.{success, err_invalide_param}
use powerapi.Text.{is_num_str}
use powerapi.Config.{
  Settings, CnfItemType, fls, cnt, lgv, lgp, bkp, pfx, svp, skf, int_value, number_ok, file_size,
  same_text, codes, string_to_enum, parse_line, update_log_cfg,
}
use powerapi.Config.Dynamic.{
  update_type, update_config, Sums, counted, update_loop, outcome, check_and_update_config,
}
use powerapi.Config.Loading.{Line-cases}

-- The paths of the log, and what the server listens on, are the same.
pub record SameFixed (g g' : Settings) : Type 0 where
  pub same_path : g'.log.log_path ≡ g.log.log_path
  pub same_bkp : g'.log.log_bkp ≡ g.log.log_bkp
  pub same_pfx : g'.log.log_pfx ≡ g.log.log_pfx
  pub same_serv : g'.serv ≡ g.serv

same : (g : Settings) → SameFixed g g
same g = record { same_path = refl; same_bkp = refl; same_pfx = refl; same_serv = refl }

then_same : {g h k : Settings} → SameFixed g h → SameFixed h k → SameFixed g k
then_same a b = record {
  same_path = b.same_path ∙ a.same_path;
  same_bkp = b.same_bkp ∙ a.same_bkp;
  same_pfx = b.same_pfx ∙ a.same_pfx;
  same_serv = b.same_serv ∙ a.same_serv;
}

update_type-SameFixed :
    (type : Option CnfItemType) (value : List ℕ) (g : Settings)
    → SameFixed g (update_type type value g).1
unfolding update_type
update_type-SameFixed none value g = same g
update_type-SameFixed (some fls) value g = elim (Bool-cases (number_ok 0 value)) [
  | inl e ↦ rw e (record { same_path = refl; same_bkp = refl; same_pfx = refl; same_serv = refl })
  | inr e ↦ rw e (same g)
]
update_type-SameFixed (some cnt) value g = elim (Bool-cases (number_ok 0 value)) [
  | inl e ↦ rw e (record { same_path = refl; same_bkp = refl; same_pfx = refl; same_serv = refl })
  | inr e ↦ rw e (same g)
]
update_type-SameFixed (some lgv) value g = elim (Bool-cases (number_ok 0 value)) [
  | inl e ↦ rw e (record { same_path = refl; same_bkp = refl; same_pfx = refl; same_serv = refl })
  | inr e ↦ rw e (same g)
]
update_type-SameFixed (some lgp) value g = same g
update_type-SameFixed (some bkp) value g = same g
update_type-SameFixed (some pfx) value g = same g
update_type-SameFixed (some svp) value g = same g
update_type-SameFixed (some skf) value g = same g

update_loop-SameFixed :
    (lines : List (List ℕ)) (g : Settings) (s : Sums) (r : Settings × Sums)
    → update_loop lines g s ≡ some r
    → SameFixed g r.0
unfolding update_loop update_config
update_loop-SameFixed [] g s r e =
    subst (λ t. SameFixed g t.0) (Option.some-injective _ _ e) (same g)
update_loop-SameFixed (line ∷ lines) g s r e = elim (Line-cases (parse_line line)) [
  | inl p ↦
      let e' : update_loop lines g s ≡ some r = rw (p, update_loop) at e in
      update_loop-SameFixed lines g s r e'
  | inr (inl p) ↦ let e' : none ≡ some r = rw (p, update_loop) at e in absurd (cc)
  | inr (inr (k, t, p)) ↦
      let step = update_config k t g in
      let e' : update_loop lines step.1 (counted step.0 s) ≡ some r = rw (p, update_loop) at e in
      then_same (update_type-SameFixed (string_to_enum k) t g)
        (update_loop-SameFixed lines step.1 (counted step.0 s) r e')
]

unchanged :
    {g g' : Settings} {a b : ℕ}
    → ◌≡◌ {A = Option (ℕ × Settings)} (some (a, g)) (some (b, g'))
    → SameFixed g g'
unchanged {g} e = subst (λ s. SameFixed g s) (ap (λ t. t.1) (Option.some-injective _ _ e)) (same g)

abbrev reread : List ℕ → List (List ℕ) → Settings → Option (ℕ × Settings)
reread cur_md5 lines g =
    Option.map (λ r. (outcome r.1, record (r.0) { last_md5 = cur_md5 }))
      (update_loop lines g (record { invalid_update_sum = 0; non_dynamic_sum = 0 }))

reread-SameFixed :
    (cur_md5 : List ℕ) (lines : List (List ℕ)) (g : Settings) (code : ℕ) (g' : Settings)
    → reread cur_md5 lines g ≡ some (code, g')
    → SameFixed g g'
reread-SameFixed cur_md5 lines g code g' e =
    let start : Sums = record { invalid_update_sum = 0; non_dynamic_sum = 0 } in
    let (r, loop, p) =
      map-eq-some (λ r. (outcome r.1, record (r.0) { last_md5 = cur_md5 }))
        (update_loop lines g start) e in
    let s = update_loop-SameFixed lines g start r loop in
    subst (λ h. SameFixed g h) (ap (λ t. t.1) p)
      (record {
        same_path = s.same_path;
        same_bkp = s.same_bkp;
        same_pfx = s.same_pfx;
        same_serv = s.same_serv;
      })

refused_zero : (value : List ℕ) → int_value value ≡ 0 → number_ok 1 value ≡ false
refused_zero value z =
    rw z (elim (Bool-cases (is_num_str value)) [ inl e ↦ rw e refl | inr e ↦ rw e refl ])

-- However the file has changed, `CheckAndUpdateConfig` leaves the paths and the prefix of the log,
-- the port and the file of the socket as they are.
pub fixed_settings_stay :
    (cur_md5 : List ℕ) (path_error : ℕ) (opens : Bool) (lines : List (List ℕ)) (g : Settings)
    (code : ℕ) (g' : Settings)
    → check_and_update_config cur_md5 path_error opens lines g ≡ some (code, g')
    → SameFixed g g'
unfolding check_and_update_config
fixed_settings_stay cur_md5 path_error opens lines g code g' e =
    elim (Bool-cases (length cur_md5 == 0 || same_text cur_md5 g.last_md5)) [
      | inl p ↦ unchanged (rw p at e)
      | inr p ↦ elim (Bool-cases (path_error == 0)) [
        | inr q ↦ unchanged (rw (p, q) at e)
        | inl q ↦ elim (Bool-cases opens) [
          | inr r ↦ unchanged (rw (p, q, r) at e)
          | inl r ↦
              let e' : reread cur_md5 lines g ≡ some (code, g') = rw (p, q, r) at e in
              reread-SameFixed cur_md5 lines g code g' e'
        ]
      ]
    ]

-- While the daemon runs, a count of old files or a file size of 0, written with digits, is taken:
-- loading the file refuses both. The size becomes 256 less than 2 to the 64.
pub zero_accepted :
    (value : List ℕ) (g : Settings)
    → number_ok 0 value ≡ true
    → int_value value ≡ 0
    → ((update_log_cfg cnt value g.log).0 ≡ err_invalide_param)
      × ((update_log_cfg fls value g.log).0 ≡ err_invalide_param)
      × ((update_config (codes "cmp_cnt") value g).0 ≡ success)
      × ((update_config (codes "cmp_cnt") value g).1.log.max_cmp_cnt ≡ 0)
      × ((update_config (codes "file_size") value g).0 ≡ success)
      × ((update_config (codes "file_size") value g).1.log.max_file_size ≡ 2 ^ 64 - 256)
unfolding update_log_cfg update_config update_type file_size
zero_accepted value g ok z = (
  rw (refused_zero value z) refl,
  rw (refused_zero value z) refl,
  rw ok refl,
  rw ok z,
  rw ok refl,
  rw (ok, z) refl,
)
