-- ===== src/Config/Tests.antt =====
-- A file with a comment and two items.
use powerapi.Prelude.{ℕ, ◌≡◌, refl, true, some, List, [], ◌∷◌}
use powerapi.Codes.{success}
use powerapi.Config.{
  Settings, codes, load_loop, update_log_cfg, number_ok, atoi, atoi_from, update_serv_cfg,
  init_log_cfg, init_serv_cfg, parse_line, string_to_enum,
}
use powerapi.Text.{lr_trim, is_num_str}
use powerapi.Config.Dynamic.{check_and_update_config}
use powerapi.Config.Loading.{SmallSizes, IsValid, initial, loaded-IsValid}
use powerapi.Config.Reloading.{SameFixed, fixed_settings_stay}

abbrev lines : List (List ℕ)
lines = codes "# log\n" ∷ codes "cmp_cnt = 5\n" ∷ codes "port = 70000\n" ∷ []

abbrev loaded : Settings
loaded = record (initial []) { log = record ((initial []).log) { max_cmp_cnt = 5 } }

loads : load_loop (λ p. true) lines (initial []) ≡ some loaded
unfolding load_loop lr_trim is_num_str atoi_from update_log_cfg update_serv_cfg
loads = refl

small : SmallSizes lines
unfolding parse_line string_to_enum lr_trim
small = (tt, (tt, (tt, tt)))

loaded-IsValid_example : IsValid loaded
loaded-IsValid_example = loaded-IsValid (λ p. true) [] lines loaded loads small

reloads :
    check_and_update_config (codes "d4") 0 true lines (initial [])
    ≡ some (success, record loaded { last_md5 = codes "d4" })
unfolding check_and_update_config lr_trim is_num_str atoi_from initial init_log_cfg init_serv_cfg
reloads = refl

fixed_settings_stay_example : SameFixed (initial []) (record loaded { last_md5 = codes "d4" })
fixed_settings_stay_example =
    fixed_settings_stay (codes "d4") 0 true lines (initial []) success
      (record loaded { last_md5 = codes "d4" }) reloads

digits : number_ok 0 (codes "00") ≡ true
unfolding is_num_str atoi_from
digits = refl

value : atoi (codes "00") ≡ 0
unfolding atoi_from
value = refl
