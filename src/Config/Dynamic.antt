-- ===== src/Config/Dynamic.antt =====
-- Changes of the configuration while the daemon runs: `HandleInvalidUpdate`, `UpdateConfig` and
-- `CheckAndUpdateConfig` of pwrapis/src/config.c.
use mathlib.Core.Option
use powerapi.Prelude.{
  ℕ, ◌+◌, Bool, not, ◌||◌, Option, none, some, List, [], ◌∷◌, ◌==◌, if◌then◌else◌, length,
}
use powerapi.Codes.{
  success, err_common, err_invalide_param, err_null_pointer, err_modify_ban_update_attr_currently,
}
use powerapi.Config.{
  Settings, CnfItemType, fls, cnt, lgv, lgp, bkp, pfx, skf, same_text, int_value, number_ok,
  file_size, string_to_enum, skipped, faulty, item, parse_line,
}

abbrev pub unless_same : List ℕ → List ℕ → ℕ
unless_same value old = if same_text value old then success else err_common

unfoldable pub handle_invalid_update : Option CnfItemType → List ℕ → Settings → ℕ
handle_invalid_update (some lgp) value g = unless_same value g.log.log_path
handle_invalid_update (some bkp) value g = unless_same value g.log.log_bkp
handle_invalid_update (some pfx) value g = unless_same value g.log.log_pfx
handle_invalid_update (some skf) value g = unless_same value g.serv.sock_file
handle_invalid_update type value g = success

-- A store of the value that stands there already is left out by the source, to the same effect.
unfoldable pub update_type : Option CnfItemType → List ℕ → Settings → ℕ × Settings
unfolding handle_invalid_update file_size
update_type (some fls) value g =
    if number_ok 0 value
    then (
      success,
      record g { log = record (g.log) { max_file_size = file_size (int_value value) } },
    )
    else (err_invalide_param, g)
update_type (some cnt) value g =
    if number_ok 0 value
    then (success, record g { log = record (g.log) { max_cmp_cnt = int_value value } })
    else (err_invalide_param, g)
update_type (some lgv) value g =
    if number_ok 0 value
    then (success, record g { log = record (g.log) { log_level = int_value value } })
    else (err_invalide_param, g)
update_type type value g = (handle_invalid_update type value g, g)

unfoldable pub update_config : List ℕ → List ℕ → Settings → ℕ × Settings
unfolding string_to_enum update_type
update_config key value g = update_type (string_to_enum key) value g

-- How many updates were invalid, and how many of what cannot change while the daemon runs.
pub record Sums : Type 0 where
  pub invalid_update_sum : ℕ
  pub non_dynamic_sum : ℕ

abbrev pub counted : ℕ → Sums → Sums
counted code s =
    if code == err_invalide_param
    then record s { invalid_update_sum = s.invalid_update_sum + 1 }
    else if code == err_common
    then record s { non_dynamic_sum = s.non_dynamic_sum + 1 }
    else s

unfoldable pub update_loop : List (List ℕ) → Settings → Sums → Option (Settings × Sums)
unfolding parse_line update_config
update_loop [] g s = some (g, s)
update_loop (line ∷ lines) g s = elim (parse_line line) [
  | skipped ↦ update_loop lines g s
  | faulty ↦ none
  | item key value ↦
      let (code, g') = update_config key value g in update_loop lines g' (counted code s)
]

abbrev pub outcome : Sums → ℕ
outcome s =
    if s.invalid_update_sum == 0
    then if s.non_dynamic_sum == 0 then success else err_modify_ban_update_attr_currently
    else err_invalide_param

-- From the checksum of the file, an error of the tests on its path or 0, whether it opens, and its
-- lines.
unfoldable pub check_and_update_config :
    List ℕ → ℕ → Bool → List (List ℕ) → Settings → Option (ℕ × Settings)
unfolding update_loop
check_and_update_config cur_md5 path_error opens lines g =
    let sums : Sums = record { invalid_update_sum = 0; non_dynamic_sum = 0 } in
    let run =
      Option.map (λ r. (outcome r.1, record (r.0) { last_md5 = cur_md5 }))
        (update_loop lines g sums) in
    if length cur_md5 == 0 || same_text cur_md5 g.last_md5
    then some (success, g)
    else if not (path_error == 0)
    then some (path_error, g)
    else if opens
    then run
    else some (err_null_pointer, g)
