-- ===== src/Codes.antt =====
-- The numbers that both sides of the socket agree on: the return codes of common/inc/pwrerr.h and
-- the operation and message types of common/inc/pwrmsg.h.
use powerapi.Prelude.{ℕ}

-- `enum RtnCode`; a return code is the number itself.
abbrev pub success : ℕ
success = 0

abbrev pub err_common : ℕ
err_common = 1

abbrev pub err_timeout : ℕ
err_timeout = 2

abbrev pub err_sys_exception : ℕ
err_sys_exception = 3

abbrev pub err_answer_longer_than_size : ℕ
err_answer_longer_than_size = 302

abbrev pub err_null_pointer : ℕ
err_null_pointer = 4

abbrev pub err_input_oversize : ℕ
err_input_oversize = 5

abbrev pub err_invalide_param : ℕ
err_invalide_param = 6

abbrev pub err_policy_invalide : ℕ
err_policy_invalide = 8

abbrev pub err_governor_invalide : ℕ
err_governor_invalide = 9

abbrev pub err_freq_not_in_range : ℕ
err_freq_not_in_range = 10

abbrev pub err_callback_function_should_be_set_first : ℕ
err_callback_function_should_be_set_first = 11

abbrev pub err_not_registed : ℕ
err_not_registed = 100

abbrev pub err_not_authed : ℕ
err_not_authed = 101

abbrev pub err_over_max_connection : ℕ
err_over_max_connection = 102

abbrev pub err_disconnected : ℕ
err_disconnected = 300

abbrev pub err_wrong_response_from_server : ℕ
err_wrong_response_from_server = 301

abbrev pub err_task_not_exists : ℕ
err_task_not_exists = 401

abbrev pub err_over_max_task_num : ℕ
err_over_max_task_num = 402

abbrev pub err_control_auth_requested : ℕ
err_control_auth_requested = 403

abbrev pub err_control_auth_ownered_by_others : ℕ
err_control_auth_ownered_by_others = 404

abbrev pub err_modify_ban_update_attr_currently : ℕ
err_modify_ban_update_attr_currently = 12
