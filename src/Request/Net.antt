-- ===== src/Request/Net.antt =====
-- The requests of pwrapic/src/pwrnet.c and pwrapic/src/pwrusb.c. A name is its bytes without the
-- terminator; the sizes of the structures come first.
use powerapi.Prelude.{
  ℕ, ◌+◌, ◌-◌, ◌*◌, ◌/◌, ◌%◌, ◌^◌, Bool, true, false, Option, none, some, List, [], ◌∷◌, ◌++◌, ◌==◌,
  if◌then◌else◌,
}
use powerapi.Codes.{success, err_sys_exception}
use powerapi.Operations.{
  net_get_info, net_get_through, net_get_speed_mod, net_set_speed_mod, usb_get_auto_suspend,
  usb_set_auto_suspend,
}
use powerapi.Request.{Transfer, RspOutputParam, ask, ask_about, tell, size_of}
use powerapi.Request.Devices.{remediated}

-- A name as it is sent.
abbrev pub terminated : List ℕ → List ℕ
terminated name = name ++ 0 ∷ []

module _ (transfer : Transfer) (task_no : ℕ) where
  -- The last component is the value written to `ethNum`, where one is. The difference is that of
  -- size_t.
  unfoldable pub get_net_info : ℕ → ℕ → List ℕ → ℕ → ℕ × RspOutputParam × Option ℕ
  unfolding ask
  get_net_info info_size eth_size net_info buffer_size =
      let (ret, output) = ask transfer task_no net_get_info buffer_size net_info in
      if ret == success
      then (success, output, some ((size_of output + 2 ^ 64 - info_size) % 2 ^ 64 / eth_size))
      else (ret, output, none)

  unfoldable pub get_net_through : ℕ → List ℕ → List ℕ → ℕ × RspOutputParam
  unfolding ask_about
  get_net_through through_size eth_name eth_through =
      ask_about transfer task_no net_get_through (terminated eth_name) through_size eth_through

  unfoldable pub get_net_speed_mod : List ℕ → List ℕ → ℕ × RspOutputParam
  unfolding ask_about
  get_net_speed_mod eth_name speed_mod =
      ask_about transfer task_no net_get_speed_mod (terminated eth_name) 4 speed_mod

  -- `speed_mod` is the four bytes of the number. This request is built from zeros, its number of
  -- task included.
  unfoldable pub set_net_speed_mod : Bool → List ℕ → List ℕ → ℕ
  unfolding tell
  set_net_speed_mod false eth_name speed_mod = err_sys_exception
  set_net_speed_mod true eth_name speed_mod =
      tell transfer 0 net_set_speed_mod (speed_mod ++ terminated eth_name)

  unfoldable pub get_usb_auto_suspend : ℕ → List ℕ → ℕ → ℕ × RspOutputParam × ℕ
  unfolding ask
  get_usb_auto_suspend elem_size usb_ats len =
      remediated elem_size
        (ask transfer task_no usb_get_auto_suspend (elem_size * len % 2 ^ 32) usb_ats) len

  unfoldable pub set_usb_auto_suspend : List ℕ → ℕ
  unfolding tell
  set_usb_auto_suspend usb_ats = tell transfer task_no usb_set_auto_suspend usb_ats
