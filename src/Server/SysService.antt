-- ===== src/Server/SysService.antt =====
-- The handlers of pwrapis/src/sysservice.c. What `malloc`, `popen` and `atof` answer, the first line
-- that a command prints, and what `GetArch` returns are arguments. The payload of a request for a
-- power state ends with a NUL; `F` is the type double.
use powerapi.Prelude.{
  ℕ, Bool, true, Option, none, some, List, ◌++◌, ◌==◌, if◌then◌else◌, not, length,
}
use powerapi.Prelude.Int.{ℤ, pos, negsuc}
use powerapi.Codes.{success, err_common}
use powerapi.Text.{c_str, delete_char}
use powerapi.Config.{codes}
use powerapi.Msg.{PwrMsg}
use powerapi.Buffer.Refine.{Holds}
use powerapi.Server.{Server, payload, send_rsp_to_client}
use powerapi.Server.Answers.{Queued, send_rsp-Queued}

-- `PowerSet`: the code, and the command that the shell runs. The text of the client stands in it as
-- it is.
unfoldable pub power_set : Bool → Bool → List ℕ → ℕ × Option (List ℕ)
power_set malloc popen power_state =
    if not malloc then (1, none) else if not popen then (1, none) else (
      success,
      some (codes "sleep 10 && echo " ++ (c_str power_state ++ codes "> /sys/power/state &")),
    )

-- With the server, the command that is run.
unfoldable pub set_sys_power_state : Bool → Bool → Bool → Server → PwrMsg → Server × Option (List ℕ)
unfolding power_set
set_sys_power_state malloc_rsp malloc popen s req =
    let (rsp_code, command) = power_set malloc popen (payload req) in
    (send_rsp_to_client malloc_rsp s (some req) rsp_code none 0, command)

module _ {F : Type 0} (atof : List ℕ → F) where
  pub record PowerInfo : Type 0 where
    pub sys_power : F
    pub cpu_power : F
    pub mem_power : F

  -- `IpmiRead`: the number in the first line that the command prints; there is no line, too, if the
  -- command cannot be run.
  unfoldable pub ipmi_read : Option (List ℕ) → Option F
  unfolding delete_char
  ipmi_read none = none
  ipmi_read (some line) = some (atof (delete_char (delete_char line 10) 32))

  -- The code, and the record, from the lines for the system, the processor and the memory.
  unfoldable pub sys_rt_power_read :
      ℤ → Option (List ℕ) → Option (List ℕ) → Option (List ℕ) → PowerInfo → ℕ × PowerInfo
  unfolding ipmi_read
  sys_rt_power_read arch sys cpu mem rst_data = elim (ipmi_read sys) [
    | none ↦ (err_common, rst_data)
    | some sys_power ↦
        let with_sys = record rst_data { sys_power = sys_power } in
        elim arch [
          | negsuc n ↦ (success, with_sys)
          | pos n ↦ if not (n == 1) then (success, with_sys) else elim (ipmi_read cpu) [
            | none ↦ (err_common, with_sys)
            | some cpu_power ↦ elim (ipmi_read mem) [
              | none ↦ (err_common, with_sys)
              | some mem_power ↦
                  (success, record with_sys { cpu_power = cpu_power; mem_power = mem_power })
            ]
          ]
        ]
  ]

  -- `bytes_of` gives the bytes of the structure; `junk` is what `malloc` leaves in the power of the
  -- system, and `zero` is 0.0.
  unfoldable pub get_sys_rt_power_info :
      (PowerInfo → List ℕ)
      → F
      → F
      → Bool
      → Bool
      → (PowerInfo → ℕ × PowerInfo)
      → Server
      → PwrMsg
      → Server
  unfolding send_rsp_to_client
  get_sys_rt_power_info bytes_of zero junk malloc malloc_rsp read s req =
      let (rsp_code, rst_data) =
        read (record { sys_power = junk; cpu_power = zero; mem_power = zero }) in
      if not malloc
      then s
      else send_rsp_to_client malloc_rsp s (some req) rsp_code (some (bytes_of rst_data))
          (length (bytes_of rst_data))

-- If there is memory for the answer, a request for a power state is answered by exactly one message,
-- with the code of `PowerSet`, whatever the command does.
pub power_state_answered :
    (malloc popen : Bool) (s : Server) (q : List PwrMsg) (req : PwrMsg)
    → Holds s.send_buff q
    → Queued
        (set_sys_power_state true malloc popen s req).0
        q
        req
        (power_set malloc popen (payload req)).0
unfolding set_sys_power_state
power_state_answered malloc popen s q req h =
    send_rsp-Queued s q req (power_set malloc popen (payload req)).0 h
