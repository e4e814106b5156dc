-- ===== src/Disk/Collecting.antt =====
-- The values collected about a disk, pwrapis/src/diskservice.c. `float` and `double` are one type of
-- numbers, with the conversion of an integer to it and the division; how a value is printed is left
-- out. A counter is below 2^63, so that differences of two are exact.
use powerapi.Prelude.{ℕ, ◌+◌, ◌-◌, ◌/◌, ◌%◌, ◌^◌, ◌==◌, if◌then◌else◌, ltb}
use powerapi.Prelude.Int.{ℤ, pos, negsuc, ◌-ℤ◌, sub_u64}
use powerapi.Disk.{
  Handler, disk_rrqm, disk_wrqm, disk_rs, disk_ws, disk_rkb, disk_wkb, disk_avg_rg_sz,
  disk_avg_qu_sz, disk_svctm, disk_util, disk_await, TimeKeeper, System, get_fd_val, get_ios,
  get_sectors, get_ticks, sum_of, to_u64, fd_head_oft,
}

-- An unsigned 64-bit number stored in a signed field.
abbrev pub to_i64 : ℕ → ℤ
to_i64 n = if ltb n (2 ^ 63) then pos n else negsuc (2 ^ 64 - 1 - n)

module _ {F : Type 0} (of_int : ℤ → F) (div : F → F → F) (system : System) where
  -- The value per second, over `div_fctr`, and what is kept for the next round.
  unfoldable pub get_val_per_sec : TimeKeeper → ℕ → ℕ → F × TimeKeeper
  get_val_per_sec tm_kp field_num div_fctr =
      let field_val = get_fd_val system tm_kp.data_name field_num in
      (
        div (div (of_int (field_val -ℤ tm_kp.reserv)) (of_int (pos tm_kp.period)))
            (of_int (pos div_fctr)),
        record tm_kp { reserv = field_val },
      )

  unfoldable pub avg_rg_sz : TimeKeeper → F × TimeKeeper
  avg_rg_sz tm_kp =
      let cur_sum_rst_cnt = sum_of (get_ios system tm_kp.data_name) in
      let cur_sum_sectors = sum_of (get_sectors system tm_kp.data_name) in
      let rst_cnt = sub_u64 cur_sum_rst_cnt tm_kp.reserv1 in
      (
        if rst_cnt == 0
            then of_int (pos 0)
            else div
                (div (of_int (pos (sub_u64 cur_sum_sectors (to_u64 tm_kp.reserv))))
                  (of_int (pos rst_cnt)))
                (of_int (pos 2)),
        record tm_kp { reserv = to_i64 cur_sum_sectors; reserv1 = cur_sum_rst_cnt },
      )

  -- Reads and writes without discards; the quotient is one of integers.
  unfoldable pub svctm : TimeKeeper → F × TimeKeeper
  svctm tm_kp =
      let util = to_u64 (get_fd_val system tm_kp.data_name (fd_head_oft + 10)) in
      let ios = get_ios system tm_kp.data_name in
      let rws = (ios.rd_ios + ios.wr_ios) % 2 ^ 64 in
      let count = sub_u64 rws tm_kp.reserv1 in
      (
        if ltb 0 count
            then of_int (pos (sub_u64 util (to_u64 tm_kp.reserv) / count))
            else of_int (pos 0),
        record tm_kp { reserv = to_i64 util; reserv1 = rws },
      )

  unfoldable pub await : TimeKeeper → F × TimeKeeper
  await tm_kp =
      let cur_sum_rst_cnt = sum_of (get_ios system tm_kp.data_name) in
      let cur_sum_ticks = sum_of (get_ticks system tm_kp.data_name) in
      let rst_cnt = sub_u64 cur_sum_rst_cnt (to_u64 tm_kp.reserv) in
      (
        if rst_cnt == 0
            then of_int (pos 0)
            else div (of_int (pos (sub_u64 cur_sum_ticks tm_kp.reserv1))) (of_int (pos rst_cnt)),
        record tm_kp { reserv = to_i64 cur_sum_rst_cnt; reserv1 = cur_sum_ticks },
      )

  -- One round of a handler.
  unfoldable pub collect : Handler → TimeKeeper → F × TimeKeeper
  unfolding get_val_per_sec avg_rg_sz svctm await
  collect disk_rrqm tm_kp = get_val_per_sec tm_kp (fd_head_oft + 2) 1
  collect disk_wrqm tm_kp = get_val_per_sec tm_kp (fd_head_oft + 6) 1
  collect disk_rs tm_kp = get_val_per_sec tm_kp (fd_head_oft + 1) 1
  collect disk_ws tm_kp = get_val_per_sec tm_kp (fd_head_oft + 5) 1
  collect disk_rkb tm_kp = get_val_per_sec tm_kp (fd_head_oft + 3) 2
  collect disk_wkb tm_kp = get_val_per_sec tm_kp (fd_head_oft + 7) 2
  collect disk_avg_rg_sz tm_kp = avg_rg_sz tm_kp
  collect disk_avg_qu_sz tm_kp = get_val_per_sec tm_kp (fd_head_oft + 11) 1000
  collect disk_svctm tm_kp = svctm tm_kp
  collect disk_util tm_kp = get_val_per_sec tm_kp (fd_head_oft + 10) 1000
  collect disk_await tm_kp = await tm_kp
