-- ===== src/StatusReport/Struct.antt =====
-- `dat_status_t` of src/system/include/repoData.h. A member is its 32-bit pattern.
use balloon_suchai_flight_so.Prelude.{ℕ, ◌*◌}

pub record DatStatus : Type 0 where
  pub dat_obc_opmode : ℕ
  pub dat_obc_last_reset : ℕ
  pub dat_obc_hrs_alive : ℕ
  pub dat_obc_hrs_wo_reset : ℕ
  pub dat_obc_reset_counter : ℕ
  pub dat_obc_sw_wdt : ℕ
  pub dat_obc_temp_1 : ℕ
  pub dat_obc_temp_2 : ℕ
  pub dat_obc_temp_3 : ℕ
  pub dat_dep_deployed : ℕ
  pub dat_dep_ant_deployed : ℕ
  pub dat_dep_date_time : ℕ
  pub dat_rtc_date_time : ℕ
  pub dat_com_count_tm : ℕ
  pub dat_com_count_tc : ℕ
  pub dat_com_last_tc : ℕ
  pub dat_com_freq : ℕ
  pub dat_com_tx_pwr : ℕ
  pub dat_com_baud : ℕ
  pub dat_com_mode : ℕ
  pub dat_com_bcn_period : ℕ
  pub dat_fpl_last : ℕ
  pub dat_fpl_queue : ℕ
  pub dat_ads_acc_x : ℕ
  pub dat_ads_acc_y : ℕ
  pub dat_ads_acc_z : ℕ
  pub dat_ads_mag_x : ℕ
  pub dat_ads_mag_y : ℕ
  pub dat_ads_mag_z : ℕ
  pub dat_eps_vbatt : ℕ
  pub dat_eps_cur_sun : ℕ
  pub dat_eps_cur_sys : ℕ
  pub dat_eps_temp_bat0 : ℕ
  pub dat_fod_ver : ℕ
  pub dat_fod_released : ℕ
  pub dat_fod_on_time : ℕ
  pub dat_fod_attempts : ℕ
  pub dat_mem_temp : ℕ
  pub dat_mem_ads : ℕ
  pub dat_mem_eps : ℕ
  pub dat_mem_lang : ℕ
  pub dat_mem_gps : ℕ
  pub dat_mem_prs : ℕ
  pub dat_mem_dpl : ℕ
  pub dat_mem_fod : ℕ
  pub dat_mem_ack_temp : ℕ
  pub dat_mem_ack_ads : ℕ
  pub dat_mem_ack_eps : ℕ
  pub dat_mem_ack_lang : ℕ
  pub dat_mem_ack_gps : ℕ
  pub dat_mem_ack_prs : ℕ
  pub dat_mem_ack_dpl : ℕ
  pub dat_mem_ack_fod : ℕ
  pub dat_system_last_var : ℕ

-- `sizeof(dat_status_t)`: the struct is packed, and each of its 54 members has 4 bytes.
abbrev pub sizeof_dat_status : ℕ
sizeof_dat_status = 54 * 4
