-- ===== src/Status/Vars.antt =====
-- The names of the status variables: `enum dat_system` of src/system/include/repoData.h.
use Prim.Native.Nat.{ℕ}

pub data DatSystem : Type 0 where
  dat_obc_opmode dat_obc_last_reset dat_obc_hrs_alive dat_obc_hrs_wo_reset : DatSystem
  dat_obc_reset_counter dat_obc_sw_wdt dat_obc_temp_1 dat_obc_temp_2 dat_obc_temp_3 : DatSystem
  dat_dep_deployed dat_dep_ant_deployed dat_dep_date_time dat_rtc_date_time : DatSystem
  dat_com_count_tm dat_com_count_tc dat_com_last_tc dat_com_freq dat_com_tx_pwr : DatSystem
  dat_com_baud dat_com_mode dat_com_bcn_period dat_fpl_last dat_fpl_queue : DatSystem
  dat_ads_acc_x dat_ads_acc_y dat_ads_acc_z dat_ads_mag_x dat_ads_mag_y dat_ads_mag_z : DatSystem
  dat_eps_vbatt dat_eps_cur_sun dat_eps_cur_sys dat_eps_temp_bat0 dat_fod_ver : DatSystem
  dat_fod_released dat_fod_on_time dat_fod_attempts dat_mem_temp dat_mem_ads : DatSystem
  dat_mem_eps dat_mem_lang dat_mem_gps dat_mem_prs dat_mem_dpl dat_mem_fod : DatSystem
  dat_mem_ack_temp dat_mem_ack_ads dat_mem_ack_eps dat_mem_ack_lang dat_mem_ack_gps : DatSystem
  dat_mem_ack_prs dat_mem_ack_dpl dat_mem_ack_fod dat_balloon_phase : DatSystem
  dat_balloon_deploys dat_balloon_height dat_balloon_pressure : DatSystem

-- `dat_system_last_var`, the number of variables.
abbrev pub dat_system_last_var : ℕ
dat_system_last_var = 57

-- The value of an enumerator.
abbrev pub index : DatSystem → ℕ
index dat_obc_opmode = 0
index dat_obc_last_reset = 1
index dat_obc_hrs_alive = 2
index dat_obc_hrs_wo_reset = 3
index dat_obc_reset_counter = 4
index dat_obc_sw_wdt = 5
index dat_obc_temp_1 = 6
index dat_obc_temp_2 = 7
index dat_obc_temp_3 = 8
index dat_dep_deployed = 9
index dat_dep_ant_deployed = 10
index dat_dep_date_time = 11
index dat_rtc_date_time = 12
index dat_com_count_tm = 13
index dat_com_count_tc = 14
index dat_com_last_tc = 15
index dat_com_freq = 16
index dat_com_tx_pwr = 17
index dat_com_baud = 18
index dat_com_mode = 19
index dat_com_bcn_period = 20
index dat_fpl_last = 21
index dat_fpl_queue = 22
index dat_ads_acc_x = 23
index dat_ads_acc_y = 24
index dat_ads_acc_z = 25
index dat_ads_mag_x = 26
index dat_ads_mag_y = 27
index dat_ads_mag_z = 28
index dat_eps_vbatt = 29
index dat_eps_cur_sun = 30
index dat_eps_cur_sys = 31
index dat_eps_temp_bat0 = 32
index dat_fod_ver = 33
index dat_fod_released = 34
index dat_fod_on_time = 35
index dat_fod_attempts = 36
index dat_mem_temp = 37
index dat_mem_ads = 38
index dat_mem_eps = 39
index dat_mem_lang = 40
index dat_mem_gps = 41
index dat_mem_prs = 42
index dat_mem_dpl = 43
index dat_mem_fod = 44
index dat_mem_ack_temp = 45
index dat_mem_ack_ads = 46
index dat_mem_ack_eps = 47
index dat_mem_ack_lang = 48
index dat_mem_ack_gps = 49
index dat_mem_ack_prs = 50
index dat_mem_ack_dpl = 51
index dat_mem_ack_fod = 52
index dat_balloon_phase = 53
index dat_balloon_deploys = 54
index dat_balloon_height = 55
index dat_balloon_pressure = 56
