-- ===== src/StatusReport/Pack.antt =====
-- `dat_status_to_struct` and `dat_print_status` of src/system/repoData.c.
use balloon_suchai_flight_so.Prelude.{ℕ, ◌+◌, ◌-◌, ◌^◌, List, [], ◌∷◌, ltb, if◌then◌else◌}
use balloon_suchai_flight_so.Status.{Buff, dat_get_system_var}
use balloon_suchai_flight_so.Status.Vars.{DatSystem, index}
use DatSystem.{
  dat_obc_opmode, dat_obc_last_reset, dat_obc_hrs_alive, dat_obc_hrs_wo_reset,
  dat_obc_reset_counter, dat_obc_sw_wdt, dat_obc_temp_1, dat_obc_temp_2, dat_obc_temp_3,
  dat_dep_deployed, dat_dep_ant_deployed, dat_dep_date_time, dat_rtc_date_time, dat_com_count_tm,
  dat_com_count_tc, dat_com_last_tc, dat_com_freq, dat_com_tx_pwr, dat_com_baud, dat_com_mode,
  dat_com_bcn_period, dat_fpl_last, dat_fpl_queue, dat_ads_acc_x, dat_ads_acc_y, dat_ads_acc_z,
  dat_ads_mag_x, dat_ads_mag_y, dat_ads_mag_z, dat_eps_vbatt, dat_eps_cur_sun, dat_eps_cur_sys,
  dat_eps_temp_bat0, dat_fod_ver, dat_fod_released, dat_fod_on_time, dat_fod_attempts, dat_mem_temp,
  dat_mem_ads, dat_mem_eps, dat_mem_lang, dat_mem_gps, dat_mem_prs, dat_mem_dpl, dat_mem_fod,
  dat_mem_ack_temp, dat_mem_ack_ads, dat_mem_ack_eps, dat_mem_ack_lang, dat_mem_ack_gps,
  dat_mem_ack_prs, dat_mem_ack_dpl, dat_mem_ack_fod,
}
use balloon_suchai_flight_so.StatusReport.Struct.{DatStatus}

-- A line that is printed: the variable's name with an `unsigned long`, or with a float as its 32-bit
-- pattern.
pub data Row : Type 0 where
  whole real : DatSystem → ℕ → Row

-- `(unsigned long)` of an `int32_t`, where `unsigned long` has 64 bits: the sign is extended.
unfoldable pub widened : ℕ → ℕ
widened x = if ltb x (2 ^ 31) then x else x + (2 ^ 64 - 2 ^ 32)

module _ (of_int to_int : ℕ → ℕ) where
  -- DAT_CPY_SYSTEM_VAR to an integer member, and to the float member `dat_fod_ver`.
  abbrev pub cpy : Buff → DatSystem → ℕ
  cpy b var = dat_get_system_var b (index var)

  abbrev pub cpy_to_float : Buff → DatSystem → ℕ
  cpy_to_float b var = of_int (dat_get_system_var b (index var))

  -- DAT_CPY_SYSTEM_VAR_F: `v.i = (float)value`, where `v.i` is an integer, and its bits as a float.
  abbrev pub cpy_f : Buff → DatSystem → ℕ
  cpy_f b var = to_int (of_int (dat_get_system_var b (index var)))

  -- `junk` is the last member, which the code leaves as it is.
  unfoldable pub dat_status_to_struct : ℕ → Buff → DatStatus
  dat_status_to_struct junk b = record {
    dat_obc_opmode = cpy b dat_obc_opmode;
    dat_obc_last_reset = cpy b dat_obc_last_reset;
    dat_obc_hrs_alive = cpy b dat_obc_hrs_alive;
    dat_obc_hrs_wo_reset = cpy b dat_obc_hrs_wo_reset;
    dat_obc_reset_counter = cpy b dat_obc_reset_counter;
    dat_obc_sw_wdt = cpy b dat_obc_sw_wdt;
    dat_obc_temp_1 = cpy_f b dat_obc_temp_1;
    dat_obc_temp_2 = cpy_f b dat_obc_temp_2;
    dat_obc_temp_3 = cpy_f b dat_obc_temp_3;
    dat_dep_deployed = cpy b dat_dep_deployed;
    dat_dep_ant_deployed = cpy b dat_dep_ant_deployed;
    dat_dep_date_time = cpy b dat_dep_date_time;
    dat_rtc_date_time = cpy b dat_rtc_date_time;
    dat_com_count_tm = cpy b dat_com_count_tm;
    dat_com_count_tc = cpy b dat_com_count_tc;
    dat_com_last_tc = cpy b dat_com_last_tc;
    dat_com_freq = cpy b dat_com_freq;
    dat_com_tx_pwr = cpy b dat_com_tx_pwr;
    dat_com_baud = cpy b dat_com_baud;
    dat_com_mode = cpy b dat_com_mode;
    dat_com_bcn_period = cpy b dat_com_bcn_period;
    dat_fpl_last = cpy b dat_fpl_last;
    dat_fpl_queue = cpy b dat_fpl_queue;
    dat_ads_acc_x = cpy_f b dat_ads_acc_x;
    dat_ads_acc_y = cpy_f b dat_ads_acc_y;
    dat_ads_acc_z = cpy_f b dat_ads_acc_z;
    dat_ads_mag_x = cpy_f b dat_ads_mag_x;
    dat_ads_mag_y = cpy_f b dat_ads_mag_y;
    dat_ads_mag_z = cpy_f b dat_ads_mag_z;
    dat_eps_vbatt = cpy b dat_eps_vbatt;
    dat_eps_cur_sun = cpy b dat_eps_cur_sun;
    dat_eps_cur_sys = cpy b dat_eps_cur_sys;
    dat_eps_temp_bat0 = cpy b dat_eps_temp_bat0;
    dat_fod_ver = cpy_to_float b dat_fod_ver;
    dat_fod_released = cpy b dat_fod_released;
    dat_fod_on_time = cpy b dat_fod_on_time;
    dat_fod_attempts = cpy b dat_fod_attempts;
    dat_mem_temp = cpy b dat_mem_temp;
    dat_mem_ads = cpy b dat_mem_ads;
    dat_mem_eps = cpy b dat_mem_eps;
    dat_mem_lang = cpy b dat_mem_lang;
    dat_mem_gps = cpy b dat_mem_gps;
    dat_mem_prs = cpy b dat_mem_prs;
    dat_mem_dpl = cpy b dat_mem_dpl;
    dat_mem_fod = cpy b dat_mem_fod;
    dat_mem_ack_temp = cpy b dat_mem_ack_temp;
    dat_mem_ack_ads = cpy b dat_mem_ack_ads;
    dat_mem_ack_eps = cpy b dat_mem_ack_eps;
    dat_mem_ack_lang = cpy b dat_mem_ack_lang;
    dat_mem_ack_gps = cpy b dat_mem_ack_gps;
    dat_mem_ack_prs = cpy b dat_mem_ack_prs;
    dat_mem_ack_dpl = cpy b dat_mem_ack_dpl;
    dat_mem_ack_fod = cpy b dat_mem_ack_fod;
    dat_system_last_var = junk;
  }

-- `to_ulong` converts a float to an `unsigned long`.
unfoldable pub dat_print_status : (ℕ → ℕ) → DatStatus → List Row
dat_print_status to_ulong status =
    whole dat_obc_opmode (widened status.dat_obc_opmode)
    ∷ whole dat_obc_last_reset (widened status.dat_obc_last_reset)
    ∷ whole dat_obc_hrs_alive (widened status.dat_obc_hrs_alive)
    ∷ whole dat_obc_hrs_wo_reset (widened status.dat_obc_hrs_wo_reset)
    ∷ whole dat_obc_reset_counter (widened status.dat_obc_reset_counter)
    ∷ whole dat_obc_sw_wdt (widened status.dat_obc_sw_wdt)
    ∷ real dat_obc_temp_1 status.dat_obc_temp_1
    ∷ real dat_obc_temp_2 status.dat_obc_temp_2
    ∷ real dat_obc_temp_3 status.dat_obc_temp_3
    ∷ whole dat_dep_deployed (widened status.dat_dep_deployed)
    ∷ whole dat_dep_ant_deployed (widened status.dat_dep_ant_deployed)
    ∷ whole dat_dep_date_time (widened status.dat_dep_date_time)
    ∷ whole dat_rtc_date_time (widened status.dat_rtc_date_time)
    ∷ whole dat_com_count_tm (widened status.dat_com_count_tm)
    ∷ whole dat_com_count_tc (widened status.dat_com_count_tc)
    ∷ whole dat_com_last_tc (widened status.dat_com_last_tc)
    ∷ whole dat_com_freq status.dat_com_freq
    ∷ whole dat_com_tx_pwr status.dat_com_tx_pwr
    ∷ whole dat_com_baud status.dat_com_baud
    ∷ whole dat_com_mode status.dat_com_mode
    ∷ whole dat_com_bcn_period status.dat_com_bcn_period
    ∷ whole dat_fpl_last (widened status.dat_fpl_last)
    ∷ whole dat_fpl_queue (widened status.dat_fpl_queue)
    ∷ real dat_ads_acc_x status.dat_ads_acc_x
    ∷ real dat_ads_acc_y status.dat_ads_acc_y
    ∷ real dat_ads_acc_z status.dat_ads_acc_z
    ∷ real dat_ads_mag_x status.dat_ads_mag_x
    ∷ real dat_ads_mag_y status.dat_ads_mag_y
    ∷ real dat_ads_mag_z status.dat_ads_mag_z
    ∷ whole dat_eps_vbatt status.dat_eps_vbatt
    ∷ whole dat_eps_cur_sun status.dat_eps_cur_sun
    ∷ whole dat_eps_cur_sys status.dat_eps_cur_sys
    ∷ whole dat_eps_temp_bat0 status.dat_eps_temp_bat0
    ∷ whole dat_fod_ver (to_ulong status.dat_fod_ver)
    ∷ whole dat_fod_released (widened status.dat_fod_released)
    ∷ whole dat_fod_on_time (widened status.dat_fod_on_time)
    ∷ whole dat_fod_attempts (widened status.dat_fod_attempts)
    ∷ whole dat_mem_temp status.dat_mem_temp
    ∷ whole dat_mem_ads status.dat_mem_ads
    ∷ whole dat_mem_eps status.dat_mem_eps
    ∷ whole dat_mem_lang status.dat_mem_lang
    ∷ whole dat_mem_gps status.dat_mem_gps
    ∷ whole dat_mem_prs status.dat_mem_prs
    ∷ whole dat_mem_dpl status.dat_mem_dpl
    ∷ whole dat_mem_fod status.dat_mem_fod
    ∷ whole dat_mem_ack_temp status.dat_mem_ack_temp
    ∷ whole dat_mem_ack_ads status.dat_mem_ack_ads
    ∷ whole dat_mem_ack_eps status.dat_mem_ack_eps
    ∷ whole dat_mem_ack_lang status.dat_mem_ack_lang
    ∷ whole dat_mem_ack_gps status.dat_mem_ack_gps
    ∷ whole dat_mem_ack_prs status.dat_mem_ack_prs
    ∷ whole dat_mem_ack_dpl status.dat_mem_ack_dpl
    ∷ whole dat_mem_ack_fod status.dat_mem_ack_fod
    ∷ []
