-- ===== src/Commands/Boot.antt =====
-- The commands that `cmd_repo_init` of src/system/repoCommand.c registers on Linux, in its order:
-- the `cmd_..._init` functions of src/system/cmdOBC.c, cmdDRP.c, cmdCOM.c, cmdTM.c, cmdSubSys.c,
-- cmdRW.c, cmdFOD.c, cmdConsole.c and cmdFP.c.
use balloon_suchai_flight_so.Prelude.{List, [], ◌∷◌, ◌++◌}
use balloon_suchai_flight_so.Prelude.Text.{codes}
use balloon_suchai_flight_so.Commands.{Registration}

abbrev pub cmd_obc_init : List Registration
cmd_obc_init =
    (codes "obc_ident", codes "obc_ident", codes "", 0)
    ∷ (codes "obc_debug", codes "obc_debug", codes "%d", 1)
    ∷ (codes "obc_reset", codes "obc_reset", codes "", 0)
    ∷ (codes "obc_get_mem", codes "obc_get_os_memory", codes "", 0)
    ∷ (codes "obc_set_time", codes "obc_set_time", codes "%d", 1)
    ∷ (codes "obc_get_time", codes "obc_get_time", codes "%d", 1)
    ∷ (codes "obc_reset_wdt", codes "obc_reset_wdt", codes "", 0)
    ∷ (codes "obc_system", codes "obc_system", codes "%s", 1)
    ∷ (codes "obc_set_pwm_duty", codes "obc_set_pwm_duty", codes "%d %d", 2)
    ∷ (codes "obc_get_sensors", codes "obc_get_sensors", codes "", 0)
    ∷ (codes "obc_update_status", codes "obc_update_status", codes "", 0)
    ∷ []

abbrev pub cmd_drp_init : List Registration
cmd_drp_init =
    (codes "drp_ebf", codes "drp_execute_before_flight", codes "%d", 1)
    ∷ (codes "drp_get_vars", codes "drp_print_system_vars", codes "", 0)
    ∷ (codes "drp_set_var", codes "drp_update_sys_var_idx", codes "%d %d", 2)
    ∷ (codes "drp_add_hrs_alive", codes "drp_update_hours_alive", codes "%d", 1)
    ∷ (codes "drp_clear_gnd_wdt", codes "drp_clear_gnd_wdt", codes "", 0)
    ∷ (codes "drp_test_system_vars", codes "drp_test_system_vars", codes "", 0)
    ∷ (codes "drp_set_deployed", codes "drp_set_deployed", codes "%d", 1)
    ∷ []

abbrev pub cmd_com_init : List Registration
cmd_com_init =
    (codes "com_ping", codes "com_ping", codes "%d", 1)
    ∷ (codes "com_send_rpt", codes "com_send_rpt", codes "%d %s", 2)
    ∷ (codes "com_send_cmd", codes "com_send_cmd", codes "%d %n", 1)
    ∷ (codes "com_send_tc", codes "com_send_tc_frame", codes "%d %n", 1)
    ∷ (codes "com_send_data", codes "com_send_data", codes "%p", 1)
    ∷ (codes "com_debug", codes "com_debug", codes "", 0)
    ∷ []

abbrev pub cmd_tm_init : List Registration
cmd_tm_init =
    (codes "tm_parse_status", codes "tm_parse_status", codes "", 0)
    ∷ (codes "tm_send_status", codes "tm_send_status", codes "%d", 1)
    ∷ (codes "tm_send_last", codes "tm_send_last", codes "%u %u", 2)
    ∷ (codes "tm_send_all", codes "tm_send_all", codes "%u %u", 2)
    ∷ (codes "tm_send_from", codes "tm_send_from", codes "%u %u %u", 3)
    ∷ (codes "tm_set_ack", codes "tm_set_ack", codes "%u %u", 2)
    ∷ []

abbrev pub cmd_subsys_init : List Registration
cmd_subsys_init =
    (codes "get_gps_data", codes "get_gps_data", codes "", 0)
    ∷ (codes "get_dpl_data", codes "get_dpl_data", codes "", 0)
    ∷ (codes "get_prs_data", codes "get_prs_data", codes "", 0)
    ∷ (codes "open_dpl_1", codes "open_dpl_1", codes "", 0)
    ∷ (codes "open_dpl_2", codes "open_dpl_2", codes "", 0)
    ∷ (codes "open_dpl_sm", codes "open_dpl_sm", codes "", 0)
    ∷ (codes "close_dpl_sm", codes "close_dpl_sm", codes "", 0)
    ∷ (codes "send_iridium_data", codes "send_iridium_data", codes "", 2)
    ∷ (codes "send_iridium_msg1", codes "send_iridium_msg1", codes "", 0)
    ∷ (codes "send_iridium_msg2", codes "send_iridium_msg2", codes "", 0)
    ∷ (codes "run_sstv", codes "run_sstv", codes "", 0)
    ∷ (codes "send_xbee_data", codes "send_xbee_data", codes "", 0)
    ∷ (codes "send_sun_data", codes "send_sun_data", codes "", 0)
    ∷ []

abbrev pub cmd_rw_init : List Registration
cmd_rw_init =
    (codes "rw_sample_speed", codes "rw_sample_speed", codes "", 0)
    ∷ (codes "rw_sample_current", codes "rw_sample_current", codes "", 0)
    ∷ (codes "rw_get_speed", codes "rw_get_speed", codes "", 0)
    ∷ (codes "rw_get_current", codes "rw_get_current", codes "", 0)
    ∷ (codes "rw_set_speed", codes "rw_set_speed", codes "%d", 1)
    ∷ []

abbrev pub cmd_fod_init : List Registration
cmd_fod_init =
    (codes "fod_update_data", codes "fod_update_data", codes "%d %d %d %d %f %f %f", 7)
    ∷ (codes "fod_send_beacon", codes "fod_send_beacon", codes "", 0)
    ∷ (codes "fod_deploy", codes "deploy_femtosats", codes "", 0)
    ∷ (codes "fod_get_status", codes "fod_get_status", codes "", 0)
    ∷ (codes "fod_get_femtosat_data", codes "get_femtosat_data", codes "", 0)
    ∷ (codes "fod_set_on_time", codes "set_on_time", codes "%d", 1)
    ∷ (codes "fod_get_config", codes "fod_get_config", codes "", 0)
    ∷ (codes "fod_get_version", codes "fod_get_version", codes "", 0)
    ∷ (codes "fod_enable_low_power", codes "enable_low_power_mode", codes "", 0)
    ∷ (codes "fod_disable_low_power", codes "disable_low_power_mode", codes "", 0)
    ∷ (codes "fod_help", codes "fod_help", codes "", 0)
    ∷ []

abbrev pub cmd_console_init : List Registration
cmd_console_init =
    (codes "test", codes "con_debug_msg", codes "%s", 1)
    ∷ (codes "help", codes "con_help", codes "", 0)
    ∷ []

abbrev pub cmd_fp_init : List Registration
cmd_fp_init =
    (codes "fp_set_cmd", codes "fp_set", codes "%d %d %d %d %d %d %s %s %d %d", 10)
    ∷ (codes "fp_del_cmd", codes "fp_delete", codes "%d %d %d %d %d %d", 6)
    ∷ (codes "fp_show", codes "fp_show", codes "", 0)
    ∷ (codes "fp_reset", codes "fp_reset", codes "", 0)
    ∷ (codes "fp_test_params", codes "test_fp_params", codes "%d %s %d", 3)
    ∷ []

-- The calls of `cmd_repo_init` with SCH_COMM_ENABLE, and without SCH_FP_ENABLED, SCH_TEST_ENABLED
-- and SCH_USE_NANOPOWER.
abbrev pub boot_commands : List Registration
boot_commands =
    cmd_obc_init
    ++ (cmd_drp_init
        ++ (cmd_com_init
            ++ (cmd_tm_init
                ++ (cmd_subsys_init ++ (cmd_rw_init ++ (cmd_fod_init ++ cmd_console_init))))))

-- The same build with SCH_FP_ENABLED.
abbrev pub boot_commands_fp : List Registration
boot_commands_fp = boot_commands ++ cmd_fp_init
