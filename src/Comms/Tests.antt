-- ===== src/Comms/Tests.antt =====
-- The theorems on src/system/taskCommunications.c and src/system/cmdCOM.c at concrete inputs.
use balloon_suchai_flight_so.Prelude.{
  ℕ, ◌+◌, ◌*◌, ◌%◌, ◌^◌, ◌≡◌, ◌≢◌, refl, ap, true, List, [], ◌∷◌, Option, none, some, arith, ◌==◌,
  leb, if◌then◌else◌, All,
}
use balloon_suchai_flight_so.Prelude.Words.{add_32}
use balloon_suchai_flight_so.Prelude.Text.{Text, codes}
use balloon_suchai_flight_so.Commands.{Cmd}
use balloon_suchai_flight_so.Commands.Idle.{idle, idle-IsValid}
use balloon_suchai_flight_so.Status.{IsValid, blank, vote, dat_set_system_var, dat_get_system_var}
use balloon_suchai_flight_so.Status.Vars.{index}
use balloon_suchai_flight_so.Status.Vars.DatSystem.{dat_com_count_tc, dat_com_last_tc, dat_mem_prs}
use balloon_suchai_flight_so.Payload.{PayloadId, Memory, index_of, data_map}
use balloon_suchai_flight_so.Payload.InMemory.{in_memory}
use PayloadId.{prs_sensors}
use balloon_suchai_flight_so.Telemetry.{number_of, frame_max_len}
use balloon_suchai_flight_so.Comms.{
  Received, Packet, serve, port_tc, com_receive_tc, com_receive_tm,
}
use balloon_suchai_flight_so.Comms.Lines.{IsLine, fields, not_empty, parse_all, com_receive_tc_lem}
use balloon_suchai_flight_so.Comms.Storing.{add_all}
use balloon_suchai_flight_so.Comms.Overrun.{structs_from, com_receive_tm_exact}
use balloon_suchai_flight_so.Comms.Packets.{answers_on, every_packet_is_served}
use balloon_suchai_flight_so.Comms.Radio.{Csp}

-- A frame splits at its semicolons, and empty parts are left out.
parts : not_empty (fields (codes ";help;;ping 1;")) ≡ codes "help" ∷ codes "ping 1" ∷ []
unfolding fields not_empty
parts = refl

com_receive_tc_lem_example :
    com_receive_tc (codes ";null;;null 1;") idle
    ≡ parse_all (not_empty (fields (codes ";null;;null 1;"))) idle
com_receive_tc_lem_example = com_receive_tc_lem (codes ";null;;null 1;") idle

not_nothing : (c : ℕ) (s : Text) → c ∷ s ≢ []
not_nothing c s e = omega (arith, ap first e)
  where
    first : Text → ℕ
    first [] = 0
    first (c ∷ s) = c + 1

two_lines : All IsLine (codes "null" ∷ codes "pg 1" ∷ [])
two_lines = (
  (not_nothing _ _, (refl, (refl, (refl, (refl, tt))))),
  ((not_nothing _ _, (refl, (refl, (refl, (refl, tt))))), tt),
)

-- Three samples of the pressure sensor, each equal to its place.
abbrev three : Memory (ℕ → Option ℕ)
unfolding dat_set_system_var
three = record { buff = dat_set_system_var blank (index dat_mem_prs) 3; store = λ i. some i }

three_facts : IsValid three.buff × (index_of three.buff prs_sensors ≡ 3)
unfolding three dat_get_system_var vote dat_set_system_var
three_facts = (refl, refl)

-- A frame that announces 13 structs of 16 bytes.
abbrev thirteen : Received ℕ
thirteen = record { tm_type = 15; ndata = 13; data8 = []; struct_at = λ offset. offset }

com_receive_tm_exact_example : com_receive_tm in_memory thirteen idle three ≡ (
    if leb (13 * (data_map prs_sensors).size % 2 ^ 32) frame_max_len
    then some
        ([], add_all in_memory prs_sensors (structs_from in_memory prs_sensors thirteen 0 13) three)
    else none)
unfolding number_of
com_receive_tm_exact_example = com_receive_tm_exact in_memory prs_sensors thirteen idle three refl

abbrev telecommand : Packet ℕ
telecommand = record { dport = port_tc; dst = 1; text = codes "null"; frame = thirteen }

every_packet_is_served_example :
    (cmds : List Cmd) × (m' : Memory (ℕ → Option ℕ)) × (serve in_memory 77 telecommand idle three
      ≡ some (cmds, answers_on 10 1, m'))
    × (m'.store ≡ three.store)
    × (dat_get_system_var m'.buff (index dat_com_last_tc) ≡ (
        if index dat_com_last_tc == index dat_com_last_tc
        then 77
        else if index dat_com_count_tc == index dat_com_last_tc
        then add_32 (dat_get_system_var three.buff (index dat_com_count_tc)) 1
        else dat_get_system_var three.buff (index dat_com_last_tc)))
every_packet_is_served_example =
    every_packet_is_served in_memory 77 telecommand idle three (index dat_com_last_tc) idle-IsValid
      (three_facts.0) (λ e. omega (arith, e)) (omega arith)

-- A CSP that answers each call with 1 and each transaction with 200.
abbrev answering : Csp ℕ
answering = record { result = λ call. 1; reply_byte = λ call. 200; buffer_get = λ n. true }
