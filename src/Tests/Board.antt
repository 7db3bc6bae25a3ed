-- ===== src/Tests/Board.antt =====
-- The relay controller on a board that answers: switching, parsing, and the rounds of the task.
use esp32_band_decoder.Base.{
  [], ◌∷◌, inl, ℕ, ◌+◌, ◌≤◌, ◌≡◌, ◌≢◌, ◌++◌, refl, true, false, some, arith, pos, length,
}
use esp32_band_decoder.Err.{ok, timeout}
use esp32_band_decoder.Relay.Command.Encoding.{decode, word_of, set_all_command_switches}
use esp32_band_decoder.Relay.Command.Safety.{
  SameRelays, Exclusive, turn_off_all_relays_except_cases,
}
use esp32_band_decoder.Relay.Command
use esp32_band_decoder.Relay.Command.{
  send_command, turn_off_all_relays_except, set_all_command, d1_of, d0_of,
}
use esp32_band_decoder.Relay.Response.RoundTrip.{reply_head, reply_body, parse_state-reply}
use esp32_band_decoder.Relay.Response.Sound.{IsConsistent, parse_relay_state_response-IsConsistent}
use esp32_band_decoder.Relay.Response.{parse_state, parse_relay_state_response}
use esp32_band_decoder.Relay.Task.Exclusive.{execute_relay_change_cases}
use esp32_band_decoder.Relay.Task
use esp32_band_decoder.Relay.Task.Interleaved.{ask, request_round_during, request_round_during-ask}
use esp32_band_decoder.Relay.Task.Machine.{Moves, view}
use esp32_band_decoder.Relay.Task.Refines.{Reach-Moves}
use esp32_band_decoder.Relay.Task.Reachable.{
  Running, Reach, here, later, antenna_asked, task_round, Reach-IsShown,
}
use esp32_band_decoder.Relay.Task.Shown.{IsShown}
use esp32_band_decoder.Relay.Task.Rounds.{set_relay_off_keeps_on}
use esp32_band_decoder.Relay.Task.{
  Loop, connection_round, execute_relay_change, request_round, tcp_task_round,
}
use esp32_band_decoder.Relay.{
  Channel, Relay, RelayChangeRequest, bit, no_request, set_relay, set_relay_for_antenna,
}
use esp32_band_decoder.Tests.{board, controller, relay_two_on}
use esp32_band_decoder.Text
use esp32_band_decoder.Text.{Bytes, codes}

-- A board that never answers.
abbrev dead_board : Channel ℕ
dead_board = record board { receive_message = λ buffer size ms c. (timeout, buffer, c + ms) }

switched_ok : (execute_relay_change board (pos 2) (pos 1) controller).0 ≡ ok
unfolding execute_relay_change Task.cool_down Task.finish_change turn_off_all_relays_except
    send_command Command.exchange Command.process_response parse_relay_state_response Text.contains
    set_all_command Text.c_str
switched_ok = refl

execute_relay_change_cases_example :
    Exclusive (pos 2) (execute_relay_change board (pos 2) (pos 1) controller).1
    × ((execute_relay_change board (pos 2) (pos 1) controller).1.last_selected_relay_for_band
          (pos 1)
        ≡ some (pos 2))
execute_relay_change_cases_example =
    (execute_relay_change_cases board (pos 2) (pos 1) controller (λ h. ground arith)).1 switched_ok

dead_switch_failed : (turn_off_all_relays_except dead_board (pos 2) controller).0 ≢ ok
unfolding turn_off_all_relays_except send_command Command.exchange Text.contains set_all_command
dead_switch_failed h = cc

turn_off_all_relays_except_cases_example :
    SameRelays controller (turn_off_all_relays_except dead_board (pos 2) controller).1
turn_off_all_relays_except_cases_example =
    (turn_off_all_relays_except_cases dead_board (pos 2) controller).1 dead_switch_failed

dead_command_failed :
    (send_command dead_board (codes "RELAY-STATE-255") (codes "OK") 500 controller).0 ≢ ok
unfolding send_command Command.exchange Text.contains
dead_command_failed h = cc

set_all_command_switches_example :
    (decode (set_all_command 10) ≡ some (d1_of 10, d0_of 10))
    × (bit (word_of 10) 9 ≡ true)
    × (length (set_all_command 10) ≤ 126)
set_all_command_switches_example = set_all_command_switches 9 9 (omega arith) (omega arith)

parse_state-reply_example :
    parse_state
      (codes "OK\nRELAY-STATE-255,1,1,OK\n" ++ (reply_head true ++ reply_body 128 5 (codes "\r\n")))
    ≡ some (128, 5)
parse_state-reply_example =
    parse_state-reply (codes "OK\nRELAY-STATE-255,1,1,OK\n") true 128 5 (codes "\r\n") (omega arith)
      (omega arith) (refl, (refl, tt))

two_parses : parse_state relay_two_on ≡ some (0, 2)
unfolding Text.to_string
two_parses = parse_state-reply [] true 0 2 [] (omega arith) (omega arith) tt

two_parses_ok : (parse_relay_state_response relay_two_on controller).0 ≡ ok
unfolding parse_relay_state_response
two_parses_ok = ground (arith, two_parses)

parse_relay_state_response-IsConsistent_example :
    IsConsistent (parse_relay_state_response relay_two_on controller).1
parse_relay_state_response-IsConsistent_example =
    (parse_relay_state_response-IsConsistent relay_two_on controller).0 two_parses_ok

abbrev idle_loop : Loop
idle_loop = record { last_processed = no_request; last_connection_check = 0 }

abbrev asked : Relay ℕ
asked = record controller { latest_request = record { relay_id = pos 2; band_number = pos 1 } }

set_relay_off_keeps_on_example :
    let off = set_relay (pos 1) false controller in
    let s = tcp_task_round board (idle_loop, off.1) in
    (off.0 ≡ ok)
    × ((s.1).relay_states ≡ controller.relay_states)
    × ((s.1).currently_selected_relay ≡ pos 1)
    × ((s.1).tcp_client ≡ board.delay 20 (connection_round board (idle_loop, off.1)).1.tcp_client)
set_relay_off_keeps_on_example =
    set_relay_off_keeps_on board idle_loop 1 controller (omega arith) (omega arith) refl refl

-- A new controller on which two tasks run is asked for relay 2, and each task makes a round.
abbrev fresh : Relay ℕ
fresh = record controller { currently_selected_relay = pos 0; relay_state_bitfield = 0 }

abbrev wanted : Relay ℕ
wanted = (set_relay_for_antenna (pos 2) (pos 1) fresh).1

abbrev first_round : Loop × Relay ℕ
first_round = tcp_task_round board (idle_loop, wanted)

abbrev second_round : Loop × Relay ℕ
second_round = tcp_task_round board (idle_loop, first_round.1)

abbrev two_tasks : Running ℕ
two_tasks = (idle_loop ∷ idle_loop ∷ [], fresh)

abbrev both_done : Running ℕ
both_done = (first_round.0 ∷ second_round.0 ∷ [], second_round.1)

two_rounds-Reach : Reach board two_tasks both_done
two_rounds-Reach =
    later
      (later (later here (antenna_asked (idle_loop ∷ idle_loop ∷ []) fresh (pos 2) (pos 1)))
        (task_round [] (idle_loop ∷ []) idle_loop wanted))
      (task_round (first_round.0 ∷ []) [] idle_loop first_round.1)

Reach-IsShown_example : IsShown both_done.1
Reach-IsShown_example = Reach-IsShown board two_rounds-Reach (inl refl)

Reach-Moves_example : Moves (view two_tasks) (view both_done)
Reach-Moves_example = Reach-Moves board two_rounds-Reach

-- While the task switches to relay 2, relay 3 is asked for.
request_round_during-ask_example :
    let s = request_round board (idle_loop, asked) in
    let wish : RelayChangeRequest = record { relay_id = pos 3; band_number = pos 2 } in
    request_round_during board wish (idle_loop, asked) ≡ (s.0, ask wish s.1)
request_round_during-ask_example =
    request_round_during-ask board (record { relay_id = pos 3; band_number = pos 2 }) idle_loop
      asked
