-- ===== src/Relay.antt =====
-- main/relay_controller.h and the state-free parts of relay_controller.cpp: the controller's
-- state, the requests that other tasks leave for the TCP task, and the accessors.
-- The TCP client is the interface `Channel`, which TcpClient implements; its state `C` also holds
-- the clock, since waiting and talking to the network take time.
pub mod Bits
pub mod Response
pub mod Command
pub mod Task
pub mod Verify
use esp32_band_decoder.Base.{
  ℕ, zero, suc, ◌+◌, ◌-◌, ◌*◌, ◌/◌, ◌%◌, ◌^◌, Bool, true, false, not, ◌&&◌, ◌||◌, [], Option, none,
  some, ◌==◌, if◌then◌else◌, ℤ, pos, negsuc, pos_part, ltb_ℤ, eq_ℤ, minus_one,
}
use esp32_band_decoder.Err.{Err, ok, invalid_arg}
use esp32_band_decoder.Text.{Bytes}

-- What the controller calls on its TCP client, and the calls that read or spend time.
pub record Channel (C : Type 0) : Type 0 where
  pub connect : Bytes → ℕ → C → Err × C
  pub ensure_connected : C → Err × C
  pub check_connection_status : C → Bool × C
  pub close : C → C
  pub send_message : Bytes → C → Err × C
  -- The old contents of the buffer, its size and the timeout; the new contents are returned.
  pub receive_message : Bytes → ℕ → ℕ → C → Err × Bytes × C
  pub delay : ℕ → C → C
  -- The steady clock in milliseconds, and the tick counter.
  pub now : C → ℕ
  pub ticks : C → ℕ

pub record RelayChangeRequest : Type 0 where
  pub relay_id : ℤ
  pub band_number : ℤ

-- `pdMS_TO_TICKS` at the CONFIG_FREERTOS_HZ of sdkconfig, 100.
abbrev pub ms_to_ticks : ℕ → ℕ
ms_to_ticks ms = ms * 100 / 1000

abbrev pub num_relays : ℕ
num_relays = 16

-- `std::map<int, bool>` from relay ids, and `std::map<int, int>` from bands.
abbrev pub RelayStates : Type 0
RelayStates = ℕ → Option Bool

pub record Relay (C : Type 0) : Type 0 where
  pub tcp_client : C
  pub relay_states : RelayStates
  pub last_selected_relay_for_band : ℤ → Option ℤ
  pub currently_selected_relay : ℤ
  pub last_band_change_time : ℕ
  pub tcp_host : Bytes
  pub tcp_port : ℕ
  pub last_command : Bytes
  pub relay_state_bitfield : ℕ
  pub latest_request : RelayChangeRequest
  -- The static buffer of `send_command`.
  pub response : Bytes
  -- How many tasks run `tcp_task` on this object.
  pub tcp_tasks : ℕ

-- `operator==` of a request.
abbrev pub eq_request : RelayChangeRequest → RelayChangeRequest → Bool
eq_request a b = eq_ℤ a.relay_id b.relay_id && eq_ℤ a.band_number b.band_number

abbrev pub no_request : RelayChangeRequest
no_request = record { relay_id = pos 0; band_number = minus_one }

-- `relay_id < 1 || relay_id > NUM_RELAYS`.
abbrev pub bad_relay : ℤ → Bool
bad_relay relay_id = ltb_ℤ relay_id (pos 1) || ltb_ℤ (pos num_relays) relay_id

-- `(word & (1 << k)) != 0`.
abbrev pub bit : ℕ → ℕ → Bool
bit word k = (word / 2 ^ k) % 2 == 1

abbrev pub update : {V : Type 0} → (ℕ → V) → ℕ → V → ℕ → V
update m i v j = if i == j then v else m j

-- `for (i = 1; i <= n; ++i) relay_states_[i] = f(i)`.
unfoldable pub assign_up_to : ℕ → (ℕ → Bool) → RelayStates → RelayStates
assign_up_to zero f states = states
assign_up_to (suc n) f states = update (assign_up_to n f states) (suc n) (some (f (suc n)))

abbrev pub update_ℤ : {V : Type 0} → (ℤ → V) → ℤ → V → ℤ → V
update_ℤ m i v j = if eq_ℤ i j then v else m j

abbrev pub value_or_false : Option Bool → Bool
value_or_false none = false
value_or_false (some b) = b

module _ {C : Type 0} where
  unfoldable pub new : C → ℕ → Relay C
  new client start = record {
    tcp_client = client;
    relay_states = λ i. none;
    last_selected_relay_for_band = λ b. none;
    currently_selected_relay = pos 0;
    last_band_change_time = start;
    tcp_host = [];
    tcp_port = 0;
    last_command = [];
    relay_state_bitfield = 0;
    latest_request = no_request;
    response = [];
    tcp_tasks = 0;
  }

  unfoldable pub set_tcp_host : Bytes → Relay C → Relay C
  set_tcp_host host r = record r { tcp_host = host }

  unfoldable pub set_tcp_port : ℕ → Relay C → Relay C
  set_tcp_port port r = record r { tcp_port = port }

  unfoldable pub get_tcp_host : Relay C → Bytes
  get_tcp_host r = r.tcp_host

  unfoldable pub get_tcp_port : Relay C → ℕ
  get_tcp_port r = r.tcp_port

  unfoldable pub get_all_relay_states : Relay C → RelayStates
  get_all_relay_states r = r.relay_states

  unfoldable pub get_currently_selected_relay : Relay C → ℤ
  get_currently_selected_relay r = r.currently_selected_relay

  unfoldable pub set_relay : ℤ → Bool → Relay C → Err × Relay C
  set_relay relay_id state r =
      let current = bit r.relay_state_bitfield (pos_part relay_id - 1) in
      if bad_relay relay_id
      then (invalid_arg, r)
      else if (current && state) || (not current && not state)
      then (ok, r)
      else (ok, record r { latest_request = record { relay_id = relay_id; band_number = pos 0 } })

  unfoldable pub set_relay_for_antenna : ℤ → ℤ → Relay C → Err × Relay C
  set_relay_for_antenna relay_id band_number r =
      let request : RelayChangeRequest = record {
        relay_id = relay_id;
        band_number = band_number;
      } in
      if bad_relay relay_id
      then (invalid_arg, r)
      else if eq_request r.latest_request request
      then (ok, r)
      else (ok, record r { latest_request = request })

  -- `relay_states_.at(relay_id)` throws on a missing key: `none`.
  unfoldable pub get_relay_state : ℤ → Relay C → Option Bool
  get_relay_state relay_id r =
      if bad_relay relay_id then some false else r.relay_states (pos_part relay_id)

  unfoldable pub get_last_selected_relay_for_band : ℤ → Relay C → ℤ
  get_last_selected_relay_for_band band_number r =
      elim (r.last_selected_relay_for_band band_number) [ none ↦ pos 0 | some id ↦ id ]

  unfoldable pub is_correct_relay_set : ℤ → Relay C → Bool
  unfolding get_last_selected_relay_for_band
  is_correct_relay_set band_number r =
      let last = get_last_selected_relay_for_band band_number r in
      eq_ℤ r.currently_selected_relay last && not (eq_ℤ last (pos 0))
