-- ===== src/Relay/Task/Reachable.antt =====
-- The controller under any order of what its clients and its own tasks do: each `init` starts a task
-- with a loop of its own.
use esp32_band_decoder.Base.{
  ℕ, zero, suc, ◌+◌, ◌*◌, ◌≡◌, ◌⊎◌, inl, inr, Bool, ℤ, arith, Bool-cases, List, ◌∷◌, ◌++◌,
  if◌then◌else◌,
}
use esp32_band_decoder.Err.{Err, is_ok}
use esp32_band_decoder.Relay.Command.{
  update_all_relay_states, update_relay_states, turn_off_all_relays, retry_states, init,
}
use esp32_band_decoder.Relay.Task.Shown.{
  IsShown, IsShown-keep, update_relay_states-IsShown, turn_off_all_relays-IsShown,
  tcp_task_round-IsShown,
}
use esp32_band_decoder.Relay.Task.{Loop, tcp_task_round}
use esp32_band_decoder.Relay.{
  Channel, Relay, no_request, set_relay, set_relay_for_antenna, set_tcp_host,
}
use esp32_band_decoder.Text.{Bytes}

-- The tasks that run on a controller, and the controller.
abbrev pub Running : Type 0 → Type 0
Running C = List Loop × Relay C

-- What `init` starts if it succeeds: one more task, which has carried out nothing yet.
abbrev pub new_task : {C : Type 0} → Channel C → Relay C → Loop
new_task channel r = record {
  last_processed = no_request;
  last_connection_check = channel.ticks r.tcp_client;
}

abbrev pub started : {C : Type 0} → Channel C → List Loop → Err × Relay C → List Loop
started channel tasks (e, r) = if is_ok e then new_task channel r ∷ tasks else tasks

-- One of the tasks, picked out of the others.
abbrev pub among : {C : Type 0} → List Loop → List Loop → Loop × Relay C → Running C
among before after (l, r) = (before ++ (l ∷ after), r)

-- One operation: of a client, or a round of one of the tasks.
pub data Step {C : Type 0} (channel : Channel C) : Running C → Running C → Type 0 where
  task_round :
      (before after : List Loop) (l : Loop) (r : Relay C)
      → Step channel
          (among before after (l, r))
          (among before after (tcp_task_round channel (l, r)))
  antenna_asked :
      (tasks : List Loop) (r : Relay C) (relay_id band_number : ℤ)
      → Step channel (tasks, r) (tasks, (set_relay_for_antenna relay_id band_number r).1)
  relay_asked :
      (tasks : List Loop) (r : Relay C) (relay_id : ℤ) (state : Bool)
      → Step channel (tasks, r) (tasks, (set_relay relay_id state r).1)
  states_read :
      (tasks : List Loop) (r : Relay C)
      → Step channel (tasks, r) (tasks, (update_relay_states channel r).1)
  all_turned_off :
      (tasks : List Loop) (r : Relay C)
      → Step channel (tasks, r) (tasks, (turn_off_all_relays channel r).1)
  host_set :
      (tasks : List Loop) (r : Relay C) (host : Bytes)
      → Step channel (tasks, r) (tasks, set_tcp_host host r)
  initialised :
      (tasks : List Loop) (r : Relay C)
      → Step channel (tasks, r) (started channel tasks (init channel r), (init channel r).1)

pub data Reach {C : Type 0} (channel : Channel C) (start : Running C) : Running C → Type 0 where
  here : Reach channel start start
  later : {s t : Running C} → Reach channel start s → Step channel s t → Reach channel start t

module _ {C : Type 0} (channel : Channel C) where
  retry_states-IsShown :
      (left i : ℕ) (r : Relay C) → IsShown r → IsShown (retry_states channel left i r)
  unfolding retry_states update_relay_states
  retry_states-IsShown zero i r h = h
  retry_states-IsShown (suc left) i r h =
      let asked = update_all_relay_states channel r in
      let shown = update_relay_states-IsShown channel r h in
      let waited : Relay C = record (asked.1) {
        tcp_client = channel.delay (100 * (i + 1)) (asked.1).tcp_client;
      } in
      elim (Bool-cases (is_ok asked.0)) [
        | inl good ↦ rw (good, retry_states) shown
        | inr bad ↦ rw (bad, retry_states) (retry_states-IsShown left (i + 1) waited shown)
      ]

  init_cases :
      (r : Relay C)
      → let connected = channel.connect r.tcp_host r.tcp_port r.tcp_client in
        let r1 : Relay C = record r { tcp_client = connected.1 } in
        let t = (init channel r).1 in
        let r2 = retry_states channel 3 0 r1 in
        ((t.relay_states ≡ r.relay_states)
          × (t.currently_selected_relay ≡ r.currently_selected_relay))
        ⊎ ((t.relay_states ≡ r2.relay_states)
            × (t.currently_selected_relay ≡ r2.currently_selected_relay))
  unfolding init
  init_cases r = ground arith

  init-IsShown : (r : Relay C) → IsShown r → IsShown (init channel r).1
  init-IsShown r h =
      let connected = channel.connect r.tcp_host r.tcp_port r.tcp_client in
      let r1 : Relay C = record r { tcp_client = connected.1 } in
      elim (init_cases r) [
        | inl (e, f) ↦ IsShown-keep r (init channel r).1 e f h
        | inr (e, f) ↦
            IsShown-keep (retry_states channel 3 0 r1) (init channel r).1 e f
              (retry_states-IsShown 3 0 r1 h)
      ]

  asked-IsShown :
      (id band : ℤ) (r : Relay C) → IsShown r → IsShown (set_relay_for_antenna id band r).1
  unfolding set_relay_for_antenna
  asked-IsShown id band r h =
      IsShown-keep r (set_relay_for_antenna id band r).1 (ground arith) (ground arith) h

  set-IsShown : (id : ℤ) (b : Bool) (r : Relay C) → IsShown r → IsShown (set_relay id b r).1
  unfolding set_relay
  set-IsShown id b r h = IsShown-keep r (set_relay id b r).1 (ground arith) (ground arith) h

  Step-IsShown : {s t : Running C} → Step channel s t → IsShown s.1 → IsShown t.1
  unfolding set_tcp_host
  Step-IsShown (task_round before after l r) h = tcp_task_round-IsShown channel (l, r) h
  Step-IsShown (antenna_asked tasks r relay_id band_number) h =
      asked-IsShown relay_id band_number r h
  Step-IsShown (relay_asked tasks r relay_id state) h = set-IsShown relay_id state r h
  Step-IsShown (states_read tasks r) h = update_relay_states-IsShown channel r h
  Step-IsShown (all_turned_off tasks r) h = turn_off_all_relays-IsShown channel r h
  Step-IsShown (host_set tasks r host) h = h
  Step-IsShown (initialised tasks r) h = init-IsShown r h

  -- From a state in which this holds, such as a new controller, whatever operations its clients and
  -- its tasks carry out one after the other, `init` included, of which each that succeeds starts a
  -- task, and whatever the board answers: no relay is selected, or the selected one is a relay of the
  -- board that the cached map shows as on.
  pub Reach-IsShown : {start s : Running C} → Reach channel start s → IsShown start.1 → IsShown s.1
  Reach-IsShown here h = h
  Reach-IsShown (later before step) h = Step-IsShown step (Reach-IsShown before h)
