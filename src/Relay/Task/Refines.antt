-- ===== src/Relay/Task/Refines.antt =====
-- The relay controller implements the machine of Relay/Task/Machine.
use mathlib.Core.Path.{subst}
use esp32_band_decoder.Base.{
  ◌≡◌, ◌≢◌, ◌⊎◌, inl, inr, refl, sym, Bool, false, List, not, ◌&&◌, ◌||◌, ◌-◌, pos_part, some, ℤ,
  pos, ltb_ℤ, eq_ℤ, arith, Bool-cases,
}
use esp32_band_decoder.Err.{ok, is_ok}
use esp32_band_decoder.Relay.Command.Safety.{SameRelays}
use esp32_band_decoder.Relay.Command.{update_relay_states, turn_off_all_relays, init}
use esp32_band_decoder.Relay.Task.Exclusive.{
  execute_relay_change_cases, execute_relay_change_selected, is_ok→ok, eq_ℤ→eq, eq_ℤ_refl,
}
use esp32_band_decoder.Relay.Task.Machine.{
  Moves, none_made, moved, asked, switched, joined, view, around, around-view, requests,
  Moves-append, Moves-eq,
}
use esp32_band_decoder.Relay.Task.Reachable.{
  Running, among, Step, Reach, here, later, task_round, antenna_asked, relay_asked, states_read,
  all_turned_off, host_set, initialised,
}
use esp32_band_decoder.Relay.Task.Reports.{
  Reports-Moves, update_all-Reports, turn_off_all-Reports, init-Reports, turn_off-memory,
}
use esp32_band_decoder.Relay.Task.Rounds.{execute-request}
use esp32_band_decoder.Relay.Task.{
  Loop, cool_down, finish_change, execute_relay_change, connection_round, request_round,
  tcp_task_round,
}
use esp32_band_decoder.Relay.{
  Channel, Relay, RelayChangeRequest, bad_relay, bit, eq_request, update_ℤ, set_relay,
  set_relay_for_antenna, set_tcp_host,
}

-- The condition of `set_relay` under which nothing is asked.
abbrev is_set : Bool → Bool → Bool
is_set current state = (current && state) || (not current && not state)

module _ {C : Type 0} (channel : Channel C) where
  cool_down-SameRelays : (r : Relay C) → SameRelays r (cool_down channel r)
  unfolding cool_down
  cool_down-SameRelays r = ground arith

  execute-Switched :
      (id band : ℤ) (r : Relay C)
      → let done = execute_relay_change channel id band r in
        done.0 ≡ ok
        → (done.1.currently_selected_relay ≡ id)
          × (done.1.last_selected_relay_for_band
              ≡ update_ℤ r.last_selected_relay_for_band band (some id))
  unfolding execute_relay_change finish_change
  execute-Switched id band r h =
      let r1 = cool_down channel r in
      let kept = turn_off-memory channel id r1 in
      let same = (cool_down-SameRelays r).last_relays in
      elim (Bool-cases (eq_ℤ id r.currently_selected_relay)) [
        | inl e ↦ rw (e, execute_relay_change) (sym (eq_ℤ→eq _ _ e), refl)
        | inr e ↦ ground (arith, kept, same, e)
      ]

  -- A relay change that fails changes nothing of the view.
  execute-failed :
      (id band : ℤ) (r : Relay C)
      → (execute_relay_change channel id band r).0 ≢ ok
      → SameRelays r (execute_relay_change channel id band r).1
  execute-failed id band r h = elim (Bool-cases (eq_ℤ id r.currently_selected_relay)) [
    | inl e ↦ absurd (h ((execute_relay_change_selected channel id band r (eq_ℤ→eq _ _ e)).0))
    | inr e ↦
        (execute_relay_change_cases channel id band r
            (λ same. cc (e, eq_ℤ_refl r.currently_selected_relay, same))).2
          h
  ]

  -- The round of the request is one step of the machine, or none.
  request_round-Moves :
      (before after : List Loop) (l : Loop) (r : Relay C)
      → Moves (around before after (l, r)) (around before after (request_round channel (l, r)))
  unfolding request_round
  request_round-Moves before after l r =
      let current = r.latest_request in
      let done = execute_relay_change channel current.relay_id current.band_number r in
      let idle = none_made (around before after (l, r)) in
      let wish = execute-request channel current.relay_id current.band_number r in
      elim (Bool-cases (eq_request current l.last_processed)) [
        | inl old ↦ rw (old, request_round) idle
        | inr new ↦ elim (Bool-cases (ltb_ℤ (pos 0) current.relay_id)) [
          | inr none ↦ rw (new, none, request_round) idle
          | inl real ↦ elim (Bool-cases (is_ok done.0)) [
            | inl good ↦
                let (shown, remembered) =
                  execute-Switched current.relay_id current.band_number r (is_ok→ok _ good) in
                rw (new, real, good, request_round)
                  (Moves-eq (ground (arith, shown, remembered, wish)) (
                    moved idle (
                      switched (around before after (l, r)) (requests before) (requests after)
                        l.last_processed refl new real)))
            | inr bad ↦
                let same =
                  execute-failed current.relay_id current.band_number r (λ e. ground arith) in
                rw (new, real, bad, request_round)
                  (Moves-eq (ground (arith, same.request, same.selected, same.last_relays)) idle)
          ]
        ]
      ]

  connection_round-around :
      (before after : List Loop) (s : Loop × Relay C)
      → around before after (connection_round channel s) ≡ around before after s
  unfolding connection_round
  connection_round-around before after (l, r) = ground arith

  tcp_task_round-Moves :
      (before after : List Loop) (s : Loop × Relay C)
      → Moves (around before after s) (around before after (tcp_task_round channel s))
  unfolding tcp_task_round
  tcp_task_round-Moves before after s =
      let c = connection_round channel s in
      subst (λ v. Moves v (around before after (request_round channel c)))
        (connection_round-around before after s) (request_round-Moves before after c.0 c.1)

  -- A client leaves the controller alone or leaves a wish for a relay of the board.
  abbrev Asks : Relay C → Relay C → Type 0
  Asks r t =
      (t ≡ r)
      ⊎ ((wish : RelayChangeRequest) × (bad_relay wish.relay_id ≡ false)
          × (t ≡ record r { latest_request = wish }))

  set_relay-Asks : (r : Relay C) (id : ℤ) (b : Bool) → Asks r (set_relay id b r).1
  unfolding set_relay
  set_relay-Asks r id b = elim (Bool-cases (bad_relay id)) [
    | inl bad ↦ inl (ground arith)
    | inr good ↦ elim (Bool-cases (is_set (bit r.relay_state_bitfield (pos_part id - 1)) b)) [
      | inl done ↦ inl (ground arith)
      | inr unset ↦ inr (record { relay_id = id; band_number = pos 0 }, good, ground arith)
    ]
  ]

  set_relay_for_antenna-Asks :
      (r : Relay C) (id band : ℤ) → Asks r (set_relay_for_antenna id band r).1
  unfolding set_relay_for_antenna
  set_relay_for_antenna-Asks r id band =
      let wish : RelayChangeRequest = record { relay_id = id; band_number = band } in
      elim (Bool-cases (bad_relay id)) [
        | inl bad ↦ inl (ground arith)
        | inr good ↦ elim (Bool-cases (eq_request r.latest_request wish)) [
          | inl old ↦ inl (ground arith)
          | inr new ↦ inr (wish, good, ground arith)
        ]
      ]

  Asks-Moves : (l : List Loop) (r t : Relay C) → Asks r t → Moves (view (l, r)) (view (l, t))
  Asks-Moves l r t (inl same) = rw same (none_made (view (l, r)))
  Asks-Moves l r t (inr (wish, good, e)) =
      rw e (moved (none_made (view (l, r))) (asked (view (l, r)) wish good))

  Step-Moves : {s t : Running C} → Step channel s t → Moves (view s) (view t)
  unfolding set_tcp_host update_relay_states
  Step-Moves (task_round before after l r) =
      let round = tcp_task_round channel (l, r) in
      subst (λ v. Moves v (view (among before after round))) (around-view before after l r)
        (Moves-eq (around-view before after round.0 round.1)
          (tcp_task_round-Moves before after (l, r)))
  Step-Moves (antenna_asked l r relay_id band_number) =
      Asks-Moves l r (set_relay_for_antenna relay_id band_number r).1
        (set_relay_for_antenna-Asks r relay_id band_number)
  Step-Moves (relay_asked l r relay_id state) =
      Asks-Moves l r (set_relay relay_id state r).1 (set_relay-Asks r relay_id state)
  Step-Moves (states_read l r) =
      Reports-Moves l r (update_relay_states channel r).1 (update_all-Reports channel r)
  Step-Moves (all_turned_off l r) =
      Reports-Moves l r (turn_off_all_relays channel r).1 (turn_off_all-Reports channel r)
  Step-Moves (host_set l r host) = none_made (view (l, r))
  Step-Moves (initialised l r) =
      let done = init channel r in
      let report = Reports-Moves l r done.1 (init-Reports channel r) in
      elim (Bool-cases (is_ok done.0)) [
        | inl good ↦ rw good (moved report (joined (view (l, done.1))))
        | inr bad ↦ rw bad report
      ]

  -- Whatever the clients and the tasks of the relay controller do one after the other, `init` included,
  -- of which each that succeeds starts a task, and whatever the board answers: what can be seen of the
  -- controller (the wish, what each task carried out last, the relay shown, the memory of the bands)
  -- changes only by steps of the machine. A wish is replaced by one for a relay of the board; a wish
  -- that names a relay and is new for a task is carried out by it, which shows that relay and remembers
  -- it for the band of the wish; a relay that the board has, or none, is reported; or a task that has
  -- carried out nothing joins.
  pub Reach-Moves : {start s : Running C} → Reach channel start s → Moves (view start) (view s)
  Reach-Moves {start} here = none_made (view start)
  Reach-Moves (later before step) = Moves-append (Reach-Moves before) (Step-Moves step)
