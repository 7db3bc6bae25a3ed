-- ===== src/Tuning.antt =====
-- The whole way of a frequency: from the bytes that uart_task of main/cat_parser.cpp reads, through
-- main/antenna_switch.cpp, to what tcp_task of main/relay_controller.cpp does.
pub mod Booted
use mathlib.Core.Path.{subst}
use esp32_band_decoder.AntennaSwitch.Selection.{
  Chosen, band_of-Chosen, request_for, set_frequency_selects,
}
use esp32_band_decoder.Base.{
  ℕ, zero, suc, ◌+◌, ◌≡◌, ◌≢◌, refl, sym, ap, ◌∙◌, true, false, [], ◌∷◌, ◌++◌, some, pos, arith,
  min, length,
}
use esp32_band_decoder.CatParser.Bands.{IsCoherent, get_band_index-search}
use esp32_band_decoder.CatParser.Numbers.{AllDigits, value_from, process_fa_command-digits}
use esp32_band_decoder.CatParser.{
  System, search_band, remember, handle_frequency_change, process_fa_command, uart_dispatch,
  uart_data, drain, cut,
}
use esp32_band_decoder.Config.{Config, IsValid}
use esp32_band_decoder.Err.{ok}
use esp32_band_decoder.Relay.Command.Safety.{Exclusive}
use esp32_band_decoder.Relay.Command.{turn_off_all_relays_except}
use esp32_band_decoder.Relay.Task.Exclusive.{execute_relay_change_cases}
use esp32_band_decoder.Relay.Task.Rounds.{request_round_cases}
use esp32_band_decoder.Relay.Task.{Loop, cool_down, request_round}
use esp32_band_decoder.Relay.{Channel, Relay, eq_request}
use esp32_band_decoder.Text.{Bytes, c_str, eq_bytes, ulong_max}

-- The frequency that a row of digits names.
abbrev pub frequency_of : Bytes → ℕ
frequency_of ds = min (value_from 0 ds) ulong_max

cut-digits : (ds : Bytes) → AllDigits ds → cut (ds ++ b';' ∷ []) ≡ some (ds, [])
unfolding cut
cut-digits [] h = refl
cut-digits (c ∷ cs) h = ground (arith, cut-digits cs h.1)

c_str-answer : (ds : Bytes) → AllDigits ds → c_str (ds ++ b';' ∷ []) ≡ ds ++ b';' ∷ []
unfolding c_str
c_str-answer [] h = refl
c_str-answer (c ∷ cs) h = ground (arith, c_str-answer cs h.1)

-- The answer of the transceiver to FA;.
abbrev pub answer : Bytes → Bytes
answer ds = b'F' ∷ b'A' ∷ (ds ++ b';' ∷ [])

answer-c_str : (ds : Bytes) → AllDigits ds → c_str (answer ds) ≡ answer ds
unfolding c_str
answer-c_str ds h = cc (c_str-answer ds h)

cut-answer : (ds : Bytes) → AllDigits ds → cut (answer ds) ≡ some (b'F' ∷ b'A' ∷ ds, [])
unfolding cut
cut-answer ds h = ground (arith, cut-digits ds h)

module _ {S C : Type 0} where
  drain_nil : (fuel : ℕ) (s : System S C) → drain fuel [] s ≡ some ([], s)
  unfolding drain cut
  drain_nil zero s = refl
  drain_nil (suc fuel) s = refl

  dispatch-answer :
      (ds : Bytes) (s s' : System S C)
      → process_fa_command ds s ≡ some (ok, s')
      → uart_dispatch (b'F' ∷ b'A' ∷ ds) s ≡ some s'
  unfolding uart_dispatch eq_bytes
  dispatch-answer ds s s' h = ground (arith, h)

  -- One answer that arrives whole is taken apart, and nothing is left of it.
  pub uart_data-answer :
      (ds : Bytes) (s s' : System S C)
      → AllDigits ds
      → process_fa_command ds s ≡ some (ok, s')
      → uart_data (answer ds) [] s ≡ some ([], s')
  unfolding uart_data drain
  uart_data-answer ds s s' h done = rw (answer-c_str ds h) (
      rw (cut-answer ds h, drain)
        (rw (dispatch-answer ds s s' done) (drain_nil (suc (length (ds ++ b';' ∷ []))) s')))

  -- The parser after a frequency that it had switched to, in the band with this number.
  abbrev pub tuned_system : ℕ → ℕ → ℕ → Relay C → System S C → System S C
  tuned_system freq i j r s = record s {
    cat = remember freq (pos i) s.cat;
    switch = record (s.switch) {
      relay_controller = some (record r { latest_request = request_for i j });
    };
  }

  search-Chosen :
      (s : System S C) (freq i j : ℕ)
      → Chosen s.cat.current_config freq i j
      → search_band s.cat.current_config freq ≡ pos i
  unfolding search_band
  search-Chosen s freq i j chosen = ground (arith, band_of-Chosen chosen)

  -- A new frequency in another band than the cached one.
  pub frequency-tuned :
      (s : System S C) (r : Relay C) (freq i j : ℕ)
      → s.switch.relay_controller ≡ some r
      → s.cat.current_config ≡ s.switch.manager.current_config
      → s.cat.current_config.auto_mode ≡ true
      → IsValid s.cat.current_config
      → IsCoherent s.cat
      → Chosen s.cat.current_config freq i j
      → freq ≢ s.cat.current_frequency
      → s.cat.current_band_index ≢ pos i
      → handle_frequency_change freq s ≡ some (ok, tuned_system freq i j r s)
  unfolding handle_frequency_change
  frequency-tuned s r freq i j here same auto v coherent chosen new other =
      let found = get_band_index-search s.cat freq coherent ∙ search-Chosen s freq i j chosen in
      let switched =
        set_frequency_selects s.switch freq i j r
          (ap (λ (c : Config). c.auto_mode) (sym same) ∙ auto) (subst IsValid same v)
          (subst (λ c. Chosen c freq i j) same chosen) here in
      ground (arith, found, switched, new, other)

module _ {S C : Type 0} (channel : Channel C) where
  -- A frequency answer of the transceiver reaches the parser in one read. It names a new frequency in
  -- another band than the cached one, in automatic mode and with a valid configuration that the
  -- parser shares. Then the parser takes the whole answer and leaves a request for the relay that the
  -- configuration gives to the frequency. If that request is new to the relay task, another relay is
  -- selected, and the switch command succeeds, a round of the task leaves exactly that relay on, which
  -- is remembered for the band, and marks the request as carried out.
  pub answer_switches :
      (ds : Bytes) (s : System S C) (r : Relay C) (l : Loop) (i j : ℕ)
      → AllDigits ds
      → s.switch.relay_controller ≡ some r
      → s.cat.current_config ≡ s.switch.manager.current_config
      → s.cat.current_config.auto_mode ≡ true
      → IsValid s.cat.current_config
      → IsCoherent s.cat
      → Chosen s.cat.current_config (frequency_of ds) i j
      → frequency_of ds ≢ s.cat.current_frequency
      → s.cat.current_band_index ≢ pos i
      → eq_request (request_for i j) l.last_processed ≡ false
      → pos (j + 1) ≢ r.currently_selected_relay
      → let wish : Relay C = record r { latest_request = request_for i j } in
        let t = request_round channel (l, wish) in
        (turn_off_all_relays_except channel (pos (j + 1)) (cool_down channel wish)).0 ≡ ok
        → (uart_data (answer ds) [] s ≡ some ([], tuned_system (frequency_of ds) i j r s))
          × Exclusive (pos (j + 1)) t.1
          × ((t.1).last_selected_relay_for_band (pos i) ≡ some (pos (j + 1)))
          × ((t.0).last_processed ≡ request_for i j)
  answer_switches ds s r l i j digits here same auto v coherent chosen new other fresh unselected
        confirmed =
      let freq = frequency_of ds in
      let wish : Relay C = record r { latest_request = request_for i j } in
      let tuned = frequency-tuned s r freq i j here same auto v coherent chosen new other in
      let parsed =
        uart_data-answer ds s (tuned_system freq i j r s) digits
          (process_fa_command-digits ds s digits ∙ tuned) in
      let (result, won, lost) =
        execute_relay_change_cases channel (pos (j + 1)) (pos i) wish unselected in
      let done = result ∙ confirmed in
      let (processed, executed, again) =
        (request_round_cases channel l wish fresh (ground arith)).0 done in
      let (exclusive, remembered) = won done in
      (parsed, rw executed exclusive, rw executed remembered, processed)
