-- ===== src/CatParser/Bridge.antt =====
-- `uart0_to_uart2_task` of main/cat_parser.cpp: the bytes that arrive from USB are passed on to the
-- transceiver. The UART driver is the parameter `Uart`.
use esp32_band_decoder.Base.{
  ℕ, zero, suc, ◌≤◌, ◌≡◌, ◌⊎◌, refl, sym, ap, ◌∙◌, Bool, true, false, not, ◌&&◌, ◌||◌, [], ◌∷◌,
  ◌++◌, ◌==◌, length, length-take, length-append, take, drop, take-drop, min, arith, if◌then◌else◌,
  inl, inr,
}
use esp32_band_decoder.Err.{Err, ok, is_ok}
use esp32_band_decoder.Text.{Bytes}

pub record Uart (W : Type 0) : Type 0 where
  -- Of UART 0: how many bytes are waiting, and a read of up to so many, which is empty when it fails.
  pub buffered_data_len : W → Err × ℕ
  pub read_bytes : ℕ → W → Bytes × W
  -- Of UART 2; whether the driver took the bytes.
  pub write_bytes : Bytes → W → Bool × W
  pub flush_input : W → W
  pub queue_reset : W → W
  pub shutdown_requested : W → Bool

pub data UartEvent : Type 0 where
  uart_data fifo_ovf buffer_full uart_break parity_err frame_err unhandled : UartEvent

abbrev pub chunk_size : ℕ
chunk_size = 64

module _ {W : Type 0} (uart : Uart W) where
  open uart use {
    buffered_data_len, read_bytes, write_bytes, flush_input, queue_reset, shutdown_requested,
  }

  -- `while (buffered_size > 0 && !shutdown_requested)`, on fuel.
  unfoldable pub forward : ℕ → ℕ → W → W
  forward zero buffered_size w = w
  forward (suc fuel) buffered_size w =
      let (chunk, w1) = read_bytes (min buffered_size chunk_size) w in
      let (taken, w2) = write_bytes chunk w1 in
      let next = if length chunk == 0 then w1 else w2 in
      let left = buffered_data_len next in
      let rest = forward fuel left.1 next in
      if buffered_size == 0 || shutdown_requested w
      then w
      else if not (length chunk == 0) && not taken
      then w2
      else if is_ok left.0
      then rest
      else next

  -- One event of the queue.
  unfoldable pub bridge_event : ℕ → UartEvent → W → W
  bridge_event fuel uart_data w =
      let waiting = buffered_data_len w in
      let forwarded = forward fuel waiting.1 w in if is_ok waiting.0 then forwarded else w
  bridge_event fuel fifo_ovf w = queue_reset (flush_input w)
  bridge_event fuel buffer_full w = queue_reset (flush_input w)
  bridge_event fuel uart_break w = w
  bridge_event fuel parity_err w = w
  bridge_event fuel frame_err w = w
  bridge_event fuel unhandled w = w

-- What the driver documents, while nobody asks the task to end and no byte arrives: a read takes the
-- oldest bytes, and a write adds behind what was written.
pub record IsFifo {W : Type 0} (uart : Uart W) : Type 0 where
  pub input : W → Bytes
  pub output : W → Bytes
  pub waiting : (w : W) → uart.buffered_data_len w ≡ (ok, length (input w))
  pub read : (n : ℕ) (w : W) → (uart.read_bytes n w).0 ≡ take n (input w)
  pub read_rest : (n : ℕ) (w : W) → input (uart.read_bytes n w).1 ≡ drop n (input w)
  pub read_output : (n : ℕ) (w : W) → output (uart.read_bytes n w).1 ≡ output w
  pub write : (bs : Bytes) (w : W) → (uart.write_bytes bs w).0 ≡ true
  pub write_output : (bs : Bytes) (w : W) → output (uart.write_bytes bs w).1 ≡ output w ++ bs
  pub write_input : (bs : Bytes) (w : W) → input (uart.write_bytes bs w).1 ≡ input w
  pub running : (w : W) → uart.shutdown_requested w ≡ false

append_assoc : (a b c : Bytes) → (a ++ b) ++ c ≡ a ++ (b ++ c)
append_assoc [] b c = refl
append_assoc (x ∷ a) b c = ap (λ t. x ∷ t) (append_assoc a b c)

append_nil : (a : Bytes) → a ++ [] ≡ a
append_nil [] = refl
append_nil (x ∷ a) = ap (λ t. x ∷ t) (append_nil a)

List-cases : (xs : Bytes) → (xs ≡ []) ⊎ ((n : ℕ) × (length xs ≡ suc n))
List-cases [] = inl refl
List-cases (x ∷ xs) = inr (length xs, omega arith)

length-drop-chunk :
    (n : ℕ) (xs : Bytes) → length xs ≡ suc n → length (drop (min (length xs) chunk_size) xs) ≤ n
length-drop-chunk n xs h =
    let k = min (length xs) chunk_size in
    let parts = sym (ap length (take-drop k xs)) ∙ length-append (take k xs) (drop k xs) in
    omega (arith, parts, h, length-take k xs)

module _ {W : Type 0} (uart : Uart W) (fifo : IsFifo uart) where
  -- What is waiting has been passed on.
  abbrev IsForwarded : ℕ → W → Type 0
  IsForwarded fuel w =
      let w' = forward uart fuel (length (fifo.input w)) w in
      (fifo.output w' ≡ fifo.output w ++ fifo.input w) × (fifo.input w' ≡ [])

  -- One round on bytes that are waiting.
  abbrev chunk : W → Bytes × W
  chunk w = uart.read_bytes (min (length (fifo.input w)) chunk_size) w

  abbrev passed : W → W
  passed w = (uart.write_bytes (chunk w).0 (chunk w).1).1

  length-chunk : (n : ℕ) (w : W) → length (fifo.input w) ≡ suc n → 1 ≤ length (chunk w).0
  length-chunk n w h =
      let xs = fifo.input w in
      let k = min (length xs) chunk_size in
      omega (arith, ap length (fifo.read k w), length-take k xs, h)

  forward-step :
      (fuel n : ℕ) (w : W)
      → length (fifo.input w) ≡ suc n
      → forward uart (suc fuel) (length (fifo.input w)) w
        ≡ forward uart fuel (length (fifo.input (passed w))) (passed w)
  unfolding forward
  forward-step fuel n w h = ground (
    arith,
    length-chunk n w h,
    fifo.running w,
    fifo.write (chunk w).0 (chunk w).1,
    fifo.waiting (passed w),
  )

  passed-input :
      (n : ℕ) (w : W) → length (fifo.input w) ≡ suc n → length (fifo.input (passed w)) ≤ n
  passed-input n w h =
      let xs = fifo.input w in
      let k = min (length xs) chunk_size in
      let rest = fifo.write_input (chunk w).0 (chunk w).1 ∙ fifo.read_rest k w in
      omega (arith, ap length rest, length-drop-chunk n xs h)

  passed-all :
      (w : W) → fifo.output (passed w) ++ fifo.input (passed w) ≡ fifo.output w ++ fifo.input w
  passed-all w =
      let xs = fifo.input w in
      let k = min (length xs) chunk_size in
      rw
        (
          fifo.write_output (chunk w).0 (chunk w).1,
          fifo.write_input (chunk w).0 (chunk w).1,
          fifo.read_output k w,
          fifo.read k w,
          fifo.read_rest k w,
        )
        (append_assoc (fifo.output w) (take k xs) (drop k xs)
          ∙ ap (λ t. fifo.output w ++ t) (take-drop k xs))

  forward-none : (fuel : ℕ) (w : W) → fifo.input w ≡ [] → IsForwarded fuel w
  unfolding forward
  forward-none zero w h = (rw h (sym (append_nil (fifo.output w))), h)
  forward-none (suc fuel) w h = rw h (sym (append_nil (fifo.output w)), h)

  forward-some :
      (fuel n : ℕ) (w : W)
      → length (fifo.input w) ≡ suc n
      → length (fifo.input w) ≤ fuel
      → IsForwarded fuel w
  forward-some zero n w e h = absurd (omega (arith, e))
  forward-some (suc fuel) n w e h =
      let less = passed-input n w e in
      let rest : IsForwarded fuel (passed w) = elim (List-cases (fifo.input (passed w))) [
        | inl e' ↦ forward-none fuel (passed w) e'
        | inr (m, e') ↦ forward-some fuel m (passed w) e' (omega (arith, less, e))
      ] in
      rw (forward-step fuel n w e) (rest.0 ∙ passed-all w, rest.1)

  forward-all : (fuel : ℕ) (w : W) → length (fifo.input w) ≤ fuel → IsForwarded fuel w
  forward-all fuel w h = elim (List-cases (fifo.input w)) [
    | inl e ↦ forward-none fuel w e
    | inr (n, e) ↦ forward-some fuel n w e h
  ]

  -- On such a driver, with at least as many rounds as bytes: the event that announces data passes on
  -- every byte that is waiting, once and in order, and leaves none.
  pub bridge_event-data :
      (fuel : ℕ) (w : W)
      → length (fifo.input w) ≤ fuel
      → let w' = bridge_event uart fuel uart_data w in
        (fifo.output w' ≡ fifo.output w ++ fifo.input w) × (fifo.input w' ≡ [])
  unfolding bridge_event
  bridge_event-data fuel w h = rw (fifo.waiting w) (forward-all fuel w h)
