-- ===== src/Relay/Command/Encoding.antt =====
-- The switch command says what it should: one relay on, all others off.
use esp32_band_decoder.Base.{
  ℕ, suc, ◌+◌, ◌*◌, ◌≤◌, ◌<◌, ◌≡◌, refl, Bool, true, false, ◌&&◌, Option, none, some, ◌==◌, arith,
  length, drop, every_below, every_below-at, same, same→eq, leb, leb→le, get_or,
}
use esp32_band_decoder.Relay.Command.{set_all_command, d1_of, d0_of}
use esp32_band_decoder.Relay.Response.{◌>>=◌, ◌>>◌, guard, read_byte}
use esp32_band_decoder.Relay.{num_relays, bit}
use esp32_band_decoder.Text.{Bytes}

-- How a board reads the command: the 18 bytes of the head, d1, a comma, d0 and nothing else.
pub decode : Bytes → Option (ℕ × ℕ)
decode s = do
  (d1, next) ← read_byte (drop 18 s)
  guard (get_or next 0 0 == b',')
  (d0, next') ← read_byte (drop 1 next)
  guard (length next' == 0)
  some (d1, d0)

decodes_to : ℕ → Option (ℕ × ℕ) → Bool
decodes_to relay none = false
decodes_to relay (some (d1, d0)) = (d1 == d1_of relay) && (d0 == d0_of relay)

decodes_to_sound :
    (relay : ℕ) (r : Option (ℕ × ℕ))
    → decodes_to relay r ≡ true
    → r ≡ some (d1_of relay, d0_of relay)
unfolding decodes_to
decodes_to_sound relay none h = cc
decodes_to_sound relay (some (d1, d0)) h = ground arith

abbrev pub word_of : ℕ → ℕ
word_of relay = d1_of relay * 256 + d0_of relay

decode_table : every_below (λ n. decodes_to (suc n) (decode (set_all_command (suc n)))) 16 ≡ true
unfolding every_below decodes_to decode set_all_command read_byte
decode_table = refl

bit_table :
    every_below (λ n. every_below (λ j. same (bit (word_of (suc n)) j) (j == n)) 16) 16 ≡ true
unfolding every_below
bit_table = refl

buffer_table : every_below (λ n. leb (length (set_all_command (suc n))) 126) 16 ≡ true
unfolding every_below set_all_command
buffer_table = refl

-- For every relay of the board, the command decodes to a word in which the relay's bit is the
-- only one that is set, and it fits the command buffer whole.
pub set_all_command_switches :
    (n j : ℕ)
    → n < num_relays
    → j < num_relays
    → (decode (set_all_command (suc n)) ≡ some (d1_of (suc n), d0_of (suc n)))
      × (bit (word_of (suc n)) j ≡ (j == n))
      × (length (set_all_command (suc n)) ≤ 126)
set_all_command_switches n j hn hj = (
  decodes_to_sound (suc n) _ (every_below-at _ 16 decode_table hn),
  same→eq _ _ (every_below-at _ 16 (every_below-at _ 16 bit_table hn) hj),
  leb→le _ _ (every_below-at _ 16 buffer_table hn),
)
