-- ===== src/WebServer/ConfigPost.antt =====
-- `config_post_handler` of main/webserver.cpp: the configuration that a client posts as JSON. The
-- cJSON library is the parameter `Json`, whose `J` are its items.
pub mod Valid
pub mod Bands
pub mod Posted
pub mod Edited
pub mod Resubmit
use esp32_band_decoder.Base.{
  ℕ, zero, suc, ◌+◌, ◌-◌, ◌%◌, Bool, true, false, ◌||◌, List, [], ◌∷◌, ◌++◌, Option, none, some,
  if◌then◌else◌, ℤ, pos, negsuc, pos_part, ltb, leb, ltb_ℤ, take, drop, length,
}
use esp32_band_decoder.CatParser
use esp32_band_decoder.CatParser.{System}
use esp32_band_decoder.Config.{BandConfig, Config, max_bands, max_antenna_ports}
use esp32_band_decoder.Err.{is_ok}
use esp32_band_decoder.HtmlContent.Pieces.{band_info, find}
use esp32_band_decoder.SystemInitializer.{Platform, Device}
use esp32_band_decoder.Text.{Bytes, codes, c_str}
use esp32_band_decoder.WebServer.{Done, done, refused, bad_request, server_error, updated, store}

pub record Json (J : Type 0) : Type 0 where
  pub parse : Bytes → Option J
  pub get_object_item : J → Bytes → Option J
  pub is_true : J → Bool
  pub is_object : J → Bool
  -- `valueint` of a number, `valuestring` of a string, the items of an array.
  pub value_int : J → Option ℤ
  pub value_string : J → Option Bytes
  pub array_items : J → Option (List J)

-- The length that the client announces, the block that `malloc` gives for it (`none` for null),
-- and what one read gives: the empty text when it fails.
pub record Request : Type 0 where
  pub content_len : ℕ
  pub memory : Option Bytes
  pub received : Bytes

abbrev pub max_post_size : ℕ
max_post_size = 4096

-- The text that is parsed: behind what has been received the block is as it was.
abbrev pub content : ℕ → Bytes → Bytes → Bytes
content content_len memory received =
    c_str (take content_len (received ++ drop (length received) memory) ++ 0 ∷ [])

-- The conversion of an int to uint8_t.
abbrev pub to_uint8 : ℤ → ℕ
to_uint8 (pos n) = n % 256
to_uint8 (negsuc n) = 255 - n % 256

-- A result, or the message of a refusal and whether the handler has freed its two blocks.
pub data Parsed (A : Type 0) : Type 0 where
  bad : Bytes → Bool → Parsed A
  good : A → Parsed A

infixl 5 ◌>>=◌
unfoldable pub ◌>>=◌ : {A B : Type 0} → Parsed A → (A → Parsed B) → Parsed B
◌>>=◌ (bad message freed) f = bad message freed
◌>>=◌ (good a) f = f a

abbrev pub items_or_none : {J : Type 0} → Option (List J) → List J
items_or_none none = []
items_or_none (some items) = items

abbrev pub known_band : Option Bytes → Bytes × ℕ × ℕ
known_band none = ([], 0, 0)
known_band (some name) = elim (find name band_info) [
  | none ↦ ([], 0, 0)
  | some known ↦ (known.name, known.start_freq, known.end_freq)
]

abbrev pub no_band : BandConfig
no_band = record {
  description = [];
  start_freq = 0;
  end_freq = 0;
  antenna_ports = false ∷ false ∷ false ∷ false ∷ false ∷ false ∷ false ∷ false ∷ [];
}

-- The number of bands is the length of the array, if there is one.
abbrev pub band_count : {J : Type 0} → ℕ → Option (List J) → ℕ
band_count num_bands none = num_bands
band_count num_bands (some items) = length items % 256

abbrev pub out_of : ℕ → ℤ → Bool
out_of limit n = ltb_ℤ n (pos 1) || ltb_ℤ (pos limit) n

abbrev pub host_of : Option Bytes → Bytes
host_of none = []
host_of (some host) = take 15 host

module _ {J : Type 0} (json : Json J) where
  open json use {get_object_item, is_true, is_object, value_int, value_string, array_items}

  abbrev pub field : {A : Type 0} → (J → Option A) → Bytes → J → Option A
  field read name j = elim (get_object_item j name) [ none ↦ none | some item ↦ read item ]

  abbrev pub flag : Option J → Bool
  flag none = false
  flag (some j) = is_true j

  -- A number that satisfies the test, which is what is refused.
  abbrev pub number : Bytes → (ℤ → Bool) → Bool → Bytes → Bytes → J → Parsed ℤ
  number name is_bad freed missing invalid j = elim (field value_int name j) [
    | none ↦ bad missing freed
    | some n ↦ if is_bad n then bad invalid freed else good n
  ]

  -- `antenna_ports` of eight entries, from the items of an array.
  unfoldable pub read_ports : ℕ → List J → List Bool
  read_ports zero items = []
  read_ports (suc left) [] = false ∷ read_ports left []
  read_ports (suc left) (item ∷ items) = is_true item ∷ read_ports left items

  -- A band of the zeroed configuration, filled in from an object.
  unfoldable pub read_band : J → BandConfig
  unfolding read_ports
  read_band item =
      let (name, start_freq, end_freq) =
        known_band (field value_string (codes "description") item) in
      let ports = items_or_none (field array_items (codes "antenna_ports") item) in
      if is_object item
      then record {
        description = name;
        start_freq = start_freq;
        end_freq = end_freq;
        antenna_ports = read_ports max_antenna_ports ports;
      }
      else no_band

  -- `bands` of ten entries, from the items of an array.
  unfoldable pub read_bands : ℕ → List J → List BandConfig
  read_bands zero items = []
  read_bands (suc left) [] = no_band ∷ read_bands left []
  read_bands (suc left) (item ∷ items) = read_band item ∷ read_bands left items

  unfoldable pub parse_config : J → Parsed Config
  parse_config root = do
    tcp_port ←
        number (codes "tcp_port") (out_of 65535) false (codes "Invalid or missing TCP port")
          (codes "Invalid TCP port") root
    baud ←
        number (codes "uart_baud_rate") (λ n. ltb_ℤ n (pos 1)) false
          (codes "Invalid or missing baud rate") (codes "Invalid baud rate") root
    parity ←
        number (codes "uart_parity") (λ n. false) true (codes "Invalid or missing UART parity") []
          root
    stop_bits ←
        number (codes "uart_stop_bits") (λ n. false) true
          (codes "Invalid or missing UART stop bits") [] root
    flow_ctrl ←
        number (codes "uart_flow_ctrl") (λ n. false) true
          (codes "Invalid or missing UART flow control") [] root
    num_bands ←
        number (codes "num_bands") (out_of max_bands) true (codes "Invalid or missing num_bands")
          (codes "Invalid number of bands") root
    num_ports ←
        number (codes "num_antenna_ports") (out_of max_antenna_ports) true
          (codes "Invalid or missing num_antenna_ports") (codes "Invalid number of antenna ports")
          root
    good (record {
      auto_mode = flag (get_object_item root (codes "auto_mode"));
      num_bands = band_count (pos_part num_bands) (field array_items (codes "bands") root);
      num_antenna_ports = pos_part num_ports;
      bands = read_bands max_bands (items_or_none (field array_items (codes "bands") root));
      tcp_host = host_of (field value_string (codes "tcp_host") root);
      tcp_port = pos_part tcp_port;
      uart_baud_rate = baud;
      uart_parity = to_uint8 parity;
      uart_stop_bits = to_uint8 stop_bits;
      uart_flow_ctrl = to_uint8 flow_ctrl;
    })

module _ {W S C J : Type 0} (platform : Platform W S C) (json : Json J) where
  -- The configuration is stored, and the CAT parser reads it again.
  unfoldable pub apply_config : Config → Device W S C → Done (Device W S C)
  apply_config new_config d =
      let saved = store platform new_config d in
      let told = CatParser.update_config (saved.1).system in
      if is_ok saved.0
      then done updated (record (saved.1) { system = told.1 })
      else refused 1 (server_error (codes "Failed to set configuration")) saved.1

  unfoldable pub config_post_handler : Request → Device W S C → Done (Device W S C)
  config_post_handler req d =
      if ltb max_post_size req.content_len
      then refused 0 (bad_request (codes "Content too large")) d
      else elim req.memory [
        | none ↦ refused 0 (server_error (codes "Failed to allocate memory")) d
        | some memory ↦
            if leb (length req.received) 0
            then refused 0 (server_error (codes "Failed to receive data")) d
            else elim (json.parse (content req.content_len memory req.received)) [
              | none ↦ refused 0 (bad_request (codes "Invalid JSON")) d
              | some root ↦ elim (parse_config json root) [
                | bad message freed ↦ refused (if freed then 0 else 2) (bad_request message) d
                | good new_config ↦ apply_config new_config d
              ]
            ]
      ]
