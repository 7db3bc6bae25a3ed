-- ===== src/HtmlContent/Rows.antt =====
-- The table of bands in the configuration page, from its rows to what the script posts for them.
use mathlib.Core.List.{append_assoc, append-nil}
use mathlib.Core.Path.{subst}
use esp32_band_decoder.Base.{
  ℕ, zero, suc, ◌+◌, ◌≤◌, ◌<◌, ◌≡◌, refl, sym, ap, ◌∙◌, Bool, true, false, List, [], ◌∷◌, ◌++◌,
  none, some, arith, some-injective, length, get_elem?,
}
use esp32_band_decoder.Config.{BandConfig, max_antenna_ports}
use esp32_band_decoder.HtmlContent.Form.{
  Entry, chosen, last_selected, piece_entries, entries, form_get,
}
use esp32_band_decoder.HtmlContent.Pieces.{BandInfo, Piece, band_info, find}
use esp32_band_decoder.HtmlContent.{
  band_name, port_name, port_boxes, band_choices, band_row, band_rows,
}
use esp32_band_decoder.Text.{Bytes, codes, eq_bytes}

-- The entry that the table has for a band, if it has one.
abbrev pub info_of : BandConfig → BandInfo
info_of b = record { name = b.description; start_freq = b.start_freq; end_freq = b.end_freq }

-- The band is one of the table, and has all its ports.
pub record IsListed (b : BandConfig) : Type 0 where
  pub index : ℕ
  pub entry : get_elem? band_info index ≡ some (info_of b)
  pub all_ports : length b.antenna_ports ≡ max_antenna_ports

abbrev Selects : BandInfo → Type 0
Selects i =
    (find i.name band_info ≡ some i)
    × (chosen (band_choices i.start_freq i.end_freq band_info) ≡ some i.name)

Selects-at : (k : ℕ) (i : BandInfo) → get_elem? band_info k ≡ some i → Selects i
unfolding find eq_bytes chosen last_selected band_choices
Selects-at zero i h = subst Selects (some-injective h) (refl, refl)
Selects-at (suc zero) i h = subst Selects (some-injective h) (refl, refl)
Selects-at (suc (suc zero)) i h = subst Selects (some-injective h) (refl, refl)
Selects-at (suc (suc (suc zero))) i h = subst Selects (some-injective h) (refl, refl)
Selects-at (suc (suc (suc (suc zero)))) i h = subst Selects (some-injective h) (refl, refl)
Selects-at (suc (suc (suc (suc (suc zero))))) i h = subst Selects (some-injective h) (refl, refl)
Selects-at (suc (suc (suc (suc (suc (suc zero)))))) i h =
    subst Selects (some-injective h) (refl, refl)
Selects-at (suc (suc (suc (suc (suc (suc (suc zero))))))) i h =
    subst Selects (some-injective h) (refl, refl)
Selects-at (suc (suc (suc (suc (suc (suc (suc (suc zero)))))))) i h =
    subst Selects (some-injective h) (refl, refl)
Selects-at (suc (suc (suc (suc (suc (suc (suc (suc (suc zero))))))))) i h =
    subst Selects (some-injective h) (refl, refl)
Selects-at (suc (suc (suc (suc (suc (suc (suc (suc (suc (suc k)))))))))) i h = absurd (cc)

-- A listed band is found under its name, and is the one that its row has selected.
pub selects : (b : BandConfig) → IsListed b → Selects (info_of b)
selects b h = Selects-at h.index (info_of b) h.entry

pub get_absent :
    (name : Bytes) (xs ys : List Entry)
    → form_get name xs ≡ none
    → form_get name (xs ++ ys) ≡ form_get name ys
unfolding form_get
get_absent name [] ys h = refl
get_absent name ((key, value) ∷ xs) ys h = ground (arith, get_absent name xs ys)

pub entries-append : (ps qs : List Piece) → entries (ps ++ qs) ≡ entries ps ++ entries qs
unfolding entries
entries-append [] qs = refl
entries-append (p ∷ ps) qs =
    ap (λ t. piece_entries p ++ t) (entries-append ps qs)
    ∙ sym (append_assoc (piece_entries p) (entries ps) (entries qs))

pub get_present :
    (name key value : Bytes) (es : List Entry)
    → eq_bytes name key ≡ true
    → form_get name ((key, value) ∷ es) ≡ some value
unfolding form_get
get_present name key value es h = ground arith

pub get_other :
    (name key value : Bytes) (es : List Entry)
    → eq_bytes name key ≡ false
    → form_get name ((key, value) ∷ es) ≡ form_get name es
unfolding form_get
get_other name key value es h = ground arith

-- The name is none of the ports of band `i` from `j` below the limit.
abbrev pub NoPort : Bytes → ℕ → ℕ → ℕ → Type 0
NoPort name i j limit = (l : ℕ) → j ≤ l → l < limit → eq_bytes name (port_name i l) ≡ false

pub ports_absent :
    (name : Bytes) (i left j : ℕ) (ports : List Bool) (limit : ℕ)
    → j + left ≡ limit
    → NoPort name i j limit
    → form_get name (entries (port_boxes i left j ports)) ≡ none
unfolding port_boxes entries piece_entries form_get
ports_absent name i zero j ports limit e h = refl
ports_absent name i (suc left) j [] limit e h = refl
ports_absent name i (suc left) j (true ∷ ports) limit e h =
    get_other name (port_name i j) (codes "1") _ (h j (omega arith) (omega arith))
    ∙ ports_absent name i left (j + 1) ports limit (omega arith) (λ l le lt. h l (omega arith) lt)
ports_absent name i (suc left) j (false ∷ ports) limit e h =
    ports_absent name i left (j + 1) ports limit (omega arith) (λ l le lt. h l (omega arith) lt)

-- The entries of a row: its band, if its list has an option, and its ports.
pub row_entries :
    (n i : ℕ) (b : BandConfig)
    → IsListed b
    → entries (band_row n i b)
      ≡ (band_name i, b.description) ∷ entries (port_boxes i n 0 b.antenna_ports)
unfolding band_row entries piece_entries
row_entries n i b h = rw ((selects b h).1) (
    ap (λ t. (band_name i, b.description) ∷ t)
      (entries-append (port_boxes i n 0 b.antenna_ports) _ ∙ append-nil _))

-- The first `left` bands are listed.
abbrev pub AreListed : ℕ → List BandConfig → Type 0
AreListed zero bands = Unit {0}
AreListed (suc left) [] = ⊥
AreListed (suc left) (b ∷ bands) = IsListed b × AreListed left bands

pub rows_entries :
    (n left i : ℕ) (b : BandConfig) (bands : List BandConfig) (rest : List Entry)
    → IsListed b
    → entries (band_rows n (suc left) i (b ∷ bands)) ++ rest
      ≡ (band_name i, b.description)
        ∷ (entries (port_boxes i n 0 b.antenna_ports)
            ++ (entries (band_rows n left (i + 1) bands) ++ rest))
unfolding band_rows
rows_entries n left i b bands rest h =
    rw (entries-append (band_row n i b) (band_rows n left (i + 1) bands), row_entries n i b h)
      (ap (λ t. (band_name i, b.description) ∷ t)
        (append_assoc (entries (port_boxes i n 0 b.antenna_ports))
          (entries (band_rows n left (i + 1) bands)) rest))

-- A name that is neither a band nor a port of the rows is looked up behind them.
pub rows_absent :
    (name : Bytes) (n left i : ℕ) (bands : List BandConfig) (rest : List Entry) (limit : ℕ)
    → i + left ≡ limit
    → AreListed left bands
    → ((k : ℕ) → i ≤ k → k < limit → eq_bytes name (band_name k) ≡ false)
    → ((k : ℕ) → i ≤ k → k < limit → NoPort name k 0 n)
    → form_get name (entries (band_rows n left i bands) ++ rest) ≡ form_get name rest
unfolding band_rows entries
rows_absent name n zero i bands rest limit e h no_band no_port = refl
rows_absent name n (suc left) i [] rest limit e h no_band no_port = absurd h
rows_absent name n (suc left) i (b ∷ bands) rest limit e (h, hs) no_band no_port =
    ap (form_get name) (rows_entries n left i b bands rest h)
    ∙ get_other name (band_name i) b.description _ (no_band i (omega arith) (omega arith))
    ∙ get_absent name (entries (port_boxes i n 0 b.antenna_ports)) _ (
        ports_absent name i n 0 b.antenna_ports n (omega arith)
          (no_port i (omega arith) (omega arith)))
    ∙ rows_absent name n left (i + 1) bands rest limit (omega arith) hs
        (λ k le lt. no_band k (omega arith) lt) (λ k le lt. no_port k (omega arith) lt)
