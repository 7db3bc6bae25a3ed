-- ===== src/HtmlContent/Edit/Choices.antt =====
-- The list and the boxes of a row that the script made: what they post.
use esp32_band_decoder.Base.{
  ℕ, zero, suc, ◌+◌, ◌≤◌, ◌≡◌, ◌⊎◌, inl, inr, refl, sym, ap, ◌∙◌, true, Bool, List, [], ◌∷◌, none,
  some, arith, length, get_elem?, some-injective, Bool-cases,
}
use esp32_band_decoder.Config.{BandConfig, max_antenna_ports}
use esp32_band_decoder.HtmlContent.Edit.{Row, resize}
use esp32_band_decoder.HtmlContent.Edit.Table.{row_choices, edited_row}
use esp32_band_decoder.HtmlContent.Form.{last_selected, chosen, entries, piece_entries}
use esp32_band_decoder.HtmlContent.Pieces.{BandInfo, Choice, band_info, find}
use esp32_band_decoder.HtmlContent.{band_name, port_boxes}
use esp32_band_decoder.Text.{Bytes, eq_bytes}

-- The band that a row is read as.
abbrev pub band_of : Row → BandConfig
band_of row = record {
  description = row.band;
  start_freq = row.start_freq;
  end_freq = row.end_freq;
  antenna_ports = resize max_antenna_ports row.ports;
}

eq_bytes-same : (a b : Bytes) → eq_bytes a b ≡ true → a ≡ b
unfolding eq_bytes
eq_bytes-same [] [] h = refl
eq_bytes-same [] (d ∷ ds) h = absurd (cc)
eq_bytes-same (c ∷ cs) [] h = absurd (cc)
eq_bytes-same (c ∷ cs) (d ∷ ds) h = grind (arith, eq_bytes-same cs ds)

abbrev pub Found : Bytes → List BandInfo → BandInfo → Type 0
Found key is b = (b.name ≡ key) × ((k : ℕ) × (get_elem? is k ≡ some b))

pub find-Found :
    (key : Bytes) (is : List BandInfo) (b : BandInfo) → find key is ≡ some b → Found key is b
unfolding find
find-Found key [] b h = absurd (cc)
find-Found key (i ∷ is) b h = elim (Bool-cases (eq_bytes key i.name)) [
  | inl e ↦
      let same : i ≡ b = some-injective (ground (arith, e, h)) in
      (ap (λ t. t.name) (sym same) ∙ sym (eq_bytes-same key i.name e), (0, ap (λ t. some t) same))
  | inr e ↦
      let rest = find-Found key is b (ground (arith, e, h)) in (rest.0, (suc rest.1.0, rest.1.1))
]

last_selected_cases :
    (key : Bytes) (is : List BandInfo)
    → (last_selected (row_choices key is) ≡ none) ⊎ (last_selected (row_choices key is) ≡ some key)
unfolding last_selected row_choices
last_selected_cases key [] = inl refl
last_selected_cases key (i ∷ is) = elim (last_selected_cases key is) [
  | inr e ↦ inr (rw e refl)
  | inl e ↦ elim (Bool-cases (eq_bytes key i.name)) [
    | inl same ↦ inr (rw (e, same) (ap (λ t. some t) (sym (eq_bytes-same key i.name same))))
    | inr other ↦ inl (rw (e, other) refl)
  ]
]

last_selected-found :
    (key : Bytes) (is : List BandInfo) (b : BandInfo)
    → find key is ≡ some b
    → last_selected (row_choices key is) ≡ some key
unfolding last_selected row_choices find
last_selected-found key [] b h = absurd (cc)
last_selected-found key (i ∷ is) b h = elim (last_selected_cases key is) [
  | inr e ↦ rw e refl
  | inl e ↦ elim (Bool-cases (eq_bytes key i.name)) [
    | inl same ↦ rw (e, same) (ap (λ t. some t) (sym (eq_bytes-same key i.name same)))
    | inr other ↦ absurd (cc (sym e ∙ last_selected-found key is b (ground (arith, other, h))))
  ]
]

chosen_selected : (cs : List Choice) (v : Bytes) → last_selected cs ≡ some v → chosen cs ≡ some v
unfolding chosen
chosen_selected [] v h = absurd (cc)
chosen_selected (c ∷ cs) v h = ap (λ o. elim o [ some value ↦ some value | none ↦ some c.value ]) h

-- The controls of a row post its band and its boxes.
pub entries-edited_row :
    (i : ℕ) (row : Row) (b : BandInfo)
    → find row.band band_info ≡ some b
    → entries (edited_row i row)
      ≡ (band_name i, row.band) ∷ entries (port_boxes i (length row.ports) 0 row.ports)
unfolding edited_row entries piece_entries
entries-edited_row i row b h =
    rw
      (chosen_selected (row_choices row.band band_info) row.band
        (last_selected-found row.band band_info b h))
      refl

pub port_boxes-resize :
    (i j n m : ℕ) (ports : List Bool)
    → n ≤ m
    → port_boxes i n j (resize m ports) ≡ port_boxes i n j (resize n ports)
unfolding port_boxes resize
port_boxes-resize i j zero m ports h = refl
port_boxes-resize i j (suc n) zero ports h = absurd (omega arith)
port_boxes-resize i j (suc n) (suc m) [] h =
    rw (port_boxes-resize i (j + 1) n m [] (omega arith)) refl
port_boxes-resize i j (suc n) (suc m) (p ∷ ports) h =
    rw (port_boxes-resize i (j + 1) n m ports (omega arith)) refl
