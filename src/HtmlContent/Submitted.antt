-- ===== src/HtmlContent/Submitted.antt =====
-- The loops of the script of the configuration page over the table of bands that the page shows.
use mathlib.Core.List.{map}
use esp32_band_decoder.Base.{
  ℕ, zero, suc, ◌+◌, ◌≤◌, ◌<◌, ◌≡◌, refl, ap, ◌∙◌, Bool, true, false, List, [], ◌∷◌, ◌++◌, none,
  some, arith, length, take, ◌==◌,
}
use esp32_band_decoder.Config.{BandConfig, max_antenna_ports}
use esp32_band_decoder.HtmlContent.Form.{
  Entry, PostedBand, is_text, entries, piece_entries, form_get, submit_ports, submit_bands,
}
use esp32_band_decoder.HtmlContent.Numbers.{
  port_name-same, band_name-same, band-port_name, port-band_name,
}
use esp32_band_decoder.HtmlContent.Rows.{
  AreListed, get_absent, get_present, get_other, ports_absent, rows_entries, rows_absent,
}
use esp32_band_decoder.HtmlContent.{band_name, port_name, port_boxes, band_rows}
use esp32_band_decoder.Text.{codes, eq_bytes}

-- What the script posts for a band with so many ports.
abbrev pub posted_band : ℕ → BandConfig → PostedBand
posted_band num_ports b = record {
  description = some b.description;
  antenna_ports = take num_ports b.antenna_ports;
}

other_port :
    (i l m : ℕ)
    → i < 10
    → l < 10
    → m < 10
    → (l == m) ≡ false
    → eq_bytes (port_name i l) (port_name i m) ≡ false
other_port i l m hi hl hm e = port_name-same i l i m hi hl hi hm ∙ ground arith

other_row :
    (i l k m : ℕ)
    → i < 10
    → k < 10
    → l < 10
    → m < 10
    → (i == k) ≡ false
    → eq_bytes (port_name i l) (port_name k m) ≡ false
other_row i l k m hi hk hl hm e = port_name-same i l k m hi hl hk hm ∙ ground arith

same_port : (i l : ℕ) → i < 10 → l < 10 → eq_bytes (port_name i l) (port_name i l) ≡ true
same_port i l hi hl = port_name-same i l i l hi hl hi hl ∙ ground arith

one_is_one : is_text (codes "1") (some (codes "1")) ≡ true
unfolding eq_bytes
one_is_one = refl

-- The loop over the ports of band `i` posts which of its boxes are checked.
ports_posted :
    (form rest : List Entry) (i left j : ℕ) (ports : List Bool) (limit : ℕ)
    → i < 10
    → j + left ≡ limit
    → limit ≤ 10
    → left ≤ length ports
    → ((l : ℕ)
        → j ≤ l
        → l < limit
        → form_get (port_name i l) form
          ≡ form_get (port_name i l) (entries (port_boxes i left j ports) ++ rest))
    → ((l : ℕ) → l < limit → form_get (port_name i l) rest ≡ none)
    → submit_ports form i left j ≡ take left ports
unfolding submit_ports port_boxes entries piece_entries
ports_posted form rest i zero j ports limit hi e small fits agree behind = refl
ports_posted form rest i (suc left) j [] limit hi e small fits agree behind = absurd (omega arith)
ports_posted form rest i (suc left) j (true ∷ ports) limit hi e small fits agree behind =
    let here : form_get (port_name i j) form ≡ some (codes "1") =
      agree j (omega arith) (omega arith)
      ∙ get_present (port_name i j) (port_name i j) (codes "1")
          (entries (port_boxes i left (j + 1) ports) ++ rest) (same_port i j hi (omega arith)) in
    let later =
      ports_posted form rest i left (j + 1) ports limit hi (omega arith) small (omega arith)
        (λ l le lt.
          agree l (omega arith) lt
          ∙ get_other (port_name i l) (port_name i j) (codes "1")
              (entries (port_boxes i left (j + 1) ports) ++ rest)
              (other_port i l j hi (omega arith) (omega arith) (ground arith)))
        behind in
    rw (here, one_is_one, later) refl
ports_posted form rest i (suc left) j (false ∷ ports) limit hi e small fits agree behind =
    let here : form_get (port_name i j) form ≡ none =
      agree j (omega arith) (omega arith)
      ∙ get_absent (port_name i j) (entries (port_boxes i left (j + 1) ports)) rest (
          ports_absent (port_name i j) i left (j + 1) ports limit (omega arith)
            (λ l le lt. other_port i j l hi (omega arith) (omega arith) (ground arith)))
      ∙ behind j (omega arith) in
    let later =
      ports_posted form rest i left (j + 1) ports limit hi (omega arith) small (omega arith)
        (λ l le lt. agree l (omega arith) lt) behind in
    rw (here, later) refl

-- What the script posts for the first `left` bands.
abbrev pub posted_bands : ℕ → ℕ → List BandConfig → List PostedBand
posted_bands num_ports left bands = map (posted_band num_ports) (take left bands)

-- The loop over the bands posts the bands that the rows were made from.
pub bands_posted :
    (form rest : List Entry) (n left i : ℕ) (bands : List BandConfig) (limit : ℕ)
    → AreListed left bands
    → i + left ≡ limit
    → limit ≤ 10
    → n ≤ max_antenna_ports
    → ((k : ℕ)
        → i ≤ k
        → k < limit
        → form_get (band_name k) form
          ≡ form_get (band_name k) (entries (band_rows n left i bands) ++ rest))
    → ((k l : ℕ)
        → i ≤ k
        → k < limit
        → l < n
        → form_get (port_name k l) form
          ≡ form_get (port_name k l) (entries (band_rows n left i bands) ++ rest))
    → ((k l : ℕ) → k < limit → l < n → form_get (port_name k l) rest ≡ none)
    → submit_bands form n left i ≡ posted_bands n left bands
unfolding submit_bands
bands_posted form rest n zero i bands limit h e small few agree agree_ports behind = refl
bands_posted form rest n (suc left) i [] limit h e small few agree agree_ports behind = absurd h
bands_posted form rest n (suc left) i (b ∷ bands) limit (h, hs) e small few agree agree_ports
      behind =
    let boxes = entries (port_boxes i n 0 b.antenna_ports) in
    let rest' = entries (band_rows n left (i + 1) bands) ++ rest in
    let whole = rows_entries n left i b bands rest h in
    let name : form_get (band_name i) form ≡ some b.description =
      agree i (omega arith) (omega arith)
      ∙ ap (form_get (band_name i)) whole
      ∙ get_present (band_name i) (band_name i) b.description (boxes ++ rest')
          (band_name-same i i (omega arith) (omega arith) ∙ ground arith) in
    let ports : submit_ports form i n 0 ≡ take n b.antenna_ports =
      ports_posted form rest' i n 0 b.antenna_ports n (omega arith) (omega arith) (omega arith)
        (omega (arith, h.all_ports))
        (λ l le lt.
          agree_ports i l (omega arith) (omega arith) lt
          ∙ ap (form_get (port_name i l)) whole
          ∙ get_other (port_name i l) (band_name i) b.description (boxes ++ rest')
              (port-band_name i l i))
        (λ l lt.
          rows_absent (port_name i l) n left (i + 1) bands rest limit (omega arith) hs
            (λ k le k_lt. port-band_name i l k)
            (λ k le k_lt m _ m_lt.
              other_row i l k m (omega arith) (omega arith) (omega arith) (omega arith)
                (ground arith))
          ∙ behind i l (omega arith) lt) in
    let later : submit_bands form n left (i + 1) ≡ posted_bands n left bands =
      bands_posted form rest n left (i + 1) bands limit hs (omega arith) small few
        (λ k le lt.
          agree k (omega arith) lt
          ∙ ap (form_get (band_name k)) whole
          ∙ get_other (band_name k) (band_name i) b.description (boxes ++ rest')
              (band_name-same k i (omega arith) (omega arith) ∙ ground arith)
          ∙ get_absent (band_name k) boxes rest' (
              ports_absent (band_name k) i n 0 b.antenna_ports n (omega arith)
                (λ l _ _. band-port_name k i l)))
        (λ k l le lt l_lt.
          agree_ports k l (omega arith) lt l_lt
          ∙ ap (form_get (port_name k l)) whole
          ∙ get_other (port_name k l) (band_name i) b.description (boxes ++ rest')
              (port-band_name k l i)
          ∙ get_absent (port_name k l) boxes rest' (
              ports_absent (port_name k l) i n 0 b.antenna_ports n (omega arith) (λ m _ m_lt.
                other_row k l i m (omega arith) (omega arith) (omega arith) (omega arith)
                  (ground arith))))
        behind in
    rw (name, ports, later) refl
