-- ===== src/HtmlContent/Lines.antt =====
-- How the raw string literals of main/html_content.cpp are written: a text for each line.
use Prim.Native.String.{String}
use esp32_band_decoder.Base.{List, [], ◌∷◌, ◌++◌}
use esp32_band_decoder.Text.{Bytes, codes}

-- The texts one behind the other.
unfoldable pub texts : List String → Bytes
texts [] = []
texts (s ∷ ss) = codes s ++ texts ss

-- The texts with line ends between them.
unfoldable pub lines_of : List String → Bytes
lines_of [] = []
lines_of (s ∷ []) = codes s
lines_of (s ∷ t ∷ ss) = codes s ++ b'\n' ∷ lines_of (t ∷ ss)
