-- ===== src/Stream/Tiles.antt =====
-- internal/stream/tiles.go: TileFrame.Validate. A Go `int` is its 64-bit word: the numbers come from a
-- peer's JSON, and a sum may wrap round.
use yudesk.Base.{
  ℕ, ◌+◌, ◌-◌, ◌*◌, ◌%◌, ◌^◌, Bool, true, false, not, ◌&&◌, ◌||◌, List, [], ◌∷◌, ltb, ◌==◌,
  if◌then◌else◌, length,
}

pub data Mime : Type 0 where
  png jpeg other : Mime

pub record Tile : Type 0 where
  pub x : ℕ
  pub y : ℕ
  pub width : ℕ
  pub height : ℕ
  pub size : ℕ
  pub mime : Mime

pub record TileFrame : Type 0 where
  pub width : ℕ
  pub height : ℕ
  pub tiles : List Tile

abbrev pub max_pixels : ℕ
max_pixels = 3840 * 2160 * 4

-- A word as a signed number, moved up by 2 ^ 63.
abbrev pub raise_word : ℕ → ℕ
raise_word a = (a + 2 ^ 63) % 2 ^ 64

-- `a < b`, signed
abbrev pub below : ℕ → ℕ → Bool
below a b = ltb (raise_word a) (raise_word b)

abbrev pub add_word : ℕ → ℕ → ℕ
add_word a b = (a + b) % 2 ^ 64

abbrev pub is_image : Mime → Bool
is_image Mime.png = true
is_image Mime.jpeg = true
is_image Mime.other = false

abbrev pub at_position : Tile → Tile → Bool
at_position t u = t.x == u.x && t.y == u.y

-- `seen[position]`, for the tiles before
abbrev pub seen : Tile → List Tile → Bool
seen t [] = false
seen t (u ∷ earlier) = at_position t u || seen t earlier

-- The second test of the loop; `left` is `len(data)-size`.
unfoldable pub is_misfit : ℕ → ℕ → ℕ → Tile → Bool
is_misfit frame_width frame_height left t =
    below t.x 0
    || below t.y 0
    || below t.width 1
    || below t.height 1
    || below frame_width (add_word t.x t.width)
    || below frame_height (add_word t.y t.height)
    || below t.size 1
    || below left t.size
    || not (is_image t.mime)

-- The loop over the tiles and the last test; `earlier` are the tiles before.
unfoldable pub fits_all : ℕ → ℕ → ℕ → List Tile → List Tile → Bool
unfolding is_misfit
fits_all frame_width frame_height left earlier [] = left == 0
fits_all frame_width frame_height left earlier (t ∷ tiles) =
    let rest = fits_all frame_width frame_height (left - t.size) (t ∷ earlier) tiles in
    if seen t earlier
    then false
    else if is_misfit frame_width frame_height left t
    then false
    else rest

-- `Validate`, on a frame and the length of its data: true where it gives no error.
unfoldable pub validate : TileFrame → ℕ → Bool
unfolding fits_all
validate f data_length =
    if below f.width 1
      || below f.height 1
      || below 16384 f.width
      || below 16384 f.height
      || below max_pixels (f.width * f.height % 2 ^ 64)
      || ltb 1024 (length f.tiles)
    then false
    else fits_all f.width f.height data_length [] f.tiles
