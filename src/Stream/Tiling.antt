-- ===== src/Stream/Tiling.antt =====
-- A frame that Validate takes is a set of tiles inside the picture that use up the data.
use yudesk.Base.{
  ℕ, ◌+◌, ◌-◌, ◌%◌, ◌^◌, Bool, ◌||◌, ◌≡◌, ◌≤◌, ◌<◌, true, false, List, [], ◌∷◌, arith, Bool-cases,
  inl, inr,
}
use yudesk.Stream.Tiles.{Tile, TileFrame, below, add_word, seen, is_misfit, fits_all, validate}

abbrev pub total_size : List Tile → ℕ
total_size [] = 0
total_size (t ∷ tiles) = t.size + total_size tiles

-- A 64-bit word that stands for a signed number from - 2 ^ 62 up to 2 ^ 62.
abbrev pub IsSmallWord : ℕ → Type 0
IsSmallWord a = (a < 2 ^ 64) × ((a + 2 ^ 62) % 2 ^ 64 < 2 ^ 63)

-- Numbers, negative ones too, whose sums do not wrap round.
abbrev pub IsSmall : Tile → Type 0
IsSmall t =
    IsSmallWord t.x
    × IsSmallWord t.y
    × IsSmallWord t.width
    × IsSmallWord t.height
    × IsSmallWord t.size

abbrev pub AreSmall : List Tile → Type 0
AreSmall [] = Unit {0}
AreSmall (t ∷ tiles) = IsSmall t × AreSmall tiles

-- Each tile is in the frame, not empty, and at a position of its own.
abbrev pub AreInside : ℕ → ℕ → List Tile → List Tile → Type 0
AreInside frame_width frame_height earlier [] = Unit {0}
AreInside frame_width frame_height earlier (t ∷ tiles) =
    (0 < t.width)
    × (0 < t.height)
    × (t.x + t.width ≤ frame_width)
    × (t.y + t.height ≤ frame_height)
    × (seen t earlier ≡ false)
    × AreInside frame_width frame_height (t ∷ earlier) tiles

at_least-word : (a b : ℕ) → b ≤ 1 → IsSmallWord a → below a b ≡ false → (b ≤ a) × (a < 2 ^ 62)
at_least-word a b h small up = ground arith

within-word :
    (a b limit : ℕ)
    → limit < 2 ^ 62
    → a < 2 ^ 62
    → b < 2 ^ 62
    → below limit (add_word a b) ≡ false
    → a + b ≤ limit
within-word a b limit short small_a small_b h = ground arith

fits-word : (a limit : ℕ) → limit < 2 ^ 62 → a < 2 ^ 62 → below limit a ≡ false → a ≤ limit
fits-word a limit short small h = ground arith

neither : (a b : Bool) → a || b ≡ false → (a ≡ false) × (b ≡ false)
neither a b h = ground arith

misfit-inside :
    (frame_width frame_height left : ℕ) (t : Tile)
    → frame_width ≤ 16384
    → frame_height ≤ 16384
    → left < 2 ^ 62
    → IsSmall t
    → is_misfit frame_width frame_height left t ≡ false
    → (0 < t.width)
      × (0 < t.height)
      × (t.x + t.width ≤ frame_width)
      × (t.y + t.height ≤ frame_height)
      × (t.size ≤ left)
unfolding is_misfit
misfit-inside frame_width frame_height left t narrow low short (sx, sy, sw, sh, ss) h =
    let (h7, image) = neither _ _ h in
    let (h6, room) = neither _ _ h7 in
    let (h5, s_low) = neither _ _ h6 in
    let (h4, bottom) = neither _ _ h5 in
    let (h3, right) = neither _ _ h4 in
    let (h2, h_low) = neither _ _ h3 in
    let (h1, w_low) = neither _ _ h2 in
    let (x_low, y_low) = neither _ _ h1 in
    let (x0, x_small) = at_least-word t.x 0 (omega arith) sx x_low in
    let (y0, y_small) = at_least-word t.y 0 (omega arith) sy y_low in
    let (w0, w_small) = at_least-word t.width 1 (omega arith) sw w_low in
    let (h0, h_small) = at_least-word t.height 1 (omega arith) sh h_low in
    let (s0, s_small) = at_least-word t.size 1 (omega arith) ss s_low in
    (
      w0,
      h0,
      within-word t.x t.width frame_width (omega arith) x_small w_small right,
      within-word t.y t.height frame_height (omega arith) y_small h_small bottom,
      fits-word t.size left short s_small room,
    )

fits_all-tiling :
    (frame_width frame_height left : ℕ) (earlier tiles : List Tile)
    → frame_width ≤ 16384
    → frame_height ≤ 16384
    → left < 2 ^ 62
    → AreSmall tiles
    → fits_all frame_width frame_height left earlier tiles ≡ true
    → AreInside frame_width frame_height earlier tiles × (total_size tiles ≡ left)
unfolding fits_all
fits_all-tiling frame_width frame_height left earlier [] narrow low short small h =
    (tt, ground arith)
fits_all-tiling frame_width frame_height left earlier (t ∷ tiles) narrow low short (small_t, small)
      h =
    elim (Bool-cases (seen t earlier)) [
      | inl again ↦ absurd (ground arith)
      | inr first ↦ elim (Bool-cases (is_misfit frame_width frame_height left t)) [
        | inl misfit ↦ absurd (ground arith)
        | inr fits ↦
            let (wide, high, right, bottom, room) =
              misfit-inside frame_width frame_height left t narrow low short small_t fits in
            let (inside, total) =
              fits_all-tiling frame_width frame_height (left - t.size) (t ∷ earlier) tiles narrow
                low (omega arith) small (ground arith) in
            ((wide, high, right, bottom, first, inside), omega arith)
      ]
    ]

-- If Validate takes a frame whose width and height are 64-bit words, whose tiles have signed
-- numbers, negative ones too, from - 2 ^ 62 up to 2 ^ 62, with fewer than 2 ^ 62 bytes of data, then every tile is not empty, lies inside the frame
-- and has a position that no other has, and the tiles' sizes add up to the length of the data.
pub validate-tiling :
    (f : TileFrame) (data_length : ℕ)
    → f.width < 2 ^ 64
    → f.height < 2 ^ 64
    → data_length < 2 ^ 62
    → AreSmall f.tiles
    → validate f data_length ≡ true
    → AreInside f.width f.height [] f.tiles × (total_size f.tiles ≡ data_length)
unfolding validate
validate-tiling f data_length word_width word_height short small h =
    fits_all-tiling f.width f.height data_length [] f.tiles (ground arith) (ground arith) short
      small (ground arith)
