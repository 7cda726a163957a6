-- ===== src/Viewer/Tiles.antt =====
-- internal/viewerapp/tiles.go: newTileHub, publish and snapshot. The lock makes each a step; the
-- channel that wakes the readers is left out. A Go `int` is its 64-bit word, as in TileFrame.Validate.
use yudesk.Base.{
  ℕ, ◌+◌, ◌-◌, ◌*◌, ◌/◌, ◌%◌, ◌^◌, Bool, true, false, not, ◌&&◌, ◌||◌, Option, none, some, List, [],
  ◌∷◌, ◌++◌, ltb, ◌==◌, if◌then◌else◌, length, take, drop,
}
use yudesk.Protocol.Wire.{Bytes, max_data_size}
use yudesk.Stream.Tiles.{Tile, TileFrame, validate, below}

-- `stream.TileFrame` with the fields that Validate does not read.
pub record HubFrame : Type 0 where
  pub picture : TileFrame
  pub source_width : ℕ
  pub source_height : ℕ
  pub reset : Bool

pub record CachedTile : Type 0 where
  pub tile : Tile
  pub content : Bytes
  pub revision : ℕ

-- `tileHub`; the map from a tile's position to the tile is a list without two tiles at one position.
pub record TileHub : Type 0 where
  pub frame : HubFrame
  pub tiles : List CachedTile
  pub revision : ℕ
  pub reset_at : ℕ
  pub bytes : ℕ

abbrev pub new_tile_hub : TileHub
new_tile_hub = record {
  frame = record {
    picture = record { width = 0; height = 0; tiles = [] };
    source_width = 0;
    source_height = 0;
    reset = false;
  };
  tiles = [];
  revision = 0;
  reset_at = 0;
  bytes = 0;
}

pub data PublishError : Type 0 where
  invalid_frame invalid_grid incomplete_keyframe missing_keyframe cache_full : PublishError

abbrev pub tile_size : ℕ
tile_size = 256

-- `a - b`
abbrev pub sub_word : ℕ → ℕ → ℕ
sub_word a b = (a + 2 ^ 64 - b) % 2 ^ 64

-- `min(TileSize, a)`, signed
abbrev pub at_most_tile : ℕ → ℕ
at_most_tile a = if below a tile_size then a else tile_size

-- The tiles of a validated frame stand in the grid.
unfoldable pub on_grid : ℕ → ℕ → List Tile → Bool
on_grid frame_width frame_height [] = true
on_grid frame_width frame_height (t ∷ tiles) =
    t.x % tile_size == 0
    && t.y % tile_size == 0
    && t.width == at_most_tile (sub_word frame_width t.x)
    && t.height == at_most_tile (sub_word frame_height t.y)
    && on_grid frame_width frame_height tiles

abbrev pub covers : TileFrame → Bool
covers f =
    length f.tiles
    == ((f.width + tile_size - 1) / tile_size) * ((f.height + tile_size - 1) / tile_size)

-- The key of the map.
abbrev pub stands_at : ℕ → ℕ → CachedTile → Bool
stands_at x y c = c.tile.x == x && c.tile.y == y

-- `h.tiles[[2]int{x, y}]`
unfoldable pub tile_at : ℕ → ℕ → List CachedTile → Option CachedTile
tile_at x y [] = none
tile_at x y (c ∷ tiles) = if stands_at x y c then some c else tile_at x y tiles

-- `len(h.tiles[[2]int{x, y}].data)`
abbrev pub size_at : ℕ → ℕ → List CachedTile → ℕ
size_at x y tiles = elim (tile_at x y tiles) [ none ↦ 0 | some c ↦ length c.content ]

-- `h.tiles[[2]int{x, y}] = c` at the position of `c`
unfoldable pub put_tile : CachedTile → List CachedTile → List CachedTile
put_tile c [] = c ∷ []
put_tile c (d ∷ tiles) = if stands_at c.tile.x c.tile.y d then c ∷ tiles else d ∷ put_tile c tiles

-- The bytes that the cache will hold: the loop before the test of the limit.
unfoldable pub retain : Bool → List CachedTile → List Tile → ℕ → ℕ
retain reset cached [] retained = retained
retain reset cached (t ∷ tiles) retained =
    retain reset cached tiles ((retained - (if reset then 0 else size_at t.x t.y cached)) + t.size)

-- The loop that stores the tiles, each with its part of the data.
unfoldable pub store_tiles : ℕ → List Tile → Bytes → List CachedTile → List CachedTile
store_tiles revision [] content cached = cached
store_tiles revision (t ∷ tiles) content cached =
    store_tiles revision tiles (drop t.size content)
      (put_tile (record { tile = t; content = take t.size content; revision = revision }) cached)

-- The end of `publish`, within the limit.
unfoldable pub keep_frame : HubFrame → Bytes → ℕ → TileHub → TileHub
keep_frame f content retained h =
    let revision = (h.revision + 1) % 2 ^ 64 in
    record {
      frame = record f { picture = record f.picture { tiles = [] } };
      tiles = store_tiles revision f.picture.tiles content (if f.reset then [] else h.tiles);
      revision = revision;
      reset_at = if f.reset then revision else h.reset_at;
      bytes = retained;
    }

-- `publish`
unfoldable pub publish : HubFrame → Bytes → Bool → TileHub → Option PublishError × TileHub
publish f content legacy h =
    let retained = retain f.reset h.tiles f.picture.tiles (if f.reset then 0 else h.bytes) in
    if not (validate f.picture (length content))
    then (some invalid_frame, h)
    else if not legacy && not (on_grid f.picture.width f.picture.height f.picture.tiles)
    then (some invalid_grid, h)
    else if not legacy && (f.reset && not (covers f.picture))
    then (some incomplete_keyframe, h)
    else if not f.reset
        && (h.revision == 0
            || (not (f.picture.width == h.frame.picture.width)
                || not (f.picture.height == h.frame.picture.height)))
    then (some missing_keyframe, h)
    else if ltb max_data_size retained
    then (some cache_full, h)
    else (none, keep_frame f content retained h)

-- The order of `sort.Slice`, which reads the map in no order. Validated positions are not negative.
abbrev pub comes_before : CachedTile → CachedTile → Bool
comes_before c d = if c.tile.y == d.tile.y then ltb c.tile.x d.tile.x else ltb c.tile.y d.tile.y

unfoldable pub insert_tile : CachedTile → List CachedTile → List CachedTile
insert_tile c [] = c ∷ []
insert_tile c (d ∷ tiles) = if comes_before d c then d ∷ insert_tile c tiles else c ∷ d ∷ tiles

-- The tiles that a reader at revision `seen` needs, sorted.
unfoldable pub select_tiles : Bool → ℕ → List CachedTile → List CachedTile
select_tiles reset seen [] = []
select_tiles reset seen (c ∷ tiles) =
    let rest = select_tiles reset seen tiles in
    if ltb seen c.revision || reset then insert_tile c rest else rest

unfoldable pub tiles_of : List CachedTile → List Tile
tiles_of [] = []
tiles_of (c ∷ tiles) = c.tile ∷ tiles_of tiles

unfoldable pub contents_of : List CachedTile → Bytes
contents_of [] = []
contents_of (c ∷ tiles) = c.content ++ contents_of tiles

-- `snapshot`: the frame, the data and the revision.
unfoldable pub snapshot : ℕ → TileHub → (HubFrame × Bytes) × ℕ
snapshot seen h =
    let reset = ltb seen h.reset_at in
    let selected = select_tiles reset seen h.tiles in
    (
      (
        record h.frame {
          picture = record h.frame.picture { tiles = tiles_of selected };
          reset = reset;
        },
        contents_of selected,
      ),
      h.revision,
    )
