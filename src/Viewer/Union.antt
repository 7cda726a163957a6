-- ===== src/Viewer/Union.antt =====
-- A snapshot brings a reader from the revision that it has seen to the present.
use yudesk.Base.{
  ℕ, ◌≡◌, refl, sym, ◌∙◌, ap, true, false, ◌&&◌, ◌||◌, Bool, Option, none, some, List, [], ◌∷◌,
  ◌++◌, arith, inl, inr, ltb, ◌==◌, if◌then◌else◌, length, take, drop, Bool-cases,
}
use yudesk.Protocol.Wire.{Bytes}
use yudesk.Protocol.Bytes.{take-append, drop-append}
use yudesk.Stream.Tiles.{Tile}
use yudesk.Viewer.Tiles.{
  HubFrame, CachedTile, stands_at, tile_at, comes_before, insert_tile, select_tiles, tiles_of,
  contents_of,
}
use yudesk.Viewer.Cache.{AreApart}

-- What a reader shows at each position.
abbrev pub View : Type 0
View = ℕ → ℕ → Option (Tile × Bytes)

abbrev pub blank_view : View
blank_view x y = none

-- A cached tile, or else what was shown.
abbrev pub shown_or : Option CachedTile → Option (Tile × Bytes) → Option (Tile × Bytes)
shown_or none w = w
shown_or (some c) w = some (c.tile, c.content)

-- A tile that a reader at revision `seen` needs.
abbrev pub wanted : Bool → ℕ → Option CachedTile → Option CachedTile
wanted reset seen none = none
wanted reset seen (some c) = if ltb seen c.revision || reset then some c else none

-- What the hub holds there.
abbrev pub held : List CachedTile → View
held tiles x y = shown_or (tile_at x y tiles) none

-- A reader puts each tile, with its part of the data, in its place.
unfoldable pub draw : List Tile → Bytes → View → View
draw [] content v = v
draw (t ∷ tiles) content v =
    draw tiles (drop t.size content)
      (λ x y. if t.x == x && t.y == y then some (t, take t.size content) else v x y)

-- A reader takes a snapshot.
unfoldable pub take_snapshot : HubFrame × Bytes → View → View
take_snapshot (f, content) v = draw f.picture.tiles content (if f.reset then blank_view else v)

abbrev pub AreSized : List CachedTile → Type 0
AreSized [] = Unit
AreSized (c ∷ tiles) = (length c.content ≡ c.tile.size) × AreSized tiles

none_at :
    (x y : ℕ) (c : CachedTile) (tiles : List CachedTile)
    → stands_at x y c ≡ true
    → tile_at c.tile.x c.tile.y tiles ≡ none
    → tile_at x y tiles ≡ none
none_at x y c tiles here alone =
    let same_x : (c.tile.x ≡ x) = ground arith in
    let same_y : (c.tile.y ≡ y) = ground arith in
    ap (λ (n : ℕ). tile_at n y tiles) (sym same_x)
    ∙ ap (λ (n : ℕ). tile_at c.tile.x n tiles) (sym same_y)
    ∙ alone

not_there :
    (x y : ℕ) (d : CachedTile) (tiles : List CachedTile)
    → tile_at x y (d ∷ tiles) ≡ none
    → (stands_at x y d ≡ false) × (tile_at x y tiles ≡ none)
unfolding tile_at
not_there x y d tiles h = elim (Bool-cases (stands_at x y d)) [
  | inl here ↦ absurd (ground arith)
  | inr there ↦ (there, ground arith)
]

-- Inserting where nothing stands.
tile_at-insert_tile :
    (x y : ℕ) (c : CachedTile) (tiles : List CachedTile)
    → tile_at c.tile.x c.tile.y tiles ≡ none
    → tile_at x y (insert_tile c tiles) ≡ (if stands_at x y c then some c else tile_at x y tiles)
unfolding tile_at insert_tile
tile_at-insert_tile x y c [] alone = refl
tile_at-insert_tile x y c (d ∷ tiles) alone = elim (Bool-cases (comes_before d c)) [
  | inr after ↦ rw after refl
  | inl before ↦
      let (apart, alone') = not_there c.tile.x c.tile.y d tiles alone in
      let more = tile_at-insert_tile x y c tiles alone' in rw before (ground arith)
]

insert_tile-AreApart :
    (c : CachedTile) (tiles : List CachedTile)
    → tile_at c.tile.x c.tile.y tiles ≡ none
    → AreApart tiles
    → AreApart (insert_tile c tiles)
unfolding tile_at insert_tile
insert_tile-AreApart c [] alone h = (refl, tt)
insert_tile-AreApart c (d ∷ tiles) alone (apart, h) = elim (Bool-cases (comes_before d c)) [
  | inr after ↦ rw after (alone, (apart, h))
  | inl before ↦
      let (elsewhere, alone') = not_there c.tile.x c.tile.y d tiles alone in
      let not_here : (stands_at d.tile.x d.tile.y c ≡ false) = ground arith in
      let more = tile_at-insert_tile d.tile.x d.tile.y c tiles alone' in
      rw before (more ∙ rw not_here apart, insert_tile-AreApart c tiles alone' h)
]

insert_tile-AreSized :
    (c : CachedTile) (tiles : List CachedTile)
    → length c.content ≡ c.tile.size
    → AreSized tiles
    → AreSized (insert_tile c tiles)
unfolding insert_tile
insert_tile-AreSized c [] sized h = (sized, tt)
insert_tile-AreSized c (d ∷ tiles) sized (one, h) = elim (Bool-cases (comes_before d c)) [
  | inr after ↦ rw after (sized, (one, h))
  | inl before ↦ rw before (one, insert_tile-AreSized c tiles sized h)
]

pub draw-tiles :
    (x y : ℕ) (tiles : List CachedTile) (v : View)
    → AreApart tiles
    → AreSized tiles
    → draw (tiles_of tiles) (contents_of tiles) v x y ≡ shown_or (tile_at x y tiles) (v x y)
unfolding draw tiles_of contents_of tile_at
draw-tiles x y [] v apart sized = refl
draw-tiles x y (c ∷ tiles) v (alone, apart) (one, sized) =
    let rest = contents_of tiles in
    let took : (take c.tile.size (c.content ++ rest) ≡ c.content) =
      ap (λ (n : ℕ). take n (c.content ++ rest)) (sym one) ∙ take-append c.content rest in
    let left : (drop c.tile.size (c.content ++ rest) ≡ rest) =
      ap (λ (n : ℕ). drop n (c.content ++ rest)) (sym one) ∙ drop-append c.content rest in
    let painted : View = λ x' y'. if stands_at x' y' c then some (c.tile, c.content) else v x' y' in
    let more = draw-tiles x y tiles painted apart sized in
    ap
      (λ (b : Bytes).
        draw (tiles_of tiles) (drop c.tile.size (c.content ++ rest))
          (λ x' y'. if stands_at x' y' c then some (c.tile, b) else v x' y') x y)
      took
    ∙ ap (λ (b : Bytes). draw (tiles_of tiles) b painted x y) left
    ∙ more
    ∙ elim (Bool-cases (stands_at x y c)) [
      | inl here ↦
          let painted_here : (painted x y ≡ some (c.tile, c.content)) = rw here refl in
          let first : (tile_at x y (c ∷ tiles) ≡ some c) = rw here refl in
          ap (λ (o : Option CachedTile). shown_or o (painted x y)) (none_at x y c tiles here alone)
          ∙ painted_here
          ∙ ap (λ (o : Option CachedTile). shown_or o (v x y)) (sym first)
      | inr there ↦
          let kept : (painted x y ≡ v x y) = rw there refl in
          let later : (tile_at x y (c ∷ tiles) ≡ tile_at x y tiles) = rw there refl in
          ap (λ (w : Option (Tile × Bytes)). shown_or (tile_at x y tiles) w) kept
          ∙ ap (λ (o : Option CachedTile). shown_or o (v x y)) (sym later)
    ]

-- What a snapshot selects.
pub select_tiles-wanted :
    (reset : Bool) (seen x y : ℕ) (tiles : List CachedTile)
    → AreApart tiles
    → AreSized tiles
    → AreApart (select_tiles reset seen tiles)
      × AreSized (select_tiles reset seen tiles)
      × (tile_at x y (select_tiles reset seen tiles) ≡ wanted reset seen (tile_at x y tiles))
unfolding select_tiles tile_at
select_tiles-wanted reset seen x y [] apart sized = (tt, tt, refl)
select_tiles-wanted reset seen x y (c ∷ tiles) (alone, apart) (one, sized) =
    let (apart', sized', selected) = select_tiles-wanted reset seen x y tiles apart sized in
    let (r, s, selected_here) =
      select_tiles-wanted reset seen c.tile.x c.tile.y tiles apart sized in
    let alone' : (tile_at c.tile.x c.tile.y (select_tiles reset seen tiles) ≡ none) =
      selected_here ∙ rw alone refl in
    elim (Bool-cases (ltb seen c.revision || reset)) [
      | inl needed ↦ rw needed (
        insert_tile-AreApart c _ alone' apart',
        insert_tile-AreSized c _ one sized',
        tile_at-insert_tile x y c _ alone' ∙ elim (Bool-cases (stands_at x y c)) [
          | inl here ↦ rw (here, needed) refl
          | inr there ↦ rw there selected
        ],
      )
      | inr unwanted ↦ rw unwanted (
        apart',
        sized',
        selected ∙ elim (Bool-cases (stands_at x y c)) [
          | inl here ↦ rw (here, none_at x y c tiles here alone, unwanted) refl
          | inr there ↦ rw there refl
        ],
      )
    ]
