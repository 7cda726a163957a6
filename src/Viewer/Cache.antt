-- ===== src/Viewer/Cache.antt =====
-- The cache of tiles as a map from positions.
use yudesk.Base.{
  ℕ, ◌+◌, ◌≤◌, ◌≡◌, refl, sym, ◌∙◌, ap, true, false, Option, none, some, List, [], ◌∷◌, arith, inl,
  inr, if◌then◌else◌, length, Bool-cases,
}
use yudesk.Viewer.Tiles.{CachedTile, stands_at, tile_at, size_at, put_tile}

-- No two tiles have one position.
abbrev pub AreApart : List CachedTile → Type 0
AreApart [] = Unit
AreApart (c ∷ tiles) = (tile_at c.tile.x c.tile.y tiles ≡ none) × AreApart tiles

abbrev pub cached_size : List CachedTile → ℕ
cached_size [] = 0
cached_size (c ∷ tiles) = length c.content + cached_size tiles

pub tile_at-put_tile :
    (x y : ℕ) (c : CachedTile) (tiles : List CachedTile)
    → tile_at x y (put_tile c tiles) ≡ (if stands_at x y c then some c else tile_at x y tiles)
unfolding tile_at put_tile
tile_at-put_tile x y c [] = ground arith
tile_at-put_tile x y c (d ∷ tiles) = ground (arith, tile_at-put_tile x y c tiles)

pub put_tile-AreApart :
    (c : CachedTile) (tiles : List CachedTile) → AreApart tiles → AreApart (put_tile c tiles)
unfolding tile_at put_tile
put_tile-AreApart c [] h = (refl, tt)
put_tile-AreApart c (d ∷ tiles) (alone, h) = elim (Bool-cases (stands_at c.tile.x c.tile.y d)) [
  | inl same_place ↦
      let same_x : (d.tile.x ≡ c.tile.x) = ground arith in
      let same_y : (d.tile.y ≡ c.tile.y) = ground arith in
      rw same_place (
        ap (λ (n : ℕ). tile_at n c.tile.y tiles) (sym same_x)
            ∙ ap (λ (n : ℕ). tile_at d.tile.x n tiles) (sym same_y)
            ∙ alone,
        h,
      )
  | inr other ↦
      let apart : (stands_at d.tile.x d.tile.y c ≡ false) = ground arith in
      let still_alone : (tile_at d.tile.x d.tile.y (put_tile c tiles) ≡ none) =
        rw (tile_at-put_tile d.tile.x d.tile.y c tiles, apart) alone in
      rw other (still_alone, put_tile-AreApart c tiles h)
]

pub size_at-put_tile :
    (x y : ℕ) (c : CachedTile) (tiles : List CachedTile)
    → stands_at x y c ≡ false
    → size_at x y (put_tile c tiles) ≡ size_at x y tiles
size_at-put_tile x y c tiles other =
    ap (λ (o : Option CachedTile). elim o [ none ↦ 0 | some d ↦ length d.content ])
      (ground (arith, tile_at-put_tile x y c tiles))

size_at_here :
    (x y : ℕ) (c : CachedTile) (tiles : List CachedTile)
    → stands_at x y c ≡ true
    → size_at x y (c ∷ tiles) ≡ length c.content
unfolding tile_at
size_at_here x y c tiles here = rw (size_at, here) refl

size_at_there :
    (x y : ℕ) (c : CachedTile) (tiles : List CachedTile)
    → stands_at x y c ≡ false
    → size_at x y (c ∷ tiles) ≡ size_at x y tiles
unfolding tile_at
size_at_there x y c tiles there = rw (size_at, there) refl

pub cached_size-put_tile :
    (c : CachedTile) (tiles : List CachedTile)
    → cached_size (put_tile c tiles) + size_at c.tile.x c.tile.y tiles
      ≡ cached_size tiles + length c.content
unfolding put_tile tile_at
cached_size-put_tile c [] = omega arith
cached_size-put_tile c (d ∷ tiles) = elim (Bool-cases (stands_at c.tile.x c.tile.y d)) [
  | inl here ↦ rw here (omega (arith, size_at_here c.tile.x c.tile.y d tiles here))
  | inr there ↦
      rw there
        (omega (arith, size_at_there c.tile.x c.tile.y d tiles there, cached_size-put_tile c tiles))
]

pub size_at_bounded : (x y : ℕ) (tiles : List CachedTile) → size_at x y tiles ≤ cached_size tiles
unfolding tile_at
size_at_bounded x y [] = omega arith
size_at_bounded x y (c ∷ tiles) = elim (Bool-cases (stands_at x y c)) [
  | inl here ↦ omega (arith, size_at_here x y c tiles here)
  | inr there ↦ omega (arith, size_at_there x y c tiles there, size_at_bounded x y tiles)
]
