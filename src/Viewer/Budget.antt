-- ===== src/Viewer/Budget.antt =====
-- The cache stays within the limit of a frame's data, and its counter of bytes is right.
use yudesk.Base.{
  ℕ, ◌-◌, ◌^◌, ◌≤◌, ◌<◌, ◌≡◌, refl, sym, ◌∙◌, subst, true, false, not, ◌&&◌, ◌||◌, Bool, Option,
  none, some, List, [], ◌∷◌, arith, inl, inr, ltb, ◌==◌, if◌then◌else◌, length, take, drop,
  length-take, length-drop, Bool-cases,
}
use yudesk.Protocol.Wire.{Bytes, max_data_size}
use yudesk.Stream.Tiles.{Tile, TileFrame, seen, is_misfit, fits_all, validate}
use yudesk.Viewer.Tiles.{
  HubFrame, CachedTile, TileHub, PublishError, new_tile_hub, stands_at, size_at, put_tile, tile_at,
  retain, store_tiles, keep_frame, publish, on_grid, covers,
}
use yudesk.Viewer.Cache.{
  AreApart, cached_size, put_tile-AreApart, size_at-put_tile, cached_size-put_tile, size_at_bounded,
}

-- What a call of publish is given: a frame, the data and whether the peer is an old one.
pub record Call : Type 0 where
  pub frame : HubFrame
  pub content : Bytes
  pub legacy : Bool

abbrev AreWords : List Tile → Type 0
AreWords [] = Unit
AreWords (t ∷ tiles) = (t.size < 2 ^ 64) × AreWords tiles

-- The sizes are words, and the data is a slice.
abbrev pub IsSlice : Call → Type 0
IsSlice call = AreWords call.frame.picture.tiles × (length call.content < 2 ^ 63)

abbrev pub AreSlices : List Call → Type 0
AreSlices [] = Unit
AreSlices (call ∷ calls) = IsSlice call × AreSlices calls

-- Calls of publish one after the other.
unfoldable pub publishes : List Call → TileHub → TileHub
publishes [] h = h
publishes (call ∷ calls) h = publishes calls (publish call.frame call.content call.legacy h).1

-- The tiles use up the data, at positions that were not seen before.
abbrev pub Divides : ℕ → List Tile → List Tile → Type 0
Divides left earlier [] = Unit
Divides left earlier (t ∷ tiles) =
    (seen t earlier ≡ false) × (t.size ≤ left) × Divides (left - t.size) (t ∷ earlier) tiles

misfit-size :
    (width height left : ℕ) (t : Tile)
    → left < 2 ^ 63
    → t.size < 2 ^ 64
    → is_misfit width height left t ≡ false
    → t.size ≤ left
unfolding is_misfit
misfit-size width height left t short word h = ground arith

fits_all-Divides :
    (width height left : ℕ) (earlier tiles : List Tile)
    → left < 2 ^ 63
    → AreWords tiles
    → fits_all width height left earlier tiles ≡ true
    → Divides left earlier tiles
unfolding fits_all
fits_all-Divides width height left earlier [] short words h = tt
fits_all-Divides width height left earlier (t ∷ tiles) short (word, words) h =
    elim (Bool-cases (seen t earlier)) [
      | inl again ↦ absurd (ground arith)
      | inr first ↦ elim (Bool-cases (is_misfit width height left t)) [
        | inl misfit ↦ absurd (ground arith)
        | inr fits ↦ (
          first,
          misfit-size width height left t short word fits,
          fits_all-Divides width height (left - t.size) (t ∷ earlier) tiles (omega arith) words
              (ground arith),
        )
      ]
    ]

pub validate-Divides :
    (f : TileFrame) (size : ℕ)
    → size < 2 ^ 63
    → AreWords f.tiles
    → validate f size ≡ true
    → Divides size [] f.tiles
unfolding validate
validate-Divides f size short words h =
    fits_all-Divides f.width f.height size [] f.tiles short words (ground arith)

-- Either nothing happens, or the frame has passed the tests that matter and is kept.
pub publish_cases :
    (P : Option PublishError × TileHub → Type 0) (f : HubFrame) (content : Bytes) (legacy : Bool)
    (h : TileHub)
    → ((e : PublishError) → P (some e, h))
    → (let retained = retain f.reset h.tiles f.picture.tiles (if f.reset then 0 else h.bytes) in
        validate f.picture (length content) ≡ true
        → retained ≤ max_data_size
        → P (none, keep_frame f content retained h))
    → P (publish f content legacy h)
unfolding publish
publish_cases P f content legacy h refused kept =
    let retained = retain f.reset h.tiles f.picture.tiles (if f.reset then 0 else h.bytes) in
    elim (Bool-cases (validate f.picture (length content))) [
      | inr invalid ↦ rw invalid (refused PublishError.invalid_frame)
      | inl valid ↦
          elim (Bool-cases
            (not legacy && not (on_grid f.picture.width f.picture.height f.picture.tiles))) [
              | inl off ↦ rw (valid, off) (refused PublishError.invalid_grid)
              | inr grid ↦ elim (Bool-cases (not legacy && (f.reset && not (covers f.picture)))) [
                | inl partial ↦ rw (valid, grid, partial) (refused PublishError.incomplete_keyframe)
                | inr whole ↦
                    elim (Bool-cases (
                      not f.reset
                      && (h.revision == 0
                          || (not (f.picture.width == h.frame.picture.width)
                              || not (f.picture.height == h.frame.picture.height))))) [
                                | inl missing ↦
                                    rw (valid, grid, whole, missing)
                                      (refused PublishError.missing_keyframe)
                                | inr follows ↦ elim (Bool-cases (ltb max_data_size retained)) [
                                  | inl full ↦
                                      rw (valid, grid, whole, follows, full)
                                        (refused PublishError.cache_full)
                                  | inr room ↦
                                      rw (valid, grid, whole, follows, room)
                                        (kept valid (ground arith))
                                ]
                              ]
              ]
            ]
    ]

pub store_tiles-AreApart :
    (revision : ℕ) (tiles : List Tile) (content : Bytes) (cached : List CachedTile)
    → AreApart cached
    → AreApart (store_tiles revision tiles content cached)
unfolding store_tiles
store_tiles-AreApart revision [] content cached h = h
store_tiles-AreApart revision (t ∷ tiles) content cached h =
    store_tiles-AreApart revision tiles (drop t.size content) _ (put_tile-AreApart _ cached h)

store_tiles-retain :
    (revision : ℕ) (reset : Bool) (old : List CachedTile) (earlier tiles : List Tile)
    (content : Bytes) (cached : List CachedTile) (retained : ℕ)
    → Divides (length content) earlier tiles
    → ((t : Tile)
        → seen t earlier ≡ false
        → size_at t.x t.y cached ≡ (if reset then 0 else size_at t.x t.y old))
    → cached_size cached ≡ retained
    → cached_size (store_tiles revision tiles content cached) ≡ retain reset old tiles retained
unfolding store_tiles retain
store_tiles-retain revision reset old earlier [] content cached retained divides unseen e = e
store_tiles-retain revision reset old earlier (t ∷ tiles) content cached retained
      (first, fits, divides) unseen e =
    let c : CachedTile = record { tile = t; content = take t.size content; revision = revision } in
    let replaced = cached_size-put_tile c cached in
    let part = length-take t.size content fits in
    let same_size = unseen t first in
    store_tiles-retain revision reset old (t ∷ earlier) tiles (drop t.size content)
      (put_tile c cached) _
      (subst (λ (n : ℕ). Divides n (t ∷ earlier) tiles) (sym (length-drop t.size content)) divides)
      (λ u apart.
        let elsewhere : (stands_at u.x u.y c ≡ false) = ground arith in
        let not_before : (seen u earlier ≡ false) = ground arith in
        size_at-put_tile u.x u.y c cached elsewhere ∙ unseen u not_before)
      (omega (arith, size_at_bounded t.x t.y cached))

-- What is true of the cache between two calls.
pub record IsWithinBudget (h : TileHub) : Type 0 where
  pub apart : AreApart h.tiles
  pub counted : h.bytes ≡ cached_size h.tiles
  pub room : h.bytes ≤ max_data_size

-- The cache into which the tiles of a frame go.
start :
    (reset : Bool) (h : TileHub)
    → IsWithinBudget h
    → (let cached = if reset then [] else h.tiles in
        AreApart cached
        × ((t : Tile)
            → seen t [] ≡ false
            → size_at t.x t.y cached ≡ (if reset then 0 else size_at t.x t.y h.tiles))
        × (cached_size cached ≡ (if reset then 0 else h.bytes)))
unfolding tile_at
start true h before = (tt, λ t unseen. refl, refl)
start false h before = (before.apart, λ t unseen. refl, sym before.counted)

keep_frame-IsWithinBudget :
    (f : HubFrame) (content : Bytes) (h : TileHub)
    → (let retained = retain f.reset h.tiles f.picture.tiles (if f.reset then 0 else h.bytes) in
        Divides (length content) [] f.picture.tiles
        → retained ≤ max_data_size
        → IsWithinBudget h
        → IsWithinBudget (keep_frame f content retained h))
unfolding keep_frame
keep_frame-IsWithinBudget f content h divides room before =
    let (apart, unseen, counted) = start f.reset h before in
    record {
      apart = store_tiles-AreApart _ f.picture.tiles content _ apart;
      counted = sym (
          store_tiles-retain _ f.reset h.tiles [] f.picture.tiles content _ _ divides unseen
            counted);
      room = room;
    }

pub publish-IsWithinBudget :
    (call : Call) (h : TileHub)
    → IsSlice call
    → IsWithinBudget h
    → IsWithinBudget (publish call.frame call.content call.legacy h).1
publish-IsWithinBudget call h (words, short) before =
    publish_cases (λ (r : Option PublishError × TileHub). IsWithinBudget r.1) call.frame
      call.content call.legacy h (λ e. before)
      (λ valid room.
        keep_frame-IsWithinBudget call.frame call.content h
          (validate-Divides call.frame.picture (length call.content) short words valid) room before)

publishes-keeps :
    (calls : List Call) (h : TileHub)
    → AreSlices calls
    → IsWithinBudget h
    → IsWithinBudget (publishes calls h)
unfolding publishes
publishes-keeps [] h slices before = before
publishes-keeps (call ∷ calls) h (slice, slices) before =
    publishes-keeps calls _ slices (publish-IsWithinBudget call h slice before)

-- Whatever frames are published to a new hub, refused ones included, the cache holds one tile at most
-- at each position, its counter is the sum of the lengths of the tiles' data, and this sum is never
-- more than what one frame may carry.
pub publishes-IsWithinBudget :
    (calls : List Call) → AreSlices calls → IsWithinBudget (publishes calls new_tile_hub)
publishes-IsWithinBudget calls slices =
    publishes-keeps calls new_tile_hub slices
      (record { apart = tt; counted = refl; room = omega arith })
