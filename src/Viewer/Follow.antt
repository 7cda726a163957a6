-- ===== src/Viewer/Follow.antt =====
-- A reader that takes snapshots follows the hub, however many frames it has missed.
use yudesk.Base.{
  ℕ, ◌+◌, ◌^◌, ◌%◌, ◌≤◌, ◌<◌, ◌≡◌, ◌⊎◌, refl, sym, ◌∙◌, ap, true, false, ◌||◌, Bool, Option, none,
  some, List, [], ◌∷◌, arith, inl, inr, ltb, if◌then◌else◌, length, take, drop, length-take,
  length-drop, Bool-cases,
}
use yudesk.Protocol.Wire.{Bytes}
use yudesk.Stream.Tiles.{Tile}
use yudesk.Viewer.Tiles.{
  HubFrame, CachedTile, TileHub, PublishError, stands_at, put_tile, tile_at, store_tiles,
  keep_frame, publish, select_tiles, snapshot,
}
use yudesk.Viewer.Cache.{AreApart, tile_at-put_tile}
use yudesk.Viewer.Budget.{
  Call, IsSlice, Divides, validate-Divides, publish_cases, store_tiles-AreApart,
}
use yudesk.Viewer.Union.{
  View, blank_view, held, shown_or, wanted, take_snapshot, AreSized, draw-tiles,
  select_tiles-wanted,
}

put_tile-AreSized :
    (c : CachedTile) (tiles : List CachedTile)
    → length c.content ≡ c.tile.size
    → AreSized tiles
    → AreSized (put_tile c tiles)
unfolding put_tile
put_tile-AreSized c [] one sized = (one, tt)
put_tile-AreSized c (d ∷ tiles) one (other, sized) =
    elim (Bool-cases (stands_at c.tile.x c.tile.y d)) [
      | inl here ↦ rw here (one, sized)
      | inr there ↦ rw there (other, put_tile-AreSized c tiles one sized)
    ]

store_tiles-AreSized :
    (revision : ℕ) (earlier tiles : List Tile) (content : Bytes) (cached : List CachedTile)
    → Divides (length content) earlier tiles
    → AreSized cached
    → AreSized (store_tiles revision tiles content cached)
unfolding store_tiles
store_tiles-AreSized revision earlier [] content cached divides sized = sized
store_tiles-AreSized revision earlier (t ∷ tiles) content cached (first, fits, divides) sized =
    store_tiles-AreSized revision (t ∷ earlier) tiles (drop t.size content) _
      (rw (length-drop t.size content) divides)
      (put_tile-AreSized (record { tile = t; content = take t.size content; revision = revision })
        cached (length-take t.size content fits) sized)

-- What stands at a position after a frame is of that frame, or what stood there before.
store_tiles-tile_at :
    (revision x y : ℕ) (tiles : List Tile) (content : Bytes) (cached : List CachedTile)
    → (tile_at x y (store_tiles revision tiles content cached) ≡ tile_at x y cached)
      ⊎ ((c : CachedTile) × (tile_at x y (store_tiles revision tiles content cached) ≡ some c)
          × (c.revision ≡ revision))
unfolding store_tiles
store_tiles-tile_at revision x y [] content cached = inl refl
store_tiles-tile_at revision x y (t ∷ tiles) content cached =
    let c : CachedTile = record { tile = t; content = take t.size content; revision = revision } in
    let put = tile_at-put_tile x y c cached in
    elim (store_tiles-tile_at revision x y tiles (drop t.size content) (put_tile c cached)) [
      | inr new ↦ inr new
      | inl same_tile ↦ elim (Bool-cases (stands_at x y c)) [
        | inl here ↦ inr (c, same_tile ∙ put ∙ rw here refl, refl)
        | inr there ↦ inl (same_tile ∙ put ∙ rw there refl)
      ]
    ]

-- What a reader at revision `seen` shows is no older than the hub has it, or is going to be sent.
abbrev pub IsKnown : ℕ → Option CachedTile → Option (Tile × Bytes) → Type 0
IsKnown seen none w = w ≡ none
IsKnown seen (some c) w = (seen < c.revision) ⊎ (w ≡ some (c.tile, c.content))

-- The reader at revision `seen` of a hub.
pub record Follows (seen : ℕ) (v : View) (h : TileHub) : Type 0 where
  pub apart : AreApart h.tiles
  pub sized : AreSized h.tiles
  pub behind : seen ≤ h.revision
  pub reset_before : h.reset_at ≤ h.revision
  pub not_newer :
      (x y : ℕ) (c : CachedTile) → tile_at x y h.tiles ≡ some c → c.revision ≤ h.revision
  pub known : h.reset_at ≤ seen → (x y : ℕ) → IsKnown seen (tile_at x y h.tiles) (v x y)

-- A tile that is sent replaces what is shown, and one that is not was there already.
settle :
    (reset : Bool) (seen x y : ℕ) (o : Option CachedTile) (v : View)
    → (reset ≡ false → IsKnown seen o (v x y))
    → shown_or (wanted reset seen o) ((if reset then blank_view else v) x y) ≡ shown_or o none
settle true seen x y none v known = refl
settle false seen x y none v known = known refl
settle true seen x y (some c) v known =
    let needed : ((ltb seen c.revision || true) ≡ true) = ground arith in rw needed refl
settle false seen x y (some c) v known = elim (Bool-cases (ltb seen c.revision)) [
  | inl newer ↦ rw newer refl
  | inr older ↦ elim (known refl) [
    | inl newer ↦ absurd (ground arith)
    | inr shown_already ↦ rw older shown_already
  ]
]

-- A snapshot shows the present.
pub take_snapshot-held :
    (seen x y : ℕ) (v : View) (h : TileHub)
    → Follows seen v h
    → take_snapshot (snapshot seen h).0 v x y ≡ held h.tiles x y
unfolding take_snapshot snapshot
take_snapshot-held seen x y v h follows =
    let reset = ltb seen h.reset_at in
    let (apart, sized, selected) =
      select_tiles-wanted reset seen x y h.tiles follows.apart follows.sized in
    draw-tiles x y (select_tiles reset seen h.tiles) (if reset then blank_view else v) apart sized
    ∙ ap (λ (o : Option CachedTile). shown_or o ((if reset then blank_view else v) x y)) selected
    ∙ settle reset seen x y (tile_at x y h.tiles) v (λ past. follows.known (ground arith) x y)

-- The cache into which the tiles of a frame go, and the revision of the last reset.
start :
    (reset : Bool) (seen revision : ℕ) (v : View) (h : TileHub)
    → h.revision < revision
    → Follows seen v h
    → (let cached = if reset then [] else h.tiles in
        let reset_at = if reset then revision else h.reset_at in
        AreApart cached
        × AreSized cached
        × (reset_at ≤ revision)
        × ((x y : ℕ) (c : CachedTile) → tile_at x y cached ≡ some c → c.revision ≤ revision)
        × (reset_at ≤ seen → (x y : ℕ) → IsKnown seen (tile_at x y cached) (v x y)))
unfolding tile_at
start true seen revision v h next follows = (
  tt,
  tt,
  omega arith,
  λ x y c e. absurd (ground arith),
  λ past. absurd (omega (arith, follows.behind)),
)
start false seen revision v h next follows = (
  follows.apart,
  follows.sized,
  omega (arith, follows.reset_before),
  λ x y c e. omega (arith, follows.not_newer x y c e),
  follows.known,
)

keep_frame-revision :
    (f : HubFrame) (content : Bytes) (retained : ℕ) (h : TileHub)
    → h.revision + 1 < 2 ^ 64
    → (keep_frame f content retained h).revision ≤ h.revision + 1
unfolding keep_frame
keep_frame-revision f content retained h room = omega arith

keep_frame-Follows :
    (seen : ℕ) (v : View) (f : HubFrame) (content : Bytes) (retained : ℕ) (h : TileHub)
    → Divides (length content) [] f.picture.tiles
    → h.revision + 1 < 2 ^ 64
    → Follows seen v h
    → Follows seen v (keep_frame f content retained h)
unfolding keep_frame
keep_frame-Follows seen v f content retained h divides room follows =
    let revision = (h.revision + 1) % 2 ^ 64 in
    let next : (revision ≡ h.revision + 1) = omega arith in
    let cached = if f.reset then [] else h.tiles in
    let (apart, sized, reset_before, not_newer, known) =
      start f.reset seen revision v h (omega arith) follows in
    record {
      apart = store_tiles-AreApart revision f.picture.tiles content cached apart;
      sized = store_tiles-AreSized revision [] f.picture.tiles content cached divides sized;
      behind = omega (arith, follows.behind);
      reset_before = reset_before;
      not_newer = λ x y c e.
          elim (store_tiles-tile_at revision x y f.picture.tiles content cached) [
            | inr (c', e', new) ↦ let same_revision : (c.revision ≡ c'.revision) = cc in omega arith
            | inl same_tile ↦ not_newer x y c (sym same_tile ∙ e)
          ];
      known = λ past x y. elim (store_tiles-tile_at revision x y f.picture.tiles content cached) [
        | inr (c', e', new) ↦ rw e' (inl (omega (arith, follows.behind)))
        | inl same_tile ↦ rw same_tile (known past x y)
      ];
    }

pub publish-revision :
    (call : Call) (h : TileHub)
    → h.revision + 1 < 2 ^ 64
    → (publish call.frame call.content call.legacy h).1.revision ≤ h.revision + 1
publish-revision call h room =
    publish_cases (λ (r : Option PublishError × TileHub). r.1.revision ≤ h.revision + 1) call.frame
      call.content call.legacy h (λ e. omega arith)
      (λ valid limit. keep_frame-revision call.frame call.content _ h room)

pub publish-Follows :
    (seen : ℕ) (v : View) (call : Call) (h : TileHub)
    → IsSlice call
    → h.revision + 1 < 2 ^ 64
    → Follows seen v h
    → Follows seen v (publish call.frame call.content call.legacy h).1
publish-Follows seen v call h (words, short) room follows =
    publish_cases (λ (r : Option PublishError × TileHub). Follows seen v r.1) call.frame
      call.content call.legacy h (λ e. follows)
      (λ valid limit.
        keep_frame-Follows seen v call.frame call.content _ h
          (validate-Divides call.frame.picture (length call.content) short words valid) room
          follows)
