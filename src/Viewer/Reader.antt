-- ===== src/Viewer/Reader.antt =====
-- The hub and one reader that asks it for snapshots, as a sequence of what happens to them.
use yudesk.Base.{
  ℕ, ◌+◌, ◌^◌, ◌<◌, ◌≡◌, refl, sym, subst, Option, none, some, List, [], ◌∷◌, arith, inr, length,
}
use yudesk.Protocol.Wire.{Bytes}
use yudesk.Stream.Tiles.{Tile}
use yudesk.Viewer.Tiles.{CachedTile, TileHub, new_tile_hub, tile_at, publish, snapshot}
use yudesk.Viewer.Budget.{Call, IsSlice}
use yudesk.Viewer.Union.{View, blank_view, held, shown_or, take_snapshot}
use yudesk.Viewer.Follow.{Follows, IsKnown, take_snapshot-held, publish-revision, publish-Follows}

shown_or-IsKnown : (seen : ℕ) (o : Option CachedTile) → IsKnown seen o (shown_or o none)
shown_or-IsKnown seen none = refl
shown_or-IsKnown seen (some c) = inr refl

-- A reader that shows what the hub holds now follows it from its revision on.
take_snapshot-Follows :
    (seen : ℕ) (v : View) (h : TileHub)
    → Follows seen v h
    → Follows h.revision (take_snapshot (snapshot seen h).0 v) h
take_snapshot-Follows seen v h follows = record {
  apart = follows.apart;
  sized = follows.sized;
  behind = omega arith;
  reset_before = follows.reset_before;
  not_newer = follows.not_newer;
  known = λ past x y.
      subst (λ (w : Option (Tile × Bytes)). IsKnown h.revision (tile_at x y h.tiles) w)
        (sym (take_snapshot-held seen x y v h follows))
        (shown_or-IsKnown h.revision (tile_at x y h.tiles));
}

-- What happens between a hub and one of its readers.
pub data Event : Type 0 where
  published : Call → Event
  polled : Event

-- The hub, the revision that the reader has seen, and what it shows.
pub record Watch : Type 0 where
  pub hub : TileHub
  pub seen : ℕ
  pub view : View

abbrev pub new_watch : Watch
new_watch = record { hub = new_tile_hub; seen = 0; view = blank_view }

-- The reader asks for what it has missed.
unfoldable pub poll : Watch → Watch
poll w =
    let (answer, revision) = snapshot w.seen w.hub in
    record w { seen = revision; view = take_snapshot answer w.view }

unfoldable pub watch : List Event → Watch → Watch
watch [] w = w
watch (published call ∷ events) w =
    watch events (record w { hub = (publish call.frame call.content call.legacy w.hub).1 })
watch (polled ∷ events) w = watch events (poll w)

abbrev pub SendSlices : List Event → Type 0
SendSlices [] = Unit
SendSlices (published call ∷ events) = IsSlice call × SendSlices events
SendSlices (polled ∷ events) = SendSlices events

watch-Follows :
    (events : List Event) (w : Watch)
    → SendSlices events
    → w.hub.revision + length events < 2 ^ 64
    → Follows w.seen w.view w.hub
    → Follows (watch events w).seen (watch events w).view (watch events w).hub
unfolding watch poll snapshot
watch-Follows [] w slices room follows = follows
watch-Follows (published call ∷ events) w (slice, slices) room follows =
    let step = publish-revision call w.hub (omega arith) in
    watch-Follows events _ slices (omega arith)
      (publish-Follows w.seen w.view call w.hub slice (omega arith) follows)
watch-Follows (polled ∷ events) w slices room follows =
    watch-Follows events (poll w) slices (omega arith)
      (take_snapshot-Follows w.seen w.view w.hub follows)

-- However a reader's requests come between the frames that are published, and however many frames it
-- has missed, after its next request it shows at every position exactly what the hub holds there, as
-- long as fewer than 2 ^ 64 things have happened.
pub poll-watch :
    (events : List Event) (x y : ℕ)
    → SendSlices events
    → length events < 2 ^ 64
    → let w = watch events new_watch in (poll w).view x y ≡ held w.hub.tiles x y
unfolding poll snapshot tile_at
poll-watch events x y slices room =
    let w = watch events new_watch in
    take_snapshot-held w.seen x y w.view w.hub (
      watch-Follows events new_watch slices (omega arith) (record {
        apart = tt;
        sized = tt;
        behind = omega arith;
        reset_before = omega arith;
        not_newer = λ x y c e. absurd (ground arith);
        known = λ past x y. refl;
      }))
