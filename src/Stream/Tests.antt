-- ===== src/Stream/Tests.antt =====
-- The theorems about internal/stream at concrete inputs.
use yudesk.Base.{◌-◌, ◌^◌, ◌≡◌, refl, true, false, List, [], ◌∷◌, arith}
use yudesk.Stream.Options.{pos, negsuc, Options, Mode, normalized, IsNormal, normalized-IsNormal}
use yudesk.Stream.Latency.{Event, acks, updates, controlled, new_latency_controller}
use yudesk.Stream.Tiles.{Tile, TileFrame, Mime, validate}
use yudesk.Stream.Tiling.{validate-tiling, AreInside, total_size}
use yudesk.Stream.Bounds.{IsBounded, controlled-IsBounded}

abbrev asked : Options
asked = record {
  profile_version = pos 1;
  fps = pos 500;
  quality = negsuc 4;
  mode = Mode.unknown;
  max_width = pos 100;
  max_mbps = pos 20;
  save_idle = true;
  frame_ack = true;
  tile_delta = false;
}

normalized-IsNormal_example : IsNormal (normalized asked)
normalized-IsNormal_example = normalized-IsNormal asked

abbrev slow : List Event
slow =
    updates 3000 90 10 1920
    ∷ acks 200_000_000
    ∷ updates 2000 90 10 1920
    ∷ updates 1000 90 10 1920
    ∷ acks 10_000_000
    ∷ []

controlled-IsBounded_example : IsBounded 80 1600 (controlled slow (new_latency_controller 80 1600))
controlled-IsBounded_example = controlled-IsBounded 80 1600 slow (omega arith) refl

abbrev corner : Tile
corner = record { x = 256; y = 0; width = 44; height = 200; size = 7; mime = Mime.png }

abbrev picture : TileFrame
picture = record {
  width = 300;
  height = 200;
  tiles = record corner { x = 0; width = 256; size = 5 } ∷ corner ∷ [];
}

validate-tiling_example : AreInside 300 200 [] picture.tiles × (total_size picture.tiles ≡ 12)
unfolding validate
validate-tiling_example =
    validate-tiling picture 12 (omega arith) (omega arith) (omega arith)
      (
        (
          (omega arith, omega arith),
          (omega arith, omega arith),
          (omega arith, omega arith),
          (omega arith, omega arith),
          (omega arith, omega arith),
        ),
        (
          (
            (omega arith, omega arith),
            (omega arith, omega arith),
            (omega arith, omega arith),
            (omega arith, omega arith),
            (omega arith, omega arith),
          ),
          tt,
        ),
      )
      refl

-- A tile far outside is taken where the sum of its position and its width wraps round.
validate_wraps :
    validate (record picture { tiles = record corner { x = 2 ^ 63 - 1; size = 12 } ∷ [] }) 12 ≡ true
unfolding validate
validate_wraps = refl
