-- ===== src/Viewer/Tests.antt =====
-- The theorems about internal/viewerapp at concrete inputs.
use yudesk.Base.{◌≡◌, true, false, List, [], ◌∷◌, arith}
use yudesk.Stream.Tiles.{Tile, Mime}
use yudesk.Viewer.Tiles.{HubFrame, new_tile_hub}
use yudesk.Viewer.Budget.{Call, IsWithinBudget, publishes, publishes-IsWithinBudget}
use yudesk.Viewer.Union.{held}
use yudesk.Viewer.Reader.{Event, published, polled, watch, new_watch, poll, poll-watch}

abbrev left_tile : Tile
left_tile = record { x = 0; y = 0; width = 256; height = 200; size = 2; mime = Mime.png }

abbrev right_tile : Tile
right_tile = record { x = 256; y = 0; width = 44; height = 200; size = 1; mime = Mime.jpeg }

-- A keyframe of two tiles, and a frame that changes the right one.
abbrev keyframe : HubFrame
keyframe = record {
  picture = record { width = 300; height = 200; tiles = left_tile ∷ right_tile ∷ [] };
  source_width = 600;
  source_height = 400;
  reset = true;
}

abbrev change : HubFrame
change = record keyframe {
  picture = record keyframe.picture { tiles = right_tile ∷ [] };
  reset = false;
}

abbrev first_call : Call
first_call = record { frame = keyframe; content = 1 ∷ 2 ∷ 3 ∷ []; legacy = false }

abbrev second_call : Call
second_call = record { frame = change; content = 9 ∷ []; legacy = false }

publishes-IsWithinBudget_example :
    IsWithinBudget (publishes (second_call ∷ first_call ∷ second_call ∷ []) new_tile_hub)
publishes-IsWithinBudget_example =
    publishes-IsWithinBudget (second_call ∷ first_call ∷ second_call ∷ []) (
      ((omega arith, tt), omega arith),
      (((omega arith, (omega arith, tt)), omega arith), (((omega arith, tt), omega arith), tt)),
    )

abbrev story : List Event
story = published first_call ∷ polled ∷ published second_call ∷ published second_call ∷ []

poll-watch_example : let w = watch story new_watch in (poll w).view 256 0 ≡ held w.hub.tiles 256 0
poll-watch_example =
    poll-watch story 256 0
      (
        ((omega arith, (omega arith, tt)), omega arith),
        (((omega arith, tt), omega arith), (((omega arith, tt), omega arith), tt)),
      )
      (omega arith)
