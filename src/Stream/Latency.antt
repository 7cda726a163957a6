-- ===== src/Stream/Latency.antt =====
-- internal/stream/latency.go: LatencyController. Durations are in nanoseconds and not negative; `none`
-- is the zero time. FlightWindow computes with floating point and is left out.
use yudesk.Base.{
  ℕ, ◌+◌, ◌-◌, ◌*◌, ◌/◌, Bool, false, ◌&&◌, ◌||◌, Option, none, some, List, [], ◌∷◌, min, max, ltb,
  leb, ◌==◌, if◌then◌else◌,
}

pub record LatencyController : Type 0 where
  pub baseline : ℕ
  pub rtt : ℕ
  pub last_change : Option ℕ
  pub bad : ℕ
  pub good : ℕ
  pub quality : ℕ
  pub width : ℕ
  pub max_quality : ℕ
  pub max_width : ℕ

abbrev pub millisecond : ℕ
millisecond = 1_000_000

-- `NewLatencyController`, on the quality and the width of the options
unfoldable pub new_latency_controller : ℕ → ℕ → LatencyController
new_latency_controller quality width = record {
  baseline = 0;
  rtt = 0;
  last_change = none;
  bad = 0;
  good = 0;
  quality = quality;
  width = width;
  max_quality = quality;
  max_width = width;
}

-- `Ack`
unfoldable pub ack : ℕ → LatencyController → LatencyController
ack rtt c = if rtt == 0 then c else record c {
  baseline = if c.baseline == 0 || ltb rtt c.baseline then rtt else c.baseline;
  rtt = if c.rtt == 0 then rtt else (c.rtt * 3 + rtt) / 4;
}

-- `QueueDelay`
unfoldable pub queue_delay : LatencyController → ℕ
queue_delay c = c.rtt - c.baseline

-- `c.bad` and `c.good` after the first test of `Update`.
unfoldable pub judge : ℕ → ℕ → LatencyController → LatencyController
unfolding queue_delay
judge cost budget c =
    if ltb (40 * millisecond) (queue_delay c) || ltb (budget * 3 / 2) cost
    then record c { bad = c.bad + 1; good = 0 }
    else record c { good = c.good + 1; bad = 0 }

-- `!c.lastChange.IsZero() && now.Sub(c.lastChange) < time.Second`
unfoldable pub too_soon : ℕ → Option ℕ → Bool
too_soon now none = false
too_soon now (some at) = ltb (now - at) (1000 * millisecond)

-- `if width == 0 || width > sourceWidth { width = sourceWidth }`
abbrev pub within : ℕ → ℕ → ℕ
within width source_width = if width == 0 || ltb source_width width then source_width else width

unfoldable pub lowered : ℕ → ℕ → ℕ → ℕ → LatencyController → LatencyController
unfolding queue_delay
lowered now cost budget source_width c =
    let quality = max (min 45 c.max_quality) (c.quality - 8) in
    let narrows =
      leb quality 61 || ltb (100 * millisecond) (queue_delay c) || ltb (budget * 3) cost in
    record c {
      quality = quality;
      width =
          if narrows
          then max (min 640 source_width) (within c.width source_width * 4 / 5)
          else c.width;
      last_change = some now;
      bad = 0;
      good = 0;
    }

unfoldable pub raised : ℕ → ℕ → LatencyController → LatencyController
raised now source_width c = record c {
  quality = min c.max_quality (c.quality + 2);
  width = if ltb 0 c.width then min (within c.max_width source_width) (c.width + 160) else c.width;
  last_change = some now;
  good = 0;
}

-- `Update` from the test of the last change on.
unfoldable pub adjust : ℕ → ℕ → ℕ → ℕ → LatencyController → LatencyController
unfolding too_soon lowered raised queue_delay
adjust now cost budget source_width c =
    if too_soon now c.last_change
    then c
    else if leb 3 c.bad
    then lowered now cost budget source_width c
    else if leb 150 c.good && ltb (queue_delay c) (15 * millisecond) && ltb cost budget
    then raised now source_width c
    else c

unfoldable pub update_controller : ℕ → ℕ → ℕ → ℕ → LatencyController → LatencyController
unfolding judge adjust
update_controller now cost budget source_width c =
    adjust now cost budget source_width (judge cost budget c)

pub data Event : Type 0 where
  acks : ℕ → Event
  updates : ℕ → ℕ → ℕ → ℕ → Event

-- The controller after events, the newest first.
unfoldable pub controlled : List Event → LatencyController → LatencyController
unfolding ack update_controller
controlled [] c = c
controlled (acks rtt ∷ es) c = ack rtt (controlled es c)
controlled (updates now cost budget source_width ∷ es) c =
    update_controller now cost budget source_width (controlled es c)
