-- ===== src/Stream/Bounds.antt =====
-- The controller stays between what it may fall to and what the viewer asked for.
use yudesk.Base.{
  ℕ, ◌*◌, ◌/◌, ◌≡◌, ◌≤◌, ◌<◌, refl, Bool, true, ◌&&◌, ◌||◌, List, [], ◌∷◌, min, max, arith, ltb,
  leb, ◌==◌, Bool-cases, &&-eq-true, inl, inr,
}
use yudesk.Stream.Latency.{
  LatencyController, new_latency_controller, ack, judge, too_soon, within, lowered, raised, adjust,
  Event, acks, updates, controlled, queue_delay,
}

-- The limits are the viewer's, the quality and the width are within them, and the width is not 0.
pub record IsBounded (quality width : ℕ) (c : LatencyController) : Type 0 where
  pub same_quality : c.max_quality ≡ quality
  pub same_width : c.max_width ≡ width
  pub quality_floor : min 45 quality ≤ c.quality
  pub quality_limit : c.quality ≤ quality
  pub width_floor : 0 < c.width
  pub width_limit : c.width ≤ width

-- Every picture has a width.
abbrev pub all_wide : List Event → Bool
all_wide [] = true
all_wide (acks rtt ∷ es) = all_wide es
all_wide (updates now cost budget source_width ∷ es) = ltb 0 source_width && all_wide es

lowered_width :
    (w source limit : ℕ)
    → 0 < w
    → w ≤ limit
    → 640 ≤ limit
    → 0 < source
    → max (min 640 source) (within w source * 4 / 5) ≤ limit
lowered_width w source limit a b c d = ground arith

lowered_wide : (w source : ℕ) → 0 < source → 0 < max (min 640 source) (within w source * 4 / 5)
lowered_wide w source d = omega arith

lowered-IsBounded :
    (now cost budget source : ℕ) (c : LatencyController) {quality width : ℕ}
    → 0 < source
    → 640 ≤ width
    → IsBounded quality width c
    → IsBounded quality width (lowered now cost budget source c)
unfolding lowered
lowered-IsBounded now cost budget source c wide limit b = record {
  same_quality = b.same_quality;
  same_width = b.same_width;
  quality_floor = omega arith;
  quality_limit = omega arith;
  width_floor = ground (arith, lowered_wide c.width source wide);
  width_limit =
      ground (arith, lowered_width c.width source _ b.width_floor b.width_limit limit wide);
}

raised-IsBounded :
    (now source : ℕ) (c : LatencyController) {quality width : ℕ}
    → 0 < source
    → 640 ≤ width
    → IsBounded quality width c
    → IsBounded quality width (raised now source c)
unfolding raised
raised-IsBounded now source c wide limit b = record {
  same_quality = b.same_quality;
  same_width = b.same_width;
  quality_floor = omega arith;
  quality_limit = omega arith;
  width_floor = ground arith;
  width_limit = ground arith;
}

judge-IsBounded :
    (cost budget : ℕ) (c : LatencyController) {quality width : ℕ}
    → IsBounded quality width c
    → IsBounded quality width (judge cost budget c)
unfolding judge
judge-IsBounded cost budget c b =
    elim (Bool-cases (ltb 40_000_000 (queue_delay c) || ltb (budget * 3 / 2) cost)) [
      | inl slow ↦ rw slow (record {
        same_quality = b.same_quality;
        same_width = b.same_width;
        quality_floor = b.quality_floor;
        quality_limit = b.quality_limit;
        width_floor = b.width_floor;
        width_limit = b.width_limit;
      })
      | inr fast ↦ rw fast (record {
        same_quality = b.same_quality;
        same_width = b.same_width;
        quality_floor = b.quality_floor;
        quality_limit = b.quality_limit;
        width_floor = b.width_floor;
        width_limit = b.width_limit;
      })
    ]

ack-IsBounded :
    (rtt : ℕ) (c : LatencyController) {quality width : ℕ}
    → IsBounded quality width c
    → IsBounded quality width (ack rtt c)
unfolding ack
ack-IsBounded rtt c b = elim (Bool-cases (rtt == 0)) [
  | inl zero_rtt ↦ rw zero_rtt (record {
    same_quality = b.same_quality;
    same_width = b.same_width;
    quality_floor = b.quality_floor;
    quality_limit = b.quality_limit;
    width_floor = b.width_floor;
    width_limit = b.width_limit;
  })
  | inr real ↦ rw real (record {
    same_quality = b.same_quality;
    same_width = b.same_width;
    quality_floor = b.quality_floor;
    quality_limit = b.quality_limit;
    width_floor = b.width_floor;
    width_limit = b.width_limit;
  })
]

adjust_cases :
    (P : LatencyController → Type 0) (now cost budget source : ℕ) (c : LatencyController)
    → P c
    → P (lowered now cost budget source c)
    → P (raised now source c)
    → P (adjust now cost budget source c)
unfolding adjust
adjust_cases P now cost budget source c stays falls rises =
    elim (Bool-cases (too_soon now c.last_change)) [
      | inl soon ↦ rw soon stays
      | inr later ↦ elim (Bool-cases (leb 3 c.bad)) [
        | inl bad ↦ rw (later, bad) falls
        | inr fine ↦
            elim (Bool-cases
              (leb 150 c.good && ltb (queue_delay c) 15_000_000 && ltb cost budget)) [
                | inl good ↦ rw (later, fine, good) rises
                | inr not_good ↦ rw (later, fine, not_good) stays
              ]
      ]
    ]

adjust-IsBounded :
    (now cost budget source : ℕ) (c : LatencyController) {quality width : ℕ}
    → 0 < source
    → 640 ≤ width
    → IsBounded quality width c
    → IsBounded quality width (adjust now cost budget source c)
adjust-IsBounded now cost budget source c {quality} {width} wide limit b =
    adjust_cases (λ x. IsBounded quality width x) now cost budget source c b
      (lowered-IsBounded now cost budget source c wide limit b)
      (raised-IsBounded now source c wide limit b)

controlled-IsBounded_from :
    (es : List Event) (c : LatencyController) {quality width : ℕ}
    → all_wide es ≡ true
    → 640 ≤ width
    → IsBounded quality width c
    → IsBounded quality width (controlled es c)
unfolding controlled
controlled-IsBounded_from [] c h limit b = b
controlled-IsBounded_from (acks rtt ∷ es) c h limit b =
    ack-IsBounded rtt (controlled es c) (controlled-IsBounded_from es c h limit b)
controlled-IsBounded_from (updates now cost budget source ∷ es) c h limit b =
    let both = &&-eq-true (ltb 0 source) (all_wide es) h in
    adjust-IsBounded now cost budget source (judge cost budget (controlled es c)) (ground arith)
      limit
      (judge-IsBounded cost budget (controlled es c)
        (controlled-IsBounded_from es c both.1 limit b))

-- Through any round trips and updates with pictures of a width above 0, a controller that starts from
-- a width limit of at least 640 keeps its limits, keeps the quality between the smaller of 45 and the
-- viewer's quality and the viewer's quality, and keeps the width above 0 and within the limit.
pub controlled-IsBounded :
    (quality width : ℕ) (es : List Event)
    → 640 ≤ width
    → all_wide es ≡ true
    → IsBounded quality width (controlled es (new_latency_controller quality width))
unfolding new_latency_controller
controlled-IsBounded quality width es limit h =
    controlled-IsBounded_from es (new_latency_controller quality width) h limit (record {
      same_quality = refl;
      same_width = refl;
      quality_floor = omega arith;
      quality_limit = omega arith;
      width_floor = omega arith;
      width_limit = omega arith;
    })
