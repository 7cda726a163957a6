-- ===== src/Stream/Options.antt =====
-- internal/stream/options.go. The numbers come from a peer's JSON, so they have a sign.
use yudesk.Base.{
  ℕ, ◌≡◌, ◌≤◌, refl, Bool, false, min, max, arith, ◌==◌, if◌then◌else◌, Bool-cases, inl, inr, ◌⊎◌,
}

pub data ℤ : Type 0 where
  pos negsuc : ℕ → ℤ

unfoldable pub max_int : ℤ → ℤ → ℤ
max_int (pos a) (pos b) = pos (max a b)
max_int (pos a) (negsuc b) = pos a
max_int (negsuc a) (pos b) = pos b
max_int (negsuc a) (negsuc b) = negsuc (min a b)

unfoldable pub min_int : ℤ → ℤ → ℤ
min_int (pos a) (pos b) = pos (min a b)
min_int (pos a) (negsuc b) = negsuc b
min_int (negsuc a) (pos b) = negsuc a
min_int (negsuc a) (negsuc b) = negsuc (max a b)

abbrev pub is_zero : ℤ → Bool
is_zero (pos n) = n == 0
is_zero (negsuc n) = false

pub data Mode : Type 0 where
  fixed adaptive : Mode
  -- any other text
  unknown : Mode

pub record Options : Type 0 where
  pub profile_version : ℤ
  pub fps : ℤ
  pub quality : ℤ
  pub mode : Mode
  pub max_width : ℤ
  pub max_mbps : ℤ
  pub save_idle : Bool
  pub frame_ack : Bool
  pub tile_delta : Bool

-- `min(high, max(low, n))`
abbrev pub clamp : ℕ → ℕ → ℤ → ℤ
clamp low high n = min_int (pos high) (max_int (pos low) n)

abbrev pub known_mode : Mode → Mode
known_mode Mode.fixed = Mode.fixed
known_mode Mode.adaptive = Mode.adaptive
known_mode Mode.unknown = Mode.adaptive

-- `Normalized`
unfoldable pub normalized : Options → Options
unfolding min_int max_int
normalized o = record o {
  fps = clamp 1 60 o.fps;
  quality = clamp 30 90 o.quality;
  mode = known_mode o.mode;
  max_width = if is_zero o.max_width then o.max_width else clamp 640 3840 o.max_width;
  max_mbps = clamp 0 100 o.max_mbps;
}

abbrev pub IsBetween : ℕ → ℕ → ℤ → Type 0
IsBetween low high n = (m : ℕ) × (n ≡ pos m) × (low ≤ m) × (m ≤ high)

clamp-IsBetween : (low high : ℕ) (n : ℤ) → low ≤ high → IsBetween low high (clamp low high n)
unfolding min_int max_int
clamp-IsBetween low high (pos n) h = (min high (max low n), refl, omega arith, omega arith)
clamp-IsBetween low high (negsuc n) h = (min high low, refl, omega arith, omega arith)

-- What every viewer's options have once they are normalized.
pub record IsNormal (o : Options) : Type 0 where
  pub fps_range : IsBetween 1 60 o.fps
  pub quality_range : IsBetween 30 90 o.quality
  pub width_range : (o.max_width ≡ pos 0) ⊎ IsBetween 640 3840 o.max_width
  pub mbps_range : IsBetween 0 100 o.max_mbps

width-range :
    (n : ℤ)
    → let w : ℤ = if is_zero n then n else clamp 640 3840 n in (w ≡ pos 0) ⊎ IsBetween 640 3840 w
width-range (pos n) = elim (Bool-cases (n == 0)) [
  | inl none ↦ rw none (inl (ground arith))
  | inr some ↦ rw some (inr (clamp-IsBetween 640 3840 (pos n) (omega arith)))
]
width-range (negsuc n) = inr (clamp-IsBetween 640 3840 (negsuc n) (omega arith))

-- Whatever a peer asks for, the normalized options ask for 1 to 60 frames a second, a quality of 30 to
-- 90, a width of 0 (no limit) or 640 to 3840, and 0 to 100 Mbit/s.
pub normalized-IsNormal : (o : Options) → IsNormal (normalized o)
unfolding normalized
normalized-IsNormal o = record {
  fps_range = clamp-IsBetween 1 60 o.fps (omega arith);
  quality_range = clamp-IsBetween 30 90 o.quality (omega arith);
  width_range = width-range o.max_width;
  mbps_range = clamp-IsBetween 0 100 o.max_mbps (omega arith);
}
