-- ===== src/Scaler/Tests.antt =====
-- deploy/scaler/src: concrete scalings.
use sipmedia_gw.Prelude.{ℕ, refl, String, Bool, false, Option, none, some, [], ◌∷◌}
use sipmedia_gw.Proxy.Entry.{str}
use sipmedia_gw.Scaler.{Entry, Slot, scale, sort_desc, up_scale, down_scale}
use sipmedia_gw.Scaler.Capacity.{Enough, up_scale-Enough, Bounded, scale-Bounded}
use sipmedia_gw.Scaler.Slots.{Line}
use sipmedia_gw.Prelude.{◌==◌, if◌then◌else◌}
use sipmedia_gw.Scaler.Stopping.{Stopped, down_scale-Stopped}

-- The kinds sort as texts, so that the last one tried has 16 CPUs.
up_scale-Enough_example : Enough (sort_desc ("4" ∷ "16" ∷ [])) 5 ("4" ∷ "16" ∷ [])
unfolding up_scale
up_scale-Enough_example = up_scale-Enough ("4" ∷ "16" ∷ []) 5 ("4" ∷ "16" ∷ []) refl

abbrev slot : Slot
slot = record { unlocked_min = 2; min_gw = 0; max_gw = 4; load_needs = λ n. n }

scale-Bounded_example :
    Bounded slot 5 1 (scale slot (some 1) 5 3)
    × Bounded slot 5 2 (scale slot (some 0) 5 3)
    × Bounded slot 5 2 (scale slot none 5 3)
scale-Bounded_example = scale-Bounded slot 0 5 3

abbrev idle : Entry
idle = ("gw_ip", str "10.0.0.3:80") ∷ ("gw_state", str "created") ∷ []

abbrev marked : Entry
marked =
    ("gw_ip", str "10.0.0.3:80")
    ∷ ("gw_state", str "stopping")
    ∷ ("start_time", str "2026-01-01T10:00:00")
    ∷ []

down_scale-Stopped_example :
    Stopped "2026-01-01T10:00:00" 1 (idle ∷ []) ("10.0.0.3" ∷ [], marked ∷ [])
unfolding down_scale
down_scale-Stopped_example =
    down_scale-Stopped "2026-01-01T10:00:00" (idle ∷ []) 1 ("10.0.0.3" ∷ [], marked ∷ []) refl

abbrev read : String → Option (Bool × ℕ)
read s = some (false, 3)

abbrev clock : String → ℕ
clock s = if s == "07:00:00" then 25200 else if s == "08:00:00" then 28800 else 0

abbrev day : Line
day = ("00:00:00", slot) ∷ ("07:00:00", slot) ∷ []
