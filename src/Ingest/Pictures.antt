-- ===== src/Ingest/Pictures.antt =====
-- manager/ingest/mapping.py: frameRates and sampleSummary, what the samples say of the picture.
pub mod States
use sipmedia_gw.Prelude.{
  ℕ, zero, suc, String, ◌==◌, Bool, true, false, not, ◌&&◌, ◌||◌, Option, none, some, List, [], ◌∷◌,
  length, eqb, if◌then◌else◌,
}
use sipmedia_gw.Text.{strip, is_empty}
use sipmedia_gw.Ingest.Values.{
  ℤ, pos, less, Json, null, bool, whole, real, text, list, object, Items, no_items, item, Fields,
  get, Floats, int_of, obj,
}

-- Python's floats, as far as the rates need them: _float, 0, a difference, whether it is above 0, the
-- quotient of the frames between two counters rounded to one place, a comparison with LOW_FPS, the
-- least of two, the rounded sum of a list, and the text of a value that is not one.
pub record Numbers (F : Type 0) : Type 0 where
  pub float : Json → Option F
  pub nought : F
  pub minus : F → F → F
  pub is_positive : F → Bool
  pub frames : ℤ → ℤ → F → F
  pub is_low : F → Bool
  pub least : F → F → F
  pub rounded_sum : List F → ℤ
  pub spelled : Json → String

pub record Interval (F : Type 0) : Type 0 where
  pub at : Option F
  pub seconds : F
  pub rx : Option F
  pub tx : Option F
  pub presentation : Bool

pub record Summary (F : Type 0) : Type 0 where
  pub min_rx_fps : Option F
  pub low_intervals : Option ℕ
  pub keyframe_requests : Option ℤ
  pub presentation_s : Option ℤ
  pub video_state : Option String

module _ {F : Type 0} (io : Floats) (num : Numbers F) where
  abbrev pub or_nought : Option F → F
  or_nought none = num.nought
  or_nought (some x) = x

  abbrev pub is_object : Json → Bool
  is_object null = false
  is_object (bool b) = false
  is_object (whole z) = false
  is_object (real s) = false
  is_object (text s) = false
  is_object (list xs) = false
  is_object (object d) = true

  -- The object, where there is one with a video object.
  abbrev pub point_of : Json → List Fields → List Fields
  point_of null rest = rest
  point_of (bool b) rest = rest
  point_of (whole z) rest = rest
  point_of (real s) rest = rest
  point_of (text s) rest = rest
  point_of (list xs) rest = rest
  point_of (object d) rest = if is_object (get "video" d) then d ∷ rest else rest

  unfoldable pub points_of : Items → List Fields
  unfolding get
  points_of no_items = []
  points_of (item v xs) = point_of v (points_of xs)

  -- _points, `none` for what Python cannot go over.
  unfoldable pub points : Json → Option (List Fields)
  unfolding points_of
  points null = some []
  points (bool b) = if b then none else some []
  points (whole (pos zero)) = some []
  points (whole z) = none
  points (real s) = if io.is_zero s then some [] else none
  points (text s) = some []
  points (list xs) = some (points_of xs)
  points (object d) = some []

  -- _part
  unfoldable pub part : String → Fields → Fields
  unfolding get
  part name sample = obj (get name (obj (get "video" sample)))

  -- _text(value) or PLACEHOLDER_SOURCE
  abbrev pub or_placeholder : String → String
  or_placeholder s = if is_empty s then "fakevideo" else s

  unfoldable pub source_of : Json → String
  unfolding strip
  source_of null = "fakevideo"
  source_of (text s) = or_placeholder (strip s)
  source_of (bool b) = or_placeholder (strip (num.spelled (bool b)))
  source_of (whole z) = or_placeholder (strip (num.spelled (whole z)))
  source_of (real s) = or_placeholder (strip (num.spelled (real s)))
  source_of (list xs) = or_placeholder (strip (num.spelled (list xs)))
  source_of (object d) = or_placeholder (strip (num.spelled (object d)))

  abbrev pub between : Option ℤ → Option ℤ → F → Option F
  between none stop seconds = none
  between (some start) none seconds = none
  between (some start) (some stop) seconds = some (num.frames start stop seconds)

  abbrev pub or_zero : Option ℤ → ℤ
  or_zero none = pos 0
  or_zero (some z) = z

  unfoldable pub rate : String → Fields → Fields → F → Option F
  unfolding get int_of part
  rate key before after seconds =
      between (int_of io (get key (part "main" before))) (int_of io (get key (part "main" after)))
        seconds

  unfoldable pub is_presenting : Fields → Fields → Bool
  unfolding get int_of part less source_of
  is_presenting before after =
      not (source_of (get "source" (part "slides" after)) == "fakevideo")
      || less (or_zero (int_of io (get "rxFrames" (part "slides" before))))
          (or_zero (int_of io (get "rxFrames" (part "slides" after))))

  abbrev pub elapsed : Fields → Fields → F
  elapsed before after =
      num.minus (or_nought (num.float (get "seconds" after)))
        (or_nought (num.float (get "seconds" before)))

  -- frameRates, on the points.
  unfoldable pub frame_rates : List Fields → List (Interval F)
  unfolding get rate is_presenting
  frame_rates [] = []
  frame_rates (before ∷ []) = []
  frame_rates (before ∷ after ∷ later) =
      let rest = frame_rates (after ∷ later) in
      let seconds = elapsed before after in
      if num.is_positive seconds
      then record {
        at = num.float (get "seconds" after);
        seconds = seconds;
        rx = rate "rxFrames" before after seconds;
        tx = rate "txFrames" before after seconds;
        presentation = is_presenting before after;
      }
        ∷ rest
      else rest

  abbrev pub and_rate : Option F → List F → List F
  and_rate none rest = rest
  and_rate (some x) rest = x ∷ rest

  unfoldable pub rates : List (Interval F) → List F
  rates [] = []
  rates (entry ∷ rest) = and_rate entry.rx (rates rest)

  unfoldable pub presented : List (Interval F) → List F
  presented [] = []
  presented (entry ∷ entries) =
      let rest = presented entries in if entry.presentation then entry.seconds ∷ rest else rest

  unfoldable pub count_low : List F → ℕ
  count_low [] = 0
  count_low (x ∷ xs) = let rest = count_low xs in if num.is_low x then suc rest else rest

  unfoldable pub minimum : F → List F → F
  minimum x [] = x
  minimum x (y ∷ ys) = minimum (num.least x y) ys

  unfoldable pub last_point : Fields → List Fields → Fields
  last_point x [] = x
  last_point x (y ∷ ys) = last_point y ys

  abbrev pub state_of : ℕ → ℕ → String
  state_of low measured =
      if eqb low 0 then "ok" else if eqb low measured then "no_picture" else "stalled"

  abbrev pub or_state : Option String → String → Option String
  or_state none state = some state
  or_state (some s) state = some s

  -- (direction or {}).get("video") in ("sendonly", "recvonly")
  unfoldable pub one_way : Option String → Option String
  one_way none = none
  one_way (some d) = if d == "sendonly" || d == "recvonly" then some "oneway" else none

  abbrev pub rated : Summary F → List F → Summary F
  rated summary [] = summary
  rated summary (x ∷ xs) = record summary {
    min_rx_fps = some (minimum x xs);
    low_intervals = some (count_low (x ∷ xs));
    video_state = or_state summary.video_state (state_of (count_low (x ∷ xs)) (length (x ∷ xs)));
  }

  abbrev pub with_points : Option String → List Fields → Summary F
  with_points direction [] = record {
    min_rx_fps = none;
    low_intervals = none;
    keyframe_requests = none;
    presentation_s = none;
    video_state = one_way direction;
  }
  with_points direction (p ∷ ps) =
      rated
        (record {
          min_rx_fps = none;
          low_intervals = none;
          keyframe_requests = int_of io (get "rxPicup" (part "main" (last_point p ps)));
          presentation_s = some (num.rounded_sum (presented (frame_rates (p ∷ ps))));
          video_state = one_way direction;
        })
        (rates (frame_rates (p ∷ ps)))

  -- sampleSummary, with the video entry of the direction.
  unfoldable pub sample_summary : Json → Option String → Option (Summary F)
  unfolding points frame_rates rates presented count_low minimum last_point one_way part int_of get
  sample_summary samples direction = elim (points samples) [
    | none ↦ none
    | some ps ↦ some (with_points direction ps)
  ]
