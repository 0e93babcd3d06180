-- ===== src/Ingest/Tests.antt =====
-- The rows of a payload on concrete inputs.
use sipmedia_gw.Prelude.{
  any, Option, if◌then◌else◌, ◌-◌, ◌/◌, ℕ, String, ◌≡◌, refl, true, false, not, ◌&&◌, arith, none,
  some, List, [], ◌∷◌, ◌++◌, length, eqb, ltb, ◌%◌,
}
use sipmedia_gw.Text.{skip_chars, strip, lstrip, rstrip, is_space, parse_nat}
use sipmedia_gw.Ingest.Values.{
  negsuc, Json, null, bool, real, ℤ, pos, less, whole, text, list, object, Items, no_items, item,
  Fields, no_fields, field, get, Floats, objects, int_of, python_int, in_limits,
}
use sipmedia_gw.Ingest.{
  counters, decreases, every_other, never_decreases, looks_cumulative, media_rows, stream_rows,
  count_items,
}
use sipmedia_gw.Ingest.Calls.{text_of, platform_of, is_platform_key, are_key_chars, call_row}
use sipmedia_gw.Ingest.Calls.Texts.{Stored, call_row-Stored}
use sipmedia_gw.Ingest.Cumulative.{grows, looks_cumulative-grows}
use sipmedia_gw.Ingest.Pictures.{
  Numbers, Summary, points, points_of, frame_rates, rates, rate, part, sample_summary,
}
use sipmedia_gw.Ingest.Pictures.States.{state_for, is_one_way, received, sample_summary-described}
use sipmedia_gw.Ingest.Repeats.{media_rows-last_two}

abbrev io : Floats
io = record { trunc = λ s. none; is_finite = λ s. true; is_zero = λ s. false; reads = λ s. some s }

abbrev spelled : ℤ → String
spelled z = "0.0"

abbrev stream : ℕ → ℕ → Fields
stream index packets =
    field "streamIndex" (whole (pos index))
      (field "rx" (object (field "packets" (whole (pos packets)) no_fields)) no_fields)

abbrev readings : List Fields
readings = stream 0 10 ∷ stream 1 0 ∷ stream 2 25 ∷ stream 3 0 ∷ []

looks_cumulative-grows_example :
    looks_cumulative io spelled readings
    ≡ not (ltb (length readings) 4) && (eqb (length readings % 2) 0 && grows io spelled readings)
looks_cumulative-grows_example = looks_cumulative-grows io spelled readings

readings_grow : looks_cumulative io spelled readings ≡ true
unfolding looks_cumulative never_decreases every_other decreases counters int_of python_int
    in_limits get less
readings_grow = refl

restarted :
    looks_cumulative io spelled (stream 0 10 ∷ stream 1 0 ∷ stream 2 3 ∷ stream 3 0 ∷ []) ≡ false
unfolding looks_cumulative never_decreases every_other decreases counters int_of python_int
    in_limits get less
restarted = refl

abbrev video : Items
video =
    item (object (stream 0 10)) (
      item (object (stream 1 0))
        (item (object (stream 2 25)) (item (object (stream 3 0)) no_items)))

abbrev samples : Items
samples = item (object no_fields) no_items

abbrev stats : Fields
stats =
    field "audio" (object no_fields)
      (field "video" (list video) (field "samples" (list samples) no_fields))

media_rows-last_two_example :
    media_rows io spelled (object stats)
    ≡ some (
        stream_rows io spelled no_fields "audio" (pos 0)
        ++ (stream_rows io spelled (stream 2 25) "video" (pos 0)
            ++ (stream_rows io spelled (stream 3 0) "video" (pos 1) ++ [])))
unfolding get objects count_items
media_rows-last_two_example =
    media_rows-last_two io spelled stats video samples (stream 0 10 ∷ stream 1 0 ∷ []) (stream 2 25)
      (stream 3 0) refl refl refl (omega arith) refl

largest : int_of io (text " 2147483647 ") ≡ some (pos 2147483647)
unfolding int_of python_int in_limits strip lstrip rstrip is_space parse_nat
largest = refl

too_large : int_of io (whole (pos 2147483648)) ≡ none
unfolding int_of python_int in_limits
too_large = refl

-- Whole numbers of frames and seconds, on samples ten seconds apart.
abbrev natural : ℤ → ℕ
natural (pos n) = n
natural (negsuc n) = 0

abbrev number_of : Json → Option ℕ
number_of null = none
number_of (bool b) = none
number_of (whole z) = some (natural z)
number_of (real s) = none
number_of (text s) = none
number_of (list xs) = none
number_of (object d) = none

abbrev whole_numbers : Numbers ℕ
whole_numbers = record {
  float = number_of;
  nought = 0;
  minus = λ a b. a - b;
  is_positive = λ n. not (eqb n 0);
  frames = λ start stop n. (natural stop - natural start) / n;
  is_low = λ n. ltb n 5;
  least = λ a b. if ltb b a then b else a;
  rounded_sum = λ xs. pos (length xs);
  spelled = λ v. "None";
}

abbrev sample : ℕ → ℕ → Fields
sample time frames = field "seconds" (whole (pos time)) (
    field "video"
      (object (field "main" (object (field "rxFrames" (whole (pos frames)) no_fields)) no_fields))
      no_fields)

abbrev taken : Items
taken =
    item (object (sample 0 0))
      (item (object (sample 10 250)) (item (object (sample 20 260)) no_items))

sample_summary-described_example :
    (summary : Summary ℕ) × (sample_summary io whole_numbers (list taken) none ≡ some summary)
    × (summary.video_state
        ≡ state_for io whole_numbers
            (is_one_way io whole_numbers none)
            (received io whole_numbers (sample 0 0 ∷ sample 10 250 ∷ sample 20 260 ∷ [])))
unfolding points points_of get
sample_summary-described_example =
    sample_summary-described io whole_numbers (list taken) none
      (sample 0 0 ∷ sample 10 250 ∷ sample 20 260 ∷ []) refl

measured :
    rates io whole_numbers
      (frame_rates io whole_numbers (sample 0 0 ∷ sample 10 250 ∷ sample 20 260 ∷ []))
    ≡ 25 ∷ 1 ∷ []
unfolding rates frame_rates rate get int_of python_int in_limits part
measured = refl

-- The state is told from a low rate that is followed by better ones.
recovered :
    state_for io whole_numbers (is_one_way io whole_numbers (some "sendrecv")) (1 ∷ 25 ∷ [])
    ≡ some "stalled"
unfolding state_for any
recovered = refl

abbrev unnamed : Json
unnamed = object (
    field "call"
      (object (
        field "room" (text "  ")
          (field "details" (object (field "callId" (text " 12ab ") no_fields)) no_fields)))
      no_fields)

abbrev instant : String → Option String
instant s = some s

call_row-Stored_example :
    Stored io whole_numbers instant (call_row io whole_numbers instant unnamed)
call_row-Stored_example = call_row-Stored io whole_numbers instant unnamed

identified : text_of io whole_numbers instant (text " 12ab ") ≡ some "12ab"
unfolding text_of strip lstrip rstrip is_space
identified = refl

no_platform : platform_of io whole_numbers instant (text "Error while browsing: Message") ≡ none
unfolding text_of is_platform_key are_key_chars skip_chars strip lstrip rstrip is_space
no_platform = refl
