-- ===== src/Ingest.antt =====
-- manager/ingest/mapping.py: the rows of the media of a call that a gateway has pushed.
pub mod Values
pub mod Cumulative
pub mod Repeats
pub mod Pictures
pub mod Calls
mod Tests
use sipmedia_gw.Prelude.{
  ℕ, zero, suc, ◌+◌, ◌*◌, ◌-◌, ◌%◌, String, Bool, true, false, not, ◌&&◌, ◌||◌, Option, none, some,
  List, [], ◌∷◌, ◌++◌, length, ltb, leb, eqb, if◌then◌else◌,
}
use sipmedia_gw.Ingest.Values.{
  ℤ, pos, less, Json, null, bool, whole, real, text, list, object, Items, no_items, item, Fields,
  no_fields, get, Floats, int_of, float_of, obj, objects,
}

pub record Row : Type 0 where
  pub media : String
  pub stream_index : ℤ
  pub direction : String
  pub packets : Option ℤ
  pub errors : Option ℤ
  pub packet_reports : Option ℤ
  pub avg_bitrate_kbps : Option String
  pub lost_packets : Option ℤ
  pub jitter_ms : Option String

-- `io` reads numbers, and `spelled` writes them.
module _ (io : Floats) (spelled : ℤ → String) where
  abbrev pub direction_rows : Json → String → ℤ → String → List Row
  direction_rows (object stats) media index direction =
      record {
        media = media;
        stream_index = index;
        direction = direction;
        packets = int_of io (get "packets" stats);
        errors = int_of io (get "errors" stats);
        packet_reports = int_of io (get "packetReports" stats);
        avg_bitrate_kbps = float_of io spelled (get "avgBitrateKbps" stats);
        lost_packets = int_of io (get "lostPackets" stats);
        jitter_ms = float_of io spelled (get "jitterMs" stats);
      }
      ∷ []
  direction_rows null media index direction = []
  direction_rows (bool b) media index direction = []
  direction_rows (whole z) media index direction = []
  direction_rows (real s) media index direction = []
  direction_rows (text s) media index direction = []
  direction_rows (list xs) media index direction = []

  -- _streamRows
  unfoldable pub stream_rows : Fields → String → ℤ → List Row
  unfolding get int_of float_of
  stream_rows block media index =
      direction_rows (get "tx" block) media index "tx"
      ++ direction_rows (get "rx" block) media index "rx"

  abbrev pub or_zero : Option ℤ → ℤ
  or_zero none = pos 0
  or_zero (some z) = z

  abbrev pub counter : Fields → String → String → ℤ
  counter stream direction key = or_zero (int_of io (get key (obj (get direction stream))))

  -- The four counters of a stream.
  unfoldable pub counters : Fields → List ℤ
  unfolding get int_of
  counters stream =
      counter stream "rx" "packets"
      ∷ counter stream "rx" "packetReports"
      ∷ counter stream "tx" "packets"
      ∷ counter stream "tx" "packetReports"
      ∷ []

  -- any(b < a for a, b in zip(before, after))
  unfoldable pub decreases : List ℤ → List ℤ → Bool
  unfolding less
  decreases [] bs = false
  decreases (a ∷ as') [] = false
  decreases (a ∷ as') (b ∷ bs) = less b a || decreases as' bs

  -- xs[0::2]; xs[1::2] is that of the rest.
  unfoldable pub every_other : List Fields → List Fields
  every_other [] = []
  every_other (x ∷ []) = x ∷ []
  every_other (x ∷ y ∷ xs) = x ∷ every_other xs

  abbrev pub tail : List Fields → List Fields
  tail [] = []
  tail (x ∷ xs) = xs

  -- No reading has a smaller counter than the one before.
  unfoldable pub never_decreases : List Fields → Bool
  unfolding counters decreases
  never_decreases [] = true
  never_decreases (x ∷ []) = true
  never_decreases (x ∷ y ∷ xs) =
      not (decreases (counters x) (counters y)) && never_decreases (y ∷ xs)

  unfoldable pub looks_cumulative : List Fields → Bool
  unfolding every_other never_decreases
  looks_cumulative video =
      if ltb (length video) 4 || eqb (length video % 2) 1
      then false
      else never_decreases (every_other video) && never_decreases (every_other (tail video))

  -- isRepeated, on the streams and on the samples where they are a list.
  unfoldable pub is_repeated_list : List Fields → Option ℕ → Bool
  unfolding looks_cumulative
  is_repeated_list video none = false
  is_repeated_list video (some samples) =
      if ltb (length video) 4
      then false
      else (not (eqb samples 0) && leb (2 * samples) (length video)) || looks_cumulative video

  unfoldable pub count_items : Items → ℕ
  count_items no_items = 0
  count_items (item v xs) = suc (count_items xs)

  abbrev pub samples_of : Json → Option ℕ
  samples_of (list xs) = some (count_items xs)
  samples_of (object d) = none
  samples_of null = none
  samples_of (bool b) = none
  samples_of (whole z) = none
  samples_of (real s) = none
  samples_of (text s) = none

  -- The streams of mediaStats.video: `none` for a number, over which Python cannot go.
  abbrev pub streams_of : Json → Option (List Fields)
  streams_of (list xs) = some (objects xs)
  streams_of (object d) = some (d ∷ [])
  streams_of null = some []
  streams_of (bool true) = none
  streams_of (bool false) = some []
  streams_of (whole (pos zero)) = some []
  streams_of (whole z) = none
  streams_of (real s) = if io.is_zero s then some [] else none
  streams_of (text s) = some []

  -- isRepeated: the entries are readings, again and again, and not streams.
  unfoldable pub is_repeated : Fields → Option Bool
  unfolding get is_repeated_list count_items objects
  is_repeated stats = elim (get "video" stats) [
    | object d ↦ some false
    | list xs ↦ some (is_repeated_list (objects xs) (samples_of (get "samples" stats)))
    | v ↦ elim (streams_of v) [
      | none ↦ none
      | some video ↦ some (is_repeated_list video (samples_of (get "samples" stats)))
    ]
  ]

  -- list(enumerate(video)), from a position on
  unfoldable pub numbered : ℕ → List Fields → List (ℤ × Fields)
  numbered n [] = []
  numbered n (stream ∷ rest) = (pos n, stream) ∷ numbered (suc n) rest

  abbrev pub index_or : ℕ → Option ℤ → ℤ
  index_or n none = pos n
  index_or n (some z) = z

  -- The entries under their own index, and under their position where they have none.
  unfoldable pub indexed : ℕ → List Fields → List (ℤ × Fields)
  unfolding get int_of
  indexed n [] = []
  indexed n (stream ∷ rest) =
      (index_or n (int_of io (get "streamIndex" stream)), stream) ∷ indexed (suc n) rest

  -- xs[-2:]
  unfoldable pub last_two : List Fields → List Fields
  last_two [] = []
  last_two (x ∷ []) = x ∷ []
  last_two (x ∷ y ∷ []) = x ∷ y ∷ []
  last_two (x ∷ y ∷ z ∷ xs) = last_two (y ∷ z ∷ xs)

  abbrev pub entries : List Fields → Bool → List (ℤ × Fields)
  entries video repeated = if repeated then numbered 0 (last_two video) else indexed 0 video

  -- _videoEntries
  unfoldable pub video_entries : Fields → Option (List (ℤ × Fields))
  unfolding get is_repeated objects numbered indexed last_two
  video_entries stats = elim (streams_of (get "video" stats)) [
    | none ↦ none
    | some video ↦ elim (is_repeated stats) [
      | none ↦ none
      | some repeated ↦ some (entries video repeated)
    ]
  ]

  unfoldable pub video_rows : List (ℤ × Fields) → List Row
  unfolding stream_rows
  video_rows [] = []
  video_rows ((index, stream) ∷ rest) = stream_rows stream "video" index ++ video_rows rest

  -- mediaRows, `none` where it raises an error.
  unfoldable pub media_rows : Json → Option (List Row)
  unfolding get video_entries stream_rows video_rows
  media_rows value = elim (video_entries (obj value)) [
    | none ↦ none
    | some found ↦
        some (stream_rows (obj (get "audio" (obj value))) "audio" (pos 0) ++ video_rows found)
  ]
