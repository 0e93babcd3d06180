-- ===== src/Ingest/Repeats.antt =====
-- mediaRows of manager/ingest/mapping.py, for a payload that repeats its video statistics.
use sipmedia_gw.Prelude.{
  ℕ, ◌+◌, ◌*◌, ◌≤◌, ◌≡◌, refl, ◌∙◌, ap, String, Bool, true, false, not, ◌&&◌, ◌||◌, some, List, [],
  ◌∷◌, ◌++◌, length, length-append, ltb, leb, eqb, if◌then◌else◌, arith,
}
use sipmedia_gw.Ingest.Values.{ℤ, pos, list, object, Items, Fields, get, Floats, obj, objects}
use sipmedia_gw.Ingest.{
  stream_rows, is_repeated_list, count_items, is_repeated, numbered, last_two, video_entries,
  video_rows, media_rows, looks_cumulative,
}

module _ (io : Floats) (spelled : ℤ → String) where
  last_two-append :
      (front : List Fields) (a b : Fields) → last_two io spelled (front ++ a ∷ b ∷ []) ≡ a ∷ b ∷ []
  unfolding last_two
  last_two-append [] a b = refl
  last_two-append (x ∷ []) a b = refl
  last_two-append (x ∷ y ∷ []) a b = refl
  last_two-append (x ∷ y ∷ z ∷ front) a b = last_two-append (y ∷ z ∷ front) a b

  enough :
      (len n : ℕ) (c : Bool)
      → 1 ≤ n
      → len ≡ 2 * n + 2
      → (if ltb len 4 then false else (not (eqb n 0) && leb (2 * n) len) || c) ≡ true
  enough len n c some_sample counted = ground arith

  is_repeated_list-enough :
      (front : List Fields) (a b : Fields) (n : ℕ)
      → 1 ≤ n
      → length front ≡ 2 * n
      → is_repeated_list io spelled (front ++ a ∷ b ∷ []) (some n) ≡ true
  unfolding is_repeated_list
  is_repeated_list-enough front a b n some_sample counted =
      enough (length (front ++ a ∷ b ∷ [])) n (looks_cumulative io spelled (front ++ a ∷ b ∷ []))
        some_sample (length-append front (a ∷ b ∷ []) ∙ ap (λ k. k + 2) counted)

  -- A payload with n samples, one at least, whose video statistics were written again for each of
  -- them, and so hold 2 n + 2 streams, is stored as its audio and the last two streams alone, the
  -- camera under 0 and the presentation under 1, whatever indices they carry.
  pub media_rows-last_two :
      (stats : Fields) (video samples : Items) (front : List Fields) (a b : Fields)
      → get "video" stats ≡ list video
      → get "samples" stats ≡ list samples
      → objects video ≡ front ++ a ∷ b ∷ []
      → 1 ≤ count_items io spelled samples
      → length front ≡ 2 * count_items io spelled samples
      → media_rows io spelled (object stats)
        ≡ some (
            stream_rows io spelled (obj (get "audio" stats)) "audio" (pos 0)
            ++ (stream_rows io spelled a "video" (pos 0)
                ++ (stream_rows io spelled b "video" (pos 1) ++ [])))
  unfolding media_rows video_entries is_repeated video_rows numbered
  media_rows-last_two stats video samples front a b is_video is_samples streams some_sample
        counted =
      rw (
        media_rows,
        video_entries,
        is_video,
        is_repeated,
        is_video,
        is_samples,
        streams,
        is_repeated_list-enough front a b (count_items io spelled samples) some_sample counted,
        last_two-append front a b,
      )
