-- ===== src/Ingest/Calls/Texts.antt =====
-- callRow of manager/ingest/mapping.py: the texts of a row.
use Prim.Native.String.{[], ◌∷◌}
use sipmedia_gw.Prelude.{
  String, ◌≡◌, refl, ap, Bool, true, false, not, Option, none, some, [], ◌∷◌, ◌++◌, All, Dict,
  Bool-cases, inl, inr, if◌then◌else◌, arith,
}
use sipmedia_gw.Text.{strip, is_empty, is_space, starts_clean, starts_clean-strip}
use sipmedia_gw.Outcome.{Outcome, ok, refuse, crash}
use sipmedia_gw.Ingest.Values.{
  Json, null, bool, whole, real, text, list, object, Fields, get, obj, Floats,
}
use sipmedia_gw.Ingest.Pictures.{Numbers, Summary, sample_summary}
use sipmedia_gw.Ingest.Calls.{
  or_none, is_platform_key, first_word, first_item, CallRow, text_of, if_key, word_of, codec_of,
  video_of, direction_of, media_texts, call_texts, row_of, row_of_call, call_row,
}

abbrev pub is_filled : Option String → Bool
is_filled none = true
is_filled (some s) = not (is_empty s)

-- A text that is not empty and begins with no space.
abbrev IsClean : Option String → Type 0
IsClean none = Unit
IsClean (some s) = (is_empty s ≡ false) × (starts_clean s ≡ true)

none_or :
    (empty : Bool) (s : String)
    → is_empty s ≡ empty
    → starts_clean s ≡ true
    → IsClean (if empty then none else some s)
none_or true s size clean = _
none_or false s size clean = (size, clean)

or_none-IsClean : (s : String) → IsClean (or_none (strip s))
or_none-IsClean s = none_or (is_empty (strip s)) (strip s) refl (starts_clean-strip s)

filled : (o : Option String) → IsClean o → is_filled o ≡ true
filled none clean = refl
filled (some s) (given, clean) = ap not given

first_word-filled :
    (s : String) → is_empty s ≡ false → starts_clean s ≡ true → not (is_empty (first_word s)) ≡ true
unfolding first_word
first_word-filled [] given clean = cc
first_word-filled (c ∷ s) given clean = elim (Bool-cases (is_space c)) [
  | inl space ↦ ground arith
  | inr other ↦ rw other refl
]

module _ {F : Type 0} (io : Floats) (num : Numbers F) (instant : String → Option String) where
  text_of-IsClean : (v : Json) → IsClean (text_of io num instant v)
  unfolding text_of
  text_of-IsClean null = _
  text_of-IsClean (text s) = or_none-IsClean s
  text_of-IsClean (bool b) = or_none-IsClean (num.spelled (bool b))
  text_of-IsClean (whole z) = or_none-IsClean (num.spelled (whole z))
  text_of-IsClean (real s) = or_none-IsClean (num.spelled (real s))
  text_of-IsClean (list xs) = or_none-IsClean (num.spelled (list xs))
  text_of-IsClean (object d) = or_none-IsClean (num.spelled (object d))

  text_of-filled : (v : Json) → is_filled (text_of io num instant v) ≡ true
  text_of-filled v = filled (text_of io num instant v) (text_of-IsClean v)

  word_of-filled : (o : Option String) → IsClean o → is_filled (word_of io num instant o) ≡ true
  word_of-filled none clean = refl
  word_of-filled (some s) (given, clean) = first_word-filled s given clean

  codec_of-filled : (v : Json) → is_filled (codec_of io num instant v) ≡ true
  codec_of-filled v = word_of-filled (text_of io num instant v) (text_of-IsClean v)

  key_or_none :
      (is_key : Bool) (s : String)
      → is_empty s ≡ false
      → is_filled (if is_key then some s else none) ≡ true
  key_or_none true s given = ap not given
  key_or_none false s given = refl

  if_key-filled : (o : Option String) → IsClean o → is_filled (if_key io num instant o) ≡ true
  if_key-filled none clean = refl
  if_key-filled (some s) (given, clean) = key_or_none (is_platform_key s) s given

  abbrev Filled : Dict (Option String) → Type 0
  Filled columns = All (λ c. is_filled c.1 ≡ true) columns

  Filled-append : (xs ys : Dict (Option String)) → Filled xs → Filled ys → Filled (xs ++ ys)
  Filled-append [] ys left right = right
  Filled-append (x ∷ xs) ys (first, left) right = (first, Filled-append xs ys left right)

  media_texts-Filled : (call : Fields) → Filled (media_texts io num instant call)
  unfolding media_texts
  media_texts-Filled call = (
    text_of-filled (get "peerUserAgent" (obj (get "details" call))),
    (
      codec_of-filled (get "audio" (obj (get "encoders" (obj (get "details" call))))),
      (
        codec_of-filled
            (first_item (get "video" (obj (get "encoders" (obj (get "details" call)))))),
        (
          text_of-filled
              (first_item (get "video" (obj (get "encoders" (obj (get "details" call)))))),
          (
            text_of-filled (get "gwVersion" (obj (get "gateway" call))),
            (
              text_of-filled (get "baresipVersion" (obj (get "gateway" call))),
              (
                text_of-filled (get "baresipPatch" (obj (get "gateway" call))),
                (text_of-filled (get "chromiumVersion" (obj (get "gateway" call))), _),
              ),
            ),
          ),
        ),
      ),
    ),
  )

  call_texts-Filled : (call : Fields) → Filled (call_texts io num instant call)
  unfolding call_texts
  call_texts-Filled call = (
    text_of-filled (get "callId" (obj (get "details" call))),
    (
      text_of-filled (get "destinationGw" (obj (get "destination" (obj (get "details" call))))),
      (
        text_of-filled (get "gwId" call),
        (
          text_of-filled
              (get "destinationDomainIp" (obj (get "destination" (obj (get "details" call))))),
          (
            text_of-filled (get "mainApp" call),
            (
              if_key-filled (text_of io num instant (get "browsing" call))
                  (text_of-IsClean (get "browsing" call)),
              (
                text_of-filled (get "room" call),
                (
                  text_of-filled (get "callUrl" call),
                  (
                    text_of-filled
                        (get "sourceURI" (obj (get "source" (obj (get "details" call))))),
                    (
                      text_of-filled
                          (get "sourceName" (obj (get "source" (obj (get "details" call))))),
                      (
                        text_of-filled
                            (get "sourceNumber" (obj (get "source" (obj (get "details" call))))),
                        (
                          text_of-filled
                              (get "sourceDomain" (obj (get "source" (obj (get "details" call))))),
                          (
                            text_of-filled (
                                get "destinationURI"
                                  (obj (get "destination" (obj (get "details" call))))),
                            (
                              text_of-filled (
                                  get "destinationRoomName"
                                    (obj (get "destination" (obj (get "details" call))))),
                              (
                                text_of-filled (
                                    get "destinationDomain"
                                      (obj (get "destination" (obj (get "details" call))))),
                                (
                                  text_of-filled (
                                      get "peerDisplayName"
                                        (obj (get "destination" (obj (get "details" call))))),
                                  (
                                    text_of-filled (get "closeReason" (obj (get "details" call))),
                                    (
                                      text_of-filled
                                          (get "lastEventType" (obj (get "details" call))),
                                      _,
                                    ),
                                  ),
                                ),
                              ),
                            ),
                          ),
                        ),
                      ),
                    ),
                  ),
                ),
              ),
            ),
          ),
        ),
      ),
    ),
  )

  row_of-Filled :
      (call : Fields) (summary : Summary F) → Filled (row_of io num instant call summary).texts
  unfolding row_of
  row_of-Filled call summary =
      Filled-append (call_texts io num instant call) (media_texts io num instant call)
        (call_texts-Filled call) (media_texts-Filled call)

  -- A row that is stored; there is none for a refusal or an exception.
  abbrev pub Stored : Outcome (CallRow F) → Type 0
  Stored crash = Unit
  Stored (refuse code detail) = Unit
  Stored (ok row) = All (λ c. is_filled c.1 ≡ true) row.texts

  with_summary :
      (call : Fields) (found : Option (Summary F))
      → Stored (elim found as (λ x. Outcome (CallRow F)) [
        | none ↦ crash
        | some summary ↦ ok (row_of io num instant call summary)
      ])
  with_summary call none = _
  with_summary call (some summary) = row_of-Filled call summary

  row_of_call-Stored : (v : Json) → Stored (row_of_call io num instant v)
  unfolding row_of_call
  row_of_call-Stored (object call) = with_summary call (
      sample_summary io num (get "samples" (obj (get "mediaStats" call))) (
        video_of io num instant
          (direction_of io num instant (get "mediaDir" (obj (get "details" call))))))
  row_of_call-Stored null = _
  row_of_call-Stored (bool b) = _
  row_of_call-Stored (whole z) = _
  row_of_call-Stored (real s) = _
  row_of_call-Stored (text s) = _
  row_of_call-Stored (list xs) = _

  -- Whatever the payload, a row that is made for a call has no empty text: each of its text columns
  -- is absent or says something.
  pub call_row-Stored : (payload : Json) → Stored (call_row io num instant payload)
  unfolding call_row
  call_row-Stored (object payload) = row_of_call-Stored (get "call" payload)
  call_row-Stored null = _
  call_row-Stored (bool b) = _
  call_row-Stored (whole z) = _
  call_row-Stored (real s) = _
  call_row-Stored (text s) = _
  call_row-Stored (list xs) = _
