-- ===== src/History/Tests.antt =====
-- src/logParse.py: payloads of concrete histories.
use sipmedia_gw.Prelude.{◌≡◌, refl, none, some, [], ◌∷◌}
use sipmedia_gw.History.Record.{Record, call_end, media_sample, stats_value}
use sipmedia_gw.History.State.{initial}
use sipmedia_gw.History.Fold.{run}
use sipmedia_gw.History.Payload.{Reading, build_payload}
use sipmedia_gw.History.Closing.{closing, build_payload-closing}
use sipmedia_gw.History.Streams.{run-forgets}

abbrev reading : Reading
reading = record { parse_iso = λ s. none; query_value = λ key url. "" }

abbrev end : Record
end = call_end (some "x") (some "2026-01-01T10:00:00Z")

build_payload-closing_example :
    let call = build_payload reading (closing "1" "bye" none none none ∷ end ∷ []) in
    (call.call_id ≡ "1") × (call.close_reason ≡ "bye") × (call.last_event_type ≡ "CALL_CLOSED")
build_payload-closing_example =
    build_payload-closing reading [] (end ∷ []) "1" "bye" none none none refl refl (refl, _)

abbrev figures : Record
figures = stats_value (some "video") (some 0) (some "packets") (some "3") (some "4")

run-forgets_example :
    (run (media_sample none none ∷ figures ∷ []) initial).media.video
    ≡ (run (media_sample none none ∷ figures ∷ []) (run (figures ∷ []) initial)).media.video
run-forgets_example = run-forgets none none (figures ∷ []) initial (run (figures ∷ []) initial)
