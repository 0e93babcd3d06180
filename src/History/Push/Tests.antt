-- ===== src/History/Push/Tests.antt =====
-- src/logParse.py: lines of a log and the history that they leave.
use sipmedia_gw.Prelude.{◌≡◌, refl, eqb, eqb_refl, String, true, false, none, some, Option, [], ◌∷◌}
use sipmedia_gw.Text.{
  strip, strip_prefix, has_prefix, contains, append, has_char, before, after, lstrip, is_space,
  parse_nat,
}
use sipmedia_gw.History.Record.{Record, call_end, stats_value}
use sipmedia_gw.History.Payload.{Reading}
use sipmedia_gw.History.Lines.{
  after_text, encoder_match, destination_match, heading_match, value_match, numbers, cut,
  is_call_with, is_heading, digits_of, numbers_from,
}
use sipmedia_gw.History.Parser.{
  Stamp, Parser, at_start, writes, pushes, Event, field, common_line, baresip_line, line_step,
  run_lines, on_call, field_of, is_end,
}
use sipmedia_gw.History.Parser.Once.{ended, run_lines-ended, run_events, on_call-once}
use sipmedia_gw.History.Push.{World, perform, read_stable, is_same_sig}
use sipmedia_gw.History.Push.Stable.{read_stable-Growing}
use sipmedia_gw.History.Push.Posted.{Posted, on_call-Posted}

abbrev now : Stamp
now = record {
  raw = "Jan 01 10:00:00";
  iso = "2026-01-01T10:00:00Z";
  iso_ms = "2026-01-01T10:00:00.000Z";
}

abbrev closed : Event
closed = ("class", "call") ∷ ("type", "CALL_CLOSED") ∷ ("id", "7") ∷ ("param", "bye") ∷ []

abbrev no_event : String → Option Event
no_event line = none

baresip_log :
    (run_lines no_event "Baresip"
      ((now, "video 1 Transmit: Receive:")
        ∷ (now, "avg. bitrate: 1.5 -2 (kbit/s)")
        ∷ (now, "Files sent and removed")
        ∷ [])
      at_start).1
    ≡ (writes (stats_value (some "video") (some 1) (some "avgBitrateKbps") (some "1.5") (some "-2"))
        ∷ writes (call_end (some now.raw) (some now.iso))
        ∷ pushes
        ∷ [])
unfolding run_lines line_step common_line baresip_line after_text encoder_match destination_match
    heading_match value_match numbers cut is_call_with is_heading digits_of numbers_from field_of
    is_end strip contains strip_prefix has_prefix has_char before after lstrip is_space parse_nat
    append
baresip_log = refl

run_lines-ended_example :
    ended false (run_lines no_event "Baresip" ((now, "ua: stop all (forced=0)") ∷ []) at_start).1
    ≡ true
run_lines-ended_example =
    run_lines-ended no_event "Baresip" ((now, "ua: stop all (forced=0)") ∷ []) at_start

on_call-once_example :
    (on_call no_event now closed
      (run_events no_event [] (on_call no_event now closed at_start).0).0).1
    ≡ []
unfolding field
on_call-once_example = on_call-once no_event now now closed closed [] at_start refl refl refl refl _

abbrev counted : Parser
counted = record at_start { media = some "audio" }

abbrev reading : Reading
reading = record { parse_iso = λ s. none; query_value = λ key url. "" }

abbrev world : World
world = record { file = []; sent = [] }

on_call-Posted_example :
    Posted reading "http://manager" refl "7" "bye"
      (some 200)
      world
      (perform reading "http://manager" (some 200) (on_call no_event now closed at_start).1 world)
unfolding field
on_call-Posted_example =
    on_call-Posted reading "http://manager" refl no_event now closed at_start (some 200) world refl
      refl refl refl

abbrev end : Record
end = call_end (some now.raw) (some now.iso)

read_stable-Growing_example :
    (read_stable eqb ((1 ∷ []) ∷ (1 ∷ 2 ∷ []) ∷ (1 ∷ 2 ∷ []) ∷ (1 ∷ 2 ∷ []) ∷ [])
      ≡ some (1 ∷ 2 ∷ []))
    × (read_stable eqb (
          (1 ∷ [])
          ∷ (1 ∷ 2 ∷ [])
          ∷ (1 ∷ 2 ∷ [])
          ∷ (1 ∷ 2 ∷ 3 ∷ [])
          ∷ (1 ∷ 2 ∷ 3 ∷ 4 ∷ [])
          ∷ (1 ∷ 2 ∷ 3 ∷ 4 ∷ [])
          ∷ (1 ∷ 2 ∷ 3 ∷ 4 ∷ [])
          ∷ [])
        ≡ some (1 ∷ 2 ∷ 3 ∷ 4 ∷ []))
unfolding is_same_sig
read_stable-Growing_example =
    read_stable-Growing eqb eqb_refl ((1 ∷ []) ∷ []) (1 ∷ 2 ∷ []) (1 ∷ 2 ∷ 3 ∷ [])
      (1 ∷ 2 ∷ 3 ∷ 4 ∷ []) [] [] (refl, (refl, _)) (refl, _)
