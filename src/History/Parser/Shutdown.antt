-- ===== src/History/Parser/Shutdown.antt =====
-- src/logParse.py: the line that baresip prints when it stops.
use sipmedia_gw.Prelude.{String, ◌≡◌, ap, true, ◌||◌, Option, none, some, [], if_true}
use sipmedia_gw.Text.{
  append, strip, strip_prefix, has_prefix, contains, has_char, before, after, lstrip, rstrip,
  is_space,
}
use sipmedia_gw.History.Lines.{
  destination_match, heading_match, value_match, cut, is_call_with, is_heading, digits_of,
}
use sipmedia_gw.History.Parser.{
  Stamp, Parser, Event, Step, or_else, is_text, on_end, is_end, baresip_line, field_of,
}

module _ (read : String → Option Event) where
  -- Once a table of figures has been printed, the line "ua: stop all" is taken for one of its
  -- values: it ends no call and pushes nothing.
  pub stop_line_ignored :
      (now : Stamp) (rest : String) (p : Parser)
      → (is_text read "audio" p.media || is_text read "video" p.media) ≡ true
      → baresip_line read now (append "ua: stop all" rest) p ≡ some (p, [])
  unfolding baresip_line destination_match heading_match value_match cut is_call_with is_heading
      digits_of field_of append strip strip_prefix has_prefix contains has_char before after lstrip
      rstrip is_space
  stop_line_ignored now rest p h =
      ap (λ (s : Step). or_else s (on_end read now p (is_end read (append "ua: stop all" rest))))
        (if_true _ (some (p, [])) none h)
