-- ===== src/Gateway/Launcher/Tests.antt =====
-- The commands of a gateway on concrete payloads.
use sipmedia_gw.Prelude.{String, ◌==◌, ◌≡◌, refl, Bool, true, Option, none, some, [], ◌∷◌, All}
use sipmedia_gw.Text.{contains, lower, append, has_prefix}
use sipmedia_gw.Outcome.{refuse}
use sipmedia_gw.Ingest.Values.{Json, text}
use sipmedia_gw.Gateway.Launcher.Commands.{
  Script, press, Payload, char_name, press_chars, perform_command, command,
}
use sipmedia_gw.Gateway.Launcher.Keys.{
  string_command, each_key, send_string-send_key, is_safe, command-is_safe,
}

abbrev spelled : Json → String
spelled v = "None"

abbrev is_zero : String → Bool
is_zero s = s == "0.0"

abbrev answers : Script → Option Json
answers script = none

send_string-send_key_example :
    (perform_command spelled is_zero answers (string_command spelled is_zero answers "1*#")).1
    ≡ each_key spelled is_zero answers "1*#"
send_string-send_key_example = send_string-send_key spelled is_zero answers "1*#"

typed :
    (perform_command spelled is_zero answers (string_command spelled is_zero answers "1*#")).1
    ≡ press "1" ∷ press "asterisk" ∷ press "numbersign" ∷ []
unfolding perform_command press_chars char_name
typed = refl

abbrev dimmed : Payload
dimmed = record { command = some (text "camera"); param1 = some (text "dim") }

command-is_safe_example :
    All
      (λ a. is_safe spelled is_zero answers a ≡ true)
      (command spelled is_zero answers true dimmed).1
command-is_safe_example = command-is_safe spelled is_zero answers true dimmed

dimmed_refused :
    command spelled is_zero answers true dimmed
    ≡ (refuse 404 "camera param1 must be 'on' or 'off'", [])
unfolding command perform_command contains lower append has_prefix
dimmed_refused = refl
