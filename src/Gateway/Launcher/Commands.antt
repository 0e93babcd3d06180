-- ===== src/Gateway/Launcher/Commands.antt =====
-- HTTPLauncher.py: sendCommand, as what it does on the gateway, in order, and its answer. A script
-- of the browser is a constructor with its argument; `answers` is what it returns, none for an
-- exception, and `spelled` the text that Python makes of a value.
use Prim.Native.String.{[], ◌∷◌}
use sipmedia_gw.Prelude.{
  zero, String, ◌==◌, Bool, true, false, not, ◌||◌, Option, none, some, List, [], ◌∷◌,
  if◌then◌else◌,
}
use sipmedia_gw.Text.{append, contains, lower, is_empty}
use sipmedia_gw.Outcome.{Outcome, ok, refuse, crash}
use sipmedia_gw.Ingest.Values.{
  pos, Json, null, bool, whole, real, text, list, object, Items, no_items, item, Fields, no_fields,
  field,
}

pub data Script : Type 0 where
  send_chat : Json → Script
  slide_shot : Script
  reaction : Json → Script
  media_state : Script
  ui_state : Script
  panel_state : Script
  camera : Json → Script
  microphone : Json → Script
  set_display_name : String → Script
  get_display_name : Script
  enter_room : Json → Script

pub data Action : Type 0 where
  press : String → Action
  hang_up : Action
  run : Script → Action

-- The two entries that are read, each where there is one.
pub record Payload : Type 0 where
  pub command : Option Json
  pub param1 : Option Json

abbrev pub Answer : Type 0
Answer = Outcome Fields × List Action

-- The key of sendKey, and that of a character of sendString.
unfoldable pub key_name : String → String
key_name k =
    if k == "#" || k == "Enter"
    then "numbersign"
    else if k == "*" || k == "Backspace"
    then "asterisk"
    else if k == "-"
    then "minus"
    else k

unfoldable pub char_name : String → String
char_name c =
    if c == "#"
    then "numbersign"
    else if c == "*"
    then "asterisk"
    else if c == "-"
    then "minus"
    else c

unfoldable pub press_chars : String → List Action
unfolding char_name
press_chars [] = []
press_chars (c ∷ s) = press (char_name (c ∷ [])) ∷ press_chars s

abbrev pub is_text : String → Option Json → Bool
is_text s none = false
is_text s (some null) = false
is_text s (some (bool b)) = false
is_text s (some (whole z)) = false
is_text s (some (real r)) = false
is_text s (some (text t)) = t == s
is_text s (some (list xs)) = false
is_text s (some (object d)) = false

abbrev pub is_switch : Option Json → Bool
is_switch v = is_text "on" v || is_text "off" v

abbrev pub is_absent : Option Json → Bool
is_absent none = true
is_absent (some v) = false

abbrev pub ack : Fields → Fields
ack rest = field "ack" (bool true) rest

abbrev pub value_of : Option Json → Json
value_of none = null
value_of (some v) = v

abbrev pub entry : String → Option Json → Fields → Fields
entry key none rest = rest
entry key (some v) rest = field key v rest

abbrev pub reply_of : Payload → Fields
reply_of p =
    field "received" (object (entry "command" p.command (entry "param1" p.param1 no_fields)))
      no_fields

-- Its `is_zero` says whether a number is 0.
module _ (spelled : Json → String) (is_zero : String → Bool) (answers : Script → Option Json) where
  -- bool(v)
  abbrev pub truthy : Json → Bool
  truthy null = false
  truthy (bool b) = b
  truthy (whole (pos zero)) = false
  truthy (whole z) = true
  truthy (real s) = not (is_zero s)
  truthy (text s) = not (is_empty s)
  truthy (list no_items) = false
  truthy (list (item v xs)) = true
  truthy (object no_fields) = false
  truthy (object (field k v d)) = true

  -- '{}'.format(v), with what is done to a text.
  abbrev pub format : (String → String) → Json → String
  format name null = spelled null
  format name (bool b) = spelled (bool b)
  format name (whole z) = spelled (whole z)
  format name (real s) = spelled (real s)
  format name (text s) = name s
  format name (list xs) = spelled (list xs)
  format name (object d) = spelled (object d)

  unfoldable pub press_items : Items → List Action
  unfolding char_name
  press_items no_items = []
  press_items (item v xs) = press (format char_name v) ∷ press_items xs

  unfoldable pub press_names : Fields → List Action
  unfolding char_name
  press_names no_fields = []
  press_names (field k v d) = press (char_name k) ∷ press_names d

  -- The keys of `for c in param1`, none where Python cannot go over it.
  abbrev pub keys_of : Json → Option (List Action)
  keys_of null = none
  keys_of (bool b) = none
  keys_of (whole z) = none
  keys_of (real s) = none
  keys_of (text s) = some (press_chars s)
  keys_of (list xs) = some (press_items xs)
  keys_of (object d) = some (press_names d)

  -- A script that the browser is asked to run, and what is answered with its value.
  abbrev pub with_script : Script → (Json → Outcome Fields) → Answer
  with_script script next =
      (elim (answers script) [ none ↦ crash | some v ↦ next v ], run script ∷ [])

  abbrev pub send_key : Payload → Answer
  send_key p = elim p.param1 [
    | none ↦ (crash, [])
    | some k ↦ (ok (ack (reply_of p)), press (format key_name k) ∷ [])
  ]

  abbrev pub send_string : Payload → Answer
  send_string p = elim p.param1 [
    | none ↦ (crash, [])
    | some s ↦ elim (keys_of s) [
      | none ↦ (crash, [])
      | some pressed ↦ (ok (ack (reply_of p)), pressed)
    ]
  ]

  abbrev pub chat : Payload → Answer
  chat p = elim p.param1 [
    | none ↦ (crash, [])
    | some msg ↦ with_script (send_chat msg) (λ v.
        if truthy v
        then ok (ack (field "sendChat" (bool true) no_fields))
        else refuse 404 "sendChat failed or not supported by this connector")
  ]

  abbrev pub react : Json → Answer
  react name = with_script (reaction name) (λ v.
      if truthy v
      then ok (ack (field "reaction" name no_fields))
      else refuse 404
          (append "reaction '" (append (format (λ s. s) name) "' not supported by this connector")))

  abbrev pub state_of : String → Script → Answer
  state_of name script = with_script script (λ v. ok (ack (field name v no_fields)))

  abbrev pub switch : String → (Json → Script) → Option Json → Answer
  switch name script param =
      if is_switch param
      then with_script (script (value_of param))
          (λ v. ok (ack (field name (value_of param) no_fields)))
      else (refuse 404 (append name " param1 must be 'on' or 'off'"), [])

  abbrev pub shown_name : Answer
  shown_name = state_of "displayName" get_display_name

  abbrev pub display_name : Option Json → Answer
  display_name none = shown_name
  display_name (some null) = shown_name
  display_name (some (bool b)) = shown_name
  display_name (some (whole z)) = shown_name
  display_name (some (real s)) = shown_name
  display_name (some (text s)) =
      if is_empty s then shown_name else with_script (set_display_name s) (λ v. ok (ack no_fields))
  display_name (some (list xs)) = shown_name
  display_name (some (object d)) = shown_name

  -- sendCommand, for a gateway that is found.
  unfoldable pub perform_command : Payload → Answer
  unfolding press_chars press_items press_names key_name char_name append
  perform_command p =
      if is_absent p.command
      then (crash, [])
      else if is_text "sendKey" p.command
      then send_key p
      else if is_text "sendString" p.command
      then send_string p
      else if is_text "sendChat" p.command
      then chat p
      else if is_text "endCall" p.command
      then (ok (ack (reply_of p)), hang_up ∷ [])
      else if is_text "slideShot" p.command
      then state_of "slideImg" slide_shot
      else if is_text "reaction" p.command
      then (if truthy (value_of p.param1)
          then react (value_of p.param1)
          else (refuse 404 "reaction requires param1", []))
      else if is_text "mediaState" p.command
      then state_of "mediaState" media_state
      else if is_text "uiState" p.command
      then state_of "uiState" ui_state
      else if is_text "panelState" p.command
      then state_of "panelState" panel_state
      else if is_text "camera" p.command
      then switch "camera" camera p.param1
      else if is_text "microphone" p.command
      then switch "microphone" microphone p.param1
      else if is_text "displayName" p.command
      then display_name p.param1
      else if is_text "roomName" p.command
      then with_script (enter_room (value_of p.param1)) (λ v. ok (ack no_fields))
      else (ok (ack (reply_of p)), [])

  abbrev pub send_command : Bool → Payload → Answer
  send_command found p = if found then perform_command p else (refuse 404 "Gateway not found", [])

  -- POST /gateway/command turns a ValueError into a 404, or a 403 if its text says "stopped".
  unfoldable pub command : Bool → Payload → Answer
  unfolding perform_command contains lower
  command found p = (
    elim (send_command found p).0 [
      | ok v ↦ ok v
      | refuse code detail ↦
          if contains "stopped" (lower detail) then refuse 403 detail else refuse 404 detail
      | crash ↦ refuse 500 ""
    ],
    (send_command found p).1,
  )
