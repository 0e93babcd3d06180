-- ===== src/Gateway/Events.antt =====
-- src/event_handler.py: event_handler, which answers the events of baresip and steers the IVR.
pub mod Slides
pub mod Callers
use sipmedia_gw.Prelude.{
  ℕ, suc, String, ◌==◌, Bool, true, false, not, ◌&&◌, ◌||◌, Option, none, some, List, [], ◌∷◌, Dict,
  lookup, if◌then◌else◌,
}
use sipmedia_gw.Text.{is_empty, has_char, before, after}
use sipmedia_gw.Gateway.Names.{decode}

-- What the handler knows of the IVR and of the meeting; `typed` holds the user's inputs, and `chat`
-- the messages, the last first.
pub record Ivr : Type 0 where
  pub mixed_id : Option String
  pub name : Option String
  pub audio_only : Bool
  pub browsers : ℕ
  pub in_meeting : Bool
  pub shared : Bool
  pub typed : List String
  pub chat : List String

pub data Command : Type 0 where
  accept : Command
  hangup : Command
  quit : Command

-- The event as a dictionary.
abbrev pub Event : Type 0
Event = Dict String

-- A command or none, and the IVR; `none` for an exception, which ends the loop over the events.
abbrev pub Answer : Type 0
Answer = Option (Option Command × Ivr)

-- data[key], and what is done with it.
abbrev pub with_key : Option String → (String → Answer) → Answer
with_key none use_it = none
with_key (some s) use_it = use_it s

-- inputs['from']: the only caller that is accepted, where it is not empty.
unfoldable pub on_incoming : String → Event → Ivr → Answer
unfolding lookup
on_incoming from ev ivr =
    if is_empty from
    then some (some accept, ivr)
    else with_key (lookup "peeruri" ev)
        (λ peer. if from == peer then some (some accept, ivr) else some (some hangup, ivr))

-- data['peeruri'].split(';')[0].split(':')[1]
unfoldable pub user_of : String → Option String
unfolding before after has_char
user_of uri =
    let head = before 59 uri in if has_char 58 head then some (before 58 (after 58 head)) else none

abbrev pub shown_as : Option String → String × Ivr → Answer
shown_as none x = none
shown_as (some name) x = some (none, record x.1 { name = some name; browsers = suc x.1.browsers })

-- The name that the display name gives, and the IVR with the room that it gives.
abbrev pub or_held : Option String → Option String → Option String
or_held none held = held
or_held (some s) held = some s

abbrev pub routed : Option String → Ivr → String × Ivr
routed none ivr = ("", ivr)
routed (some s) ivr =
    let read = decode s in (read.1, record ivr { mixed_id = or_held read.0 ivr.mixed_id })

abbrev pub named : Option String → String × Ivr → Answer
named peer x =
    if is_empty x.0 then with_key peer (λ uri. shown_as (user_of uri) x) else shown_as (some x.0) x

unfoldable pub on_established : Event → Ivr → Answer
unfolding lookup decode user_of
on_established ev ivr = with_key (lookup "remotevideodir" ev) (λ dir.
    let ivr' = if dir == "inactive" then record ivr { audio_only = true } else ivr in
    named (lookup "peeruri" ev) (routed (lookup "peerdisplayname" ev) ivr'))

abbrev pub type_in : String → Ivr → Ivr
type_in s ivr = record ivr { typed = s ∷ ivr.typed }

unfoldable pub on_closed : String → Event → Ivr → Answer
unfolding lookup
on_closed from ev ivr =
    if is_empty from
    then some (some quit, ivr)
    else with_key (lookup "peeruri" ev)
        (λ peer. if from == peer then some (some quit, ivr) else some (none, ivr))

abbrev pub is_named : Option String → Bool
is_named none = false
is_named (some s) = not (is_empty s)

-- Slides start, or stop where they are shown.
unfoldable pub on_slides : String → Ivr → Ivr
on_slides param ivr =
    if param == "VIDEO_SLIDES_START"
    then record ivr { typed = "s" ∷ ivr.typed; shared = true }
    else if (param == "VIDEO_SLIDES_STOP") && ivr.shared
    then record ivr { typed = "q" ∷ ivr.typed; shared = false }
    else ivr

abbrev pub on_action : Option String → Ivr → Ivr
on_action none ivr = ivr
on_action (some s) ivr = if s == "toggle" then type_in "c" ivr else ivr

abbrev pub on_message : Option String → Option String → Ivr → Answer
on_message none action ivr = some (none, on_action action ivr)
on_message (some message) action ivr =
    if ivr.in_meeting
    then some (none, on_action action (record ivr { chat = message ∷ ivr.chat }))
    else none

abbrev pub on_type : String → String → Event → Ivr → Answer
on_type from type ev ivr =
    if type == "CALL_INCOMING"
    then on_incoming from ev ivr
    else if type == "CALL_ESTABLISHED"
    then on_established ev ivr
    else if type == "CALL_DTMF_START"
    then with_key (lookup "param" ev) (λ key. some (none, type_in key ivr))
    else if type == "CALL_CLOSED"
    then on_closed from ev ivr
    else if (type == "TIME_OUT") && not (is_named ivr.name)
    then some (some quit, ivr)
    else if type == "VIDEO_DISP"
    then with_key (lookup "param" ev) (λ param. some (none, on_slides param ivr))
    else if type == "CHAT_INPUT"
    then on_message (lookup "text" ev) (lookup "action" ev) ivr
    else some (none, ivr)

-- The callback of getEvents.
unfoldable pub event_handler : String → Event → Ivr → Answer
unfolding lookup on_incoming on_established on_closed on_slides
event_handler from ev ivr = with_key (lookup "type" ev) (λ type. on_type from type ev ivr)

abbrev pub answers : Option Command → List Command → List Command
answers none cmds = cmds
answers (some c) cmds = c ∷ cmds

-- What follows an answer, unless the handler has raised.
abbrev pub follow : Answer → Ivr → (Ivr → List Command × Ivr) → List Command × Ivr
follow none ivr next = ([], ivr)
follow (some x) ivr next = let rest = next x.1 in (answers x.0 rest.0, rest.1)

-- Netstring.getEvents: the events in turn, up to an exception.
unfoldable pub get_events : String → List Event → Ivr → List Command × Ivr
unfolding event_handler
get_events from [] ivr = ([], ivr)
get_events from (ev ∷ evs) ivr =
    follow (event_handler from ev ivr) ivr (λ next. get_events from evs next)
