-- ===== src/Gateway/Events/Slides.antt =====
-- src/event_handler.py: the inputs that follow the slides of a caller.
use sipmedia_gw.Prelude.{
  String, ◌==◌, ◌≡◌, refl, sym, ◌∙◌, ap, arith, Bool, true, false, not, ◌&&◌, Option, none, some,
  List, [], ◌∷◌, All, lookup, if◌then◌else◌,
}
use sipmedia_gw.Text.{is_empty}
use sipmedia_gw.Gateway.Events.{
  Ivr, Command, Event, Answer, with_key, on_incoming, on_established, on_closed, on_slides,
  on_action, on_message, on_type, event_handler, follow, get_events, type_in, shown_as, routed,
  named, user_of, is_named,
}

-- Whether the last "s" or "q" that was typed is an "s".
unfoldable pub sharing : List String → Bool
sharing [] = false
sharing (x ∷ typed) =
    let rest = sharing typed in if x == "s" then true else if x == "q" then false else rest

-- Every "q" follows an "s", with no other "q" between.
unfoldable pub alternates : List String → Bool
unfolding sharing
alternates [] = true
alternates (x ∷ typed) = (if x == "q" then sharing typed else true) && alternates typed

-- The handler's mark of the slides is what the inputs say.
abbrev pub Kept : Ivr → Type 0
Kept ivr = (ivr.shared ≡ sharing ivr.typed) × (alternates ivr.typed ≡ true)

-- A key that is no letter of the slides.
abbrev pub is_other : Option String → Bool
is_other none = true
is_other (some s) = not (s == "s") && not (s == "q")

-- An event whose keys are no letters of the slides.
abbrev pub Keys : Event → Type 0
Keys ev = is_other (lookup "param" ev) ≡ true

data Holds : Answer → Type 0 where
  raised : Holds none
  holds : (c : Option Command) (ivr : Ivr) → Kept ivr → Holds (some (c, ivr))

if-Holds : (b : Bool) (x y : Answer) → Holds x → Holds y → Holds (if b then x else y)
if-Holds true x y h k = h
if-Holds false x y h k = k

other_key :
    (a b sh al m : Bool)
    → (not a && not b) ≡ true
    → m ≡ sh
    → al ≡ true
    → (m ≡ (if a then true else if b then false else sh))
      × (((if b then sh else true) && al) ≡ true)
other_key false false sh al m o e f = (e, f)
other_key false true sh al m o e f = cc
other_key true b sh al m o e f = cc

type_in-Kept : (s : String) (ivr : Ivr) → is_other (some s) ≡ true → Kept ivr → Kept (type_in s ivr)
unfolding sharing alternates
type_in-Kept s ivr o k =
    other_key (s == "s") (s == "q") (sharing ivr.typed) (alternates ivr.typed) ivr.shared o k.0 k.1

both : (a b : Bool) → a ≡ true → b ≡ true → (a && b) ≡ true
both a b e f = ground arith

right_of : (a b : Bool) → (a && b) ≡ true → b ≡ true
right_of true b e = e
right_of false b e = cc

if_Kept :
    (b : Bool) (x y : Ivr) → (b ≡ true → Kept x) → (b ≡ false → Kept y) → Kept (if b then x else y)
if_Kept true x y h k = h refl
if_Kept false x y h k = k refl

on_slides-Kept : (param : String) (ivr : Ivr) → Kept ivr → Kept (on_slides param ivr)
unfolding on_slides sharing alternates
on_slides-Kept param ivr k =
    let started : Ivr = record ivr { typed = "s" ∷ ivr.typed; shared = true } in
    let stopped : Ivr = record ivr { typed = "q" ∷ ivr.typed; shared = false } in
    let stops = (param == "VIDEO_SLIDES_STOP") && ivr.shared in
    if_Kept (param == "VIDEO_SLIDES_START") started (if stops then stopped else ivr)
      (λ e. (refl, k.1))
      (λ e.
        if_Kept stops stopped ivr (λ f. (refl, both _ _ (sym k.0 ∙ right_of _ _ f) k.1)) (λ f. k))

with_key-Holds :
    (o : Option String) (use_it : String → Answer)
    → ((s : String) → o ≡ some s → Holds (use_it s))
    → Holds (with_key o use_it)
with_key-Holds none use_it h = raised
with_key-Holds (some s) use_it h = h s refl

on_incoming-Holds :
    (from : String) (ev : Event) (ivr : Ivr) → Kept ivr → Holds (on_incoming from ev ivr)
unfolding on_incoming
on_incoming-Holds from ev ivr k = if-Holds (is_empty from) _ _ (holds _ ivr k) (
    with_key-Holds (lookup "peeruri" ev) _
      (λ peer e. if-Holds (from == peer) _ _ (holds _ ivr k) (holds _ ivr k)))

on_closed-Holds :
    (from : String) (ev : Event) (ivr : Ivr) → Kept ivr → Holds (on_closed from ev ivr)
unfolding on_closed
on_closed-Holds from ev ivr k = if-Holds (is_empty from) _ _ (holds _ ivr k) (
    with_key-Holds (lookup "peeruri" ev) _
      (λ peer e. if-Holds (from == peer) _ _ (holds _ ivr k) (holds _ ivr k)))

shown_as-Holds : (o : Option String) (x : String × Ivr) → Kept x.1 → Holds (shown_as o x)
shown_as-Holds none x k = raised
shown_as-Holds (some name) x k = holds none _ k

named-Holds : (peer : Option String) (x : String × Ivr) → Kept x.1 → Holds (named peer x)
named-Holds peer x k =
    if-Holds (is_empty x.0) _ _ (with_key-Holds peer _ (λ uri e. shown_as-Holds (user_of uri) x k))
      (shown_as-Holds (some x.0) x k)

routed-Kept : (o : Option String) (ivr : Ivr) → Kept ivr → Kept (routed o ivr).1
routed-Kept none ivr k = k
routed-Kept (some s) ivr k = k

if-Kept : (b : Bool) (x y : Ivr) → Kept x → Kept y → Kept (if b then x else y)
if-Kept true x y h k = h
if-Kept false x y h k = k

on_established-Holds : (ev : Event) (ivr : Ivr) → Kept ivr → Holds (on_established ev ivr)
unfolding on_established
on_established-Holds ev ivr k = with_key-Holds (lookup "remotevideodir" ev) _ (λ dir e.
    named-Holds (lookup "peeruri" ev) _
      (routed-Kept (lookup "peerdisplayname" ev) _ (if-Kept (dir == "inactive") _ _ k k)))

on_action-Kept : (o : Option String) (ivr : Ivr) → Kept ivr → Kept (on_action o ivr)
on_action-Kept none ivr k = k
on_action-Kept (some s) ivr k = if-Kept (s == "toggle") _ _ (type_in-Kept "c" ivr refl k) k

on_message-Holds :
    (message action : Option String) (ivr : Ivr) → Kept ivr → Holds (on_message message action ivr)
on_message-Holds none action ivr k = holds none _ (on_action-Kept action ivr k)
on_message-Holds (some m) action ivr k =
    if-Holds ivr.in_meeting _ _ (holds none _ (on_action-Kept action _ k)) raised

on_type-Holds :
    (from type : String) (ev : Event) (ivr : Ivr)
    → Keys ev
    → Kept ivr
    → Holds (on_type from type ev ivr)
on_type-Holds from type ev ivr o k =
    if-Holds (type == "CALL_INCOMING") _ _ (on_incoming-Holds from ev ivr k) (
      if-Holds (type == "CALL_ESTABLISHED") _ _ (on_established-Holds ev ivr k) (
        if-Holds (type == "CALL_DTMF_START") _ _
          (with_key-Holds (lookup "param" ev) _
            (λ key e. holds none _ (type_in-Kept key ivr (ap is_other (sym e) ∙ o) k)))
          (if-Holds (type == "CALL_CLOSED") _ _ (on_closed-Holds from ev ivr k) (
            if-Holds ((type == "TIME_OUT") && not (is_named ivr.name)) _ _ (holds _ ivr k) (
              if-Holds (type == "VIDEO_DISP") _ _
                (with_key-Holds (lookup "param" ev) _
                  (λ param e. holds none _ (on_slides-Kept param ivr k)))
                (if-Holds (type == "CHAT_INPUT") _ _ (on_message-Holds _ _ ivr k)
                  (holds none ivr k)))))))

event_handler-Holds :
    (from : String) (ev : Event) (ivr : Ivr)
    → Keys ev
    → Kept ivr
    → Holds (event_handler from ev ivr)
unfolding event_handler
event_handler-Holds from ev ivr o k =
    with_key-Holds (lookup "type" ev) _ (λ type e. on_type-Holds from type ev ivr o k)

Holds-Kept : (x : Option Command × Ivr) → Holds (some x) → Kept x.1
Holds-Kept _ (holds c ivr k) = k

follow-Kept :
    (a : Answer) (ivr : Ivr) (next : Ivr → List Command × Ivr)
    → Kept ivr
    → Holds a
    → ((i : Ivr) → Kept i → Kept (next i).1)
    → Kept (follow a ivr next).1
follow-Kept none ivr next k h n = k
follow-Kept (some x) ivr next k h n = n x.1 (Holds-Kept x h)

-- Over any events whose keys are neither "s" nor "q": the mark of the slides is true exactly while
-- the last "s" or "q" that was typed is an "s", and each "q" follows an "s" of its own.
pub get_events-Kept :
    (from : String) (evs : List Event) (ivr : Ivr)
    → All Keys evs
    → Kept ivr
    → Kept (get_events from evs ivr).1
unfolding get_events
get_events-Kept from [] ivr o k = k
get_events-Kept from (ev ∷ evs) ivr o k =
    follow-Kept (event_handler from ev ivr) ivr _ k (event_handler-Holds from ev ivr o.0 k)
      (λ next h. get_events-Kept from evs next o.1 h)
