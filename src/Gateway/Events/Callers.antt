-- ===== src/Gateway/Events/Callers.antt =====
-- src/event_handler.py: whose calls are accepted, and what a call that comes through the router
-- leaves.
use sipmedia_gw.Prelude.{
  suc, String, ◌==◌, eq_iff, ◌≡◌, refl, sym, ◌∙◌, ap, subst, Bool, true, false, not, ◌&&◌, ◌⊎◌, inl,
  inr, Option, none, some, lookup, if◌then◌else◌, if_false,
}
use sipmedia_gw.Text.{is_empty}
use sipmedia_gw.Gateway.Names.{with_room, without_quotes}
use sipmedia_gw.Gateway.Names.Decoding.{decode-with_room}
use sipmedia_gw.Gateway.Events.{
  Ivr, accept, hangup, quit, Event, Answer, with_key, on_incoming, on_established, on_closed,
  on_message, on_type, event_handler, shown_as, routed, named, user_of, is_named, or_held,
}

-- An answer that accepts a call only where a statement holds.
data Accepts (P : Type 0) : Answer → Type 0 where
  raised : Accepts P none
  silent : (ivr : Ivr) → Accepts P (some (none, ivr))
  refused : (ivr : Ivr) → Accepts P (some (some hangup, ivr))
  stopped : (ivr : Ivr) → Accepts P (some (some quit, ivr))
  accepted : (ivr : Ivr) → P → Accepts P (some (some accept, ivr))

module _ (P : Type 0) where
  if-Accepts :
      (b : Bool) (x y : Answer)
      → (b ≡ true → Accepts P x)
      → (b ≡ false → Accepts P y)
      → Accepts P (if b then x else y)
  if-Accepts true x y h k = h refl
  if-Accepts false x y h k = k refl

  with_key-Accepts :
      (o : Option String) (use_it : String → Answer)
      → ((s : String) → o ≡ some s → Accepts P (use_it s))
      → Accepts P (with_key o use_it)
  with_key-Accepts none use_it h = raised
  with_key-Accepts (some s) use_it h = h s refl

  shown_as-Accepts : (o : Option String) (x : String × Ivr) → Accepts P (shown_as o x)
  shown_as-Accepts none x = raised
  shown_as-Accepts (some name) x = silent _

  named-Accepts : (peer : Option String) (x : String × Ivr) → Accepts P (named peer x)
  named-Accepts peer x =
      if-Accepts (is_empty x.0) _ _
        (λ f. with_key-Accepts peer _ (λ uri g. shown_as-Accepts (user_of uri) x))
        (λ f. shown_as-Accepts (some x.0) x)

  on_established-Accepts : (ev : Event) (ivr : Ivr) → Accepts P (on_established ev ivr)
  unfolding on_established
  on_established-Accepts ev ivr =
      with_key-Accepts (lookup "remotevideodir" ev) _
        (λ dir e. named-Accepts (lookup "peeruri" ev) _)

  on_closed-Accepts : (from : String) (ev : Event) (ivr : Ivr) → Accepts P (on_closed from ev ivr)
  unfolding on_closed
  on_closed-Accepts from ev ivr =
      if-Accepts (is_empty from) _ _ (λ e. stopped ivr)
        (λ e.
          with_key-Accepts (lookup "peeruri" ev) _
            (λ peer f. if-Accepts (from == peer) _ _ (λ g. stopped ivr) (λ g. silent ivr)))

  on_message-Accepts :
      (message action : Option String) (ivr : Ivr) → Accepts P (on_message message action ivr)
  on_message-Accepts none action ivr = silent _
  on_message-Accepts (some m) action ivr =
      if-Accepts ivr.in_meeting _ _ (λ e. silent _) (λ e. raised)

  -- The branches of a type, where an incoming call is accepted only as stated.
  on_type-Accepts :
      (from type : String) (ev : Event) (ivr : Ivr)
      → (type ≡ "CALL_INCOMING" → Accepts P (on_incoming from ev ivr))
      → Accepts P (on_type from type ev ivr)
  on_type-Accepts from type ev ivr h =
      if-Accepts (type == "CALL_INCOMING") _ _ (λ e. h ((eq_iff type "CALL_INCOMING").0 e))
        (λ e.
          if-Accepts (type == "CALL_ESTABLISHED") _ _ (λ f. on_established-Accepts ev ivr)
            (λ f.
              if-Accepts (type == "CALL_DTMF_START") _ _
                (λ g. with_key-Accepts (lookup "param" ev) _ (λ key i. silent _))
                (λ g.
                  if-Accepts (type == "CALL_CLOSED") _ _ (λ i. on_closed-Accepts from ev ivr)
                    (λ i.
                      if-Accepts ((type == "TIME_OUT") && not (is_named ivr.name)) _ _
                        (λ j. stopped ivr)
                        (λ j.
                          if-Accepts (type == "VIDEO_DISP") _ _
                            (λ k. with_key-Accepts (lookup "param" ev) _ (λ param l. silent _))
                            (λ k.
                              if-Accepts (type == "CHAT_INPUT") _ _
                                (λ l. on_message-Accepts _ _ ivr) (λ l. silent ivr)))))))

  accepts-only : (ivr : Ivr) → Accepts P (some (some accept, ivr)) → P
  accepts-only _ (accepted ivr p) = p

-- An incoming call of the caller that the gateway was started for, or of any where it was started
-- for none.
abbrev pub Expected : String → Event → Type 0
Expected from ev =
    (lookup "type" ev ≡ some "CALL_INCOMING")
    × ((is_empty from ≡ true) ⊎ (lookup "peeruri" ev ≡ some from))

incoming-Accepts :
    (from : String) (ev : Event) (ivr : Ivr)
    → lookup "type" ev ≡ some "CALL_INCOMING"
    → Accepts (Expected from ev) (on_incoming from ev ivr)
unfolding on_incoming
incoming-Accepts from ev ivr t =
    if-Accepts (Expected from ev) (is_empty from) _ _ (λ e. accepted ivr (t, inl e))
      (λ e. with_key-Accepts (Expected from ev) (lookup "peeruri" ev) _ (λ peer f.
        if-Accepts (Expected from ev) (from == peer) _ _
          (λ g. accepted ivr (t, inr (f ∙ ap some (sym ((eq_iff from peer).0 g)))))
          (λ g. refused ivr)))

-- A call is accepted only where it is incoming, and from the caller that the gateway was started
-- for, if it was started for one.
pub event_handler-Expected :
    (from : String) (ev : Event) (ivr after : Ivr)
    → event_handler from ev ivr ≡ some (some accept, after)
    → Expected from ev
unfolding event_handler
event_handler-Expected from ev ivr after e = accepts-only (Expected from ev) after (
    subst (Accepts (Expected from ev)) e (
      with_key-Accepts (Expected from ev) (lookup "type" ev) _ (λ type f.
        on_type-Accepts (Expected from ev) from type ev ivr
          (λ g. incoming-Accepts from ev ivr (f ∙ ap some g)))))

abbrev read_of : Option String × String → Ivr → String × Ivr
read_of read ivr = (read.1, record ivr { mixed_id = or_held read.0 ivr.mixed_id })

established :
    (room name : String) (b : Bool) (ivr : Ivr)
    → shown_as (some name) (
      name,
      record (if b then record ivr { audio_only = true } else ivr) { mixed_id = some room },
    )
      ≡ some (
        none,
        record ivr {
          mixed_id = some room;
          name = some name;
          audio_only = (if b then true else ivr.audio_only);
          browsers = suc ivr.browsers;
        },
      )
established room name true ivr = refl
established room name false ivr = refl

-- A call that the router has given a room and a name: the IVR gets the room as the one that was
-- dialled, and the name without its quotes, where that is not empty.
pub event_handler-with_room :
    (from room name dir : String) (ev : Event) (ivr : Ivr)
    → lookup "type" ev ≡ some "CALL_ESTABLISHED"
    → lookup "remotevideodir" ev ≡ some dir
    → lookup "peerdisplayname" ev ≡ some (with_room room name)
    → is_empty (without_quotes name) ≡ false
    → event_handler from ev ivr
      ≡ some (
        none,
        record ivr {
          mixed_id = some room;
          name = some (without_quotes name);
          audio_only = (if dir == "inactive" then true else ivr.audio_only);
          browsers = suc ivr.browsers;
        },
      )
unfolding event_handler on_established
event_handler-with_room from room name dir ev ivr t d p n =
    let b = dir == "inactive" in
    let held : Ivr = if b then record ivr { audio_only = true } else ivr in
    let peer = lookup "peeruri" ev in
    ap (λ o. with_key o (λ type. on_type from type ev ivr)) t
    ∙ ap
        (λ o. with_key o (λ z. named peer (
          routed (lookup "peerdisplayname" ev)
            (if z == "inactive" then record ivr { audio_only = true } else ivr))))
        d
    ∙ ap (λ o. named peer (routed o held)) p
    ∙ ap (λ z. named peer (read_of z held)) (decode-with_room room name)
    ∙ if_false _ _ _ n
    ∙ established room (without_quotes name) b ivr
