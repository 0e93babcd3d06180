-- ===== src/History/Parser/Once.antt =====
-- src/logParse.py: how often a call is closed, and what stands before a push.
use sipmedia_gw.Prelude.{
  ℕ, String, ◌==◌, eq_iff, eq_refl, ◌≡◌, refl, ap, ◌∙◌, sym, Bool, true, false, not, ◌&&◌, Option,
  none, some, List, [], ◌∷◌, ◌++◌, All, lookup, arith, if◌then◌else◌, Bool-cases, inl, inr, if_true,
  if_false,
}
use sipmedia_gw.Text.{is_empty}
use sipmedia_gw.History.Record.{Record, call_end, media_sample, room, browsing}
use sipmedia_gw.History.Lines.{dtmf_match, destination_match, heading_match, value_match}
use sipmedia_gw.History.Parser.{
  Stamp, Parser, Action, gw_start, writes, pushes, Step, Event, or_else, field, on_call,
  on_call_closed, common_line, event_line, baresip_line, line_step, run_lines, on_event, on_dtmf,
  on_destination, on_heading, on_value, values, on_end, on_start, on_encoder, on_text, or_same,
  is_text, parse_event, remember,
}

abbrev pub is_call_end : Record → Bool
is_call_end (call_end raw iso) = true
is_call_end r = false

-- Whether every push stands right behind the end of a call; `just` tells that one was just written.
unfoldable pub ended : Bool → List Action → Bool
ended just [] = true
ended just (gw_start now url ∷ actions) = ended false actions
ended just (writes r ∷ actions) = ended (is_call_end r) actions
ended just (pushes ∷ actions) = just && ended false actions

ended-false : (xs : List Action) → ended false xs ≡ true → ended true xs ≡ true
unfolding ended
ended-false [] h = refl
ended-false (gw_start now url ∷ xs) h = h
ended-false (writes r ∷ xs) h = h
ended-false (pushes ∷ xs) h = cc

ended-append :
    (just : Bool) (xs ys : List Action)
    → ended just xs ≡ true
    → ended false ys ≡ true
    → ended just (xs ++ ys) ≡ true
unfolding ended
ended-append just [] [] h k = refl
ended-append false [] ys h k = k
ended-append true [] ys h k = ended-false ys k
ended-append just (gw_start now url ∷ xs) ys h k = ended-append false xs ys h k
ended-append just (writes r ∷ xs) ys h k = ended-append (is_call_end r) xs ys h k
ended-append false (pushes ∷ xs) ys h k = cc
ended-append true (pushes ∷ xs) ys h k = ended-append false xs ys h k

-- A step that keeps to that.
data Good : Step → Type 0 where
  nothing : Good none
  step : (x : Parser × List Action) → ended false x.1 ≡ true → Good (some x)

else-Good : (s t : Step) → Good s → Good t → Good (or_else s t)
else-Good none t h k = k
else-Good (some x) t h k = h

if-Good : (b : Bool) (s t : Step) → Good s → Good t → Good (if b then s else t)
if-Good true s t h k = h
if-Good false s t h k = k

Good-some : (x : Parser × List Action) → Good (some x) → ended false x.1 ≡ true
Good-some _ (step x h) = h

right_of : (a b : Bool) → (a && b) ≡ true → b ≡ true
right_of true b e = e
right_of false b e = cc

both_of : (a b : Bool) → a ≡ true → b ≡ true → (a && b) ≡ true
both_of a b e f = ground arith

-- Each handler of a line.
module _ (read : String → Option Event) where
  on_start-Good :
      (now : Stamp) (p : Parser) (b : Bool) (url : Option String) → Good (on_start read now p b url)
  unfolding ended
  on_start-Good now p false url = nothing
  on_start-Good now p true url = step _ refl

  on_encoder-Good : (p : Parser) (o : Option (String × String)) → Good (on_encoder read p o)
  unfolding ended
  on_encoder-Good p none = nothing
  on_encoder-Good p (some x) = step _ refl

  on_text-Good :
      (kind : Option String → Record) (p : Parser) (o : Option String)
      → Good (on_text read kind p o)
  unfolding ended
  on_text-Good kind p none = nothing
  on_text-Good kind p (some s) = step _ refl

  common-Good : (now : Stamp) (line : String) (p : Parser) → Good (common_line read now line p)
  unfolding common_line
  common-Good now line p = else-Good _ _ (on_start-Good now p _ _) (
      else-Good _ _ (on_encoder-Good p _)
        (else-Good _ _ (on_text-Good room p _) (on_text-Good browsing p _)))

  on_dtmf-Good : (now : Stamp) (p : Parser) (o : Option String) → Good (on_dtmf read now p o)
  unfolding ended
  on_dtmf-Good now p none = nothing
  on_dtmf-Good now p (some s) = step _ refl

  on_call-ended :
      (now : Stamp) (ev : Event) (p : Parser) → ended false (on_call read now ev p).1 ≡ true
  unfolding on_call on_call_closed ended
  on_call-ended now ev p = ground arith

  on_event-Good : (now : Stamp) (p : Parser) (o : Option Event) → Good (on_event read now p o)
  unfolding ended
  on_event-Good now p none = nothing
  on_event-Good now p (some ev) =
      if-Good (is_text read "MEDIA_STATS" (lookup "type" ev)) _ _
        (step (p, writes (media_sample (lookup "seconds" ev) (lookup "video" ev)) ∷ []) refl)
        (if-Good (is_text read "call" (lookup "class" ev)) _ _
          (step (on_call read now ev p) (on_call-ended now ev p)) nothing)

  event-Good : (now : Stamp) (line : String) (p : Parser) → Good (event_line read now line p)
  unfolding event_line
  event-Good now line p =
      else-Good _ _ (on_dtmf-Good now p (dtmf_match line))
        (on_event-Good now p (parse_event read line))

  on_destination-Good : (p : Parser) (o : Option (String × String)) → Good (on_destination read p o)
  unfolding ended
  on_destination-Good p none = nothing
  on_destination-Good p (some x) = step _ refl

  on_heading-Good : (p : Parser) (o : Option (String × Option ℕ)) → Good (on_heading read p o)
  unfolding ended
  on_heading-Good p none = nothing
  on_heading-Good p (some (media, none)) = if-Good _ _ _ (step _ refl) (step _ refl)
  on_heading-Good p (some (media, some n)) = if-Good _ _ _ (step _ refl) (step _ refl)

  values-ended :
      (p : Parser) (rest : String) (o : Option String) → ended false (values read p rest o) ≡ true
  unfolding ended
  values-ended p rest none = refl
  values-ended p rest (some name) = refl

  on_value-Good : (p : Parser) (o : Option (String × String)) → Good (on_value read p o)
  on_value-Good p none = nothing
  on_value-Good p (some x) = if-Good _ _ _ (step _ (values-ended p x.1 _)) nothing

  on_end-Good : (now : Stamp) (p : Parser) (b : Bool) → Good (on_end read now p b)
  unfolding ended
  on_end-Good now p false = nothing
  on_end-Good now p true = step _ refl

  baresip-Good : (now : Stamp) (line : String) (p : Parser) → Good (baresip_line read now line p)
  unfolding baresip_line
  baresip-Good now line p = else-Good _ _ (on_destination-Good p (destination_match line)) (
      else-Good _ _ (on_heading-Good p (heading_match line))
        (else-Good _ _ (on_value-Good p (value_match line)) (on_end-Good now p _)))

  or_same-ended : (p : Parser) (s : Step) → Good s → ended false (or_same read p s).1 ≡ true
  unfolding ended
  or_same-ended p none h = refl
  or_same-ended p (some x) h = Good-some x h

  line_step-ended :
      (pref : String) (now : Stamp) (line : String) (p : Parser)
      → ended false (line_step read pref now line p).1 ≡ true
  unfolding line_step
  line_step-ended pref now line p = or_same-ended p _ (
      else-Good _ _ (common-Good now line p) (
        else-Good _ _ (if-Good _ _ _ (event-Good now line p) nothing)
          (if-Good _ _ _ (baresip-Good now line p) nothing)))

  -- Whatever a process prints, each push of the history stands right behind a record of the end of
  -- the call.
  pub run_lines-ended :
      (pref : String) (lines : List (Stamp × String)) (p : Parser)
      → ended false (run_lines read pref lines p).1 ≡ true
  unfolding run_lines ended
  run_lines-ended pref [] p = refl
  run_lines-ended pref (x ∷ lines) p =
      let here = line_step read pref x.0 x.1 p in
      ended-append false here.1 (run_lines read pref lines here.0).1
        (line_step-ended pref x.0 x.1 p) (run_lines-ended pref lines here.0)

  -- The events of calls, one after the other.
  unfoldable pub run_events : List (Stamp × Event) → Parser → Parser × List Action
  unfolding on_call
  run_events [] p = (p, [])
  run_events (x ∷ evs) p =
      let here = on_call read x.0 x.1 p in
      let rest = run_events evs here.0 in (rest.0, here.1 ++ rest.1)

  -- An event that closes no call.
  abbrev pub Open : Stamp × Event → Type 0
  Open x = (field "type" x.1 == "CALL_CLOSED") ≡ false

  on_call-Open : (x : Stamp × Event) (p : Parser) → Open x → (on_call read x.0 x.1 p).0 ≡ p
  unfolding on_call
  on_call-Open x p h = elim (Bool-cases (field "type" x.1 == "CALL_ESTABLISHED")) [
    | inl e ↦ ap (λ (z : Parser × List Action). z.0) (if_true _ _ _ e)
    | inr e ↦ ap (λ (z : Parser × List Action). z.0) (if_false _ _ _ e ∙ if_true _ _ _ (ap not h))
  ]

  run_events-Open :
      (evs : List (Stamp × Event)) (p : Parser) → All Open evs → (run_events evs p).0 ≡ p
  unfolding run_events
  run_events-Open [] p h = refl
  run_events-Open (x ∷ evs) p h =
      run_events-Open evs (on_call read x.0 x.1 p).0 h.1 ∙ on_call-Open x p h.0

  pub on_call-closing :
      (now : Stamp) (ev : Event) (p : Parser)
      → field "type" ev ≡ "CALL_CLOSED"
      → on_call read now ev p ≡ on_call_closed read now ev p
  unfolding on_call
  on_call-closing now ev p h =
      if_false _ _ _ (ap (λ z. z == "CALL_ESTABLISHED") h)
      ∙ if_false _ _ _ (ap (λ z. not (z == "CALL_CLOSED")) h)

  seen_text : (id : String) (o : Option String) → is_text read id o ≡ true → o ≡ some id
  seen_text id none e = cc
  seen_text id (some t) e = ap some (sym ((eq_iff id t).0 e))

  text_seen : (id : String) (o : Option String) → o ≡ some id → is_text read id o ≡ true
  text_seen id o e = ap (is_text read id) e ∙ eq_refl id

  remember-last :
      (id : String) (p : Parser) → is_empty id ≡ false → (remember read id p).last_final ≡ some id
  remember-last id p h = ap (λ (q : Parser). q.last_final) (if_false _ _ _ h)

  remembered :
      (now : Stamp) (ev : Event) (p : Parser)
      → is_empty (field "id" ev) ≡ false
      → (on_call_closed read now ev p).0.last_final ≡ some (field "id" ev)
  unfolding on_call_closed
  remembered now ev p h =
      elim (Bool-cases
        (not (is_empty (field "id" ev)) && is_text read (field "id" ev) p.last_final)) [
          | inl e ↦
              ap (λ (z : Parser × List Action). z.0.last_final) (if_true _ _ _ e)
              ∙ seen_text (field "id" ev) p.last_final (right_of _ _ e)
          | inr e ↦
              ap (λ (z : Parser × List Action). z.0.last_final) (if_false _ _ _ e)
              ∙ remember-last (field "id" ev) p h
        ]

  closed_again :
      (now : Stamp) (ev : Event) (p : Parser)
      → is_empty (field "id" ev) ≡ false
      → p.last_final ≡ some (field "id" ev)
      → (on_call_closed read now ev p).1 ≡ []
  unfolding on_call_closed
  closed_again now ev p h e =
      ap (λ (z : Parser × List Action). z.1)
        (if_true _ _ _ (both_of _ _ (ap not h) (text_seen (field "id" ev) p.last_final e)))

  -- The closing of a call with an identifier that is not empty, told a second time with no other
  -- closing between, writes nothing and pushes nothing.
  pub on_call-once :
      (now later : Stamp) (ev again : Event) (evs : List (Stamp × Event)) (p : Parser)
      → field "type" ev ≡ "CALL_CLOSED"
      → field "type" again ≡ "CALL_CLOSED"
      → is_empty (field "id" ev) ≡ false
      → field "id" again ≡ field "id" ev
      → All Open evs
      → (on_call read later again (run_events evs (on_call read now ev p).0).0).1 ≡ []
  on_call-once now later ev again evs p t u i same h =
      let first = on_call read now ev p in
      let held =
        ap (λ (q : Parser). q.last_final) (run_events-Open evs first.0 h)
        ∙ ap (λ (z : Parser × List Action). z.0.last_final) (on_call-closing now ev p t)
        ∙ remembered now ev p i
        ∙ ap some (sym same) in
      ap (λ (z : Parser × List Action). z.1)
        (on_call-closing later again (run_events evs first.0).0 u)
      ∙ closed_again later again (run_events evs first.0).0 (ap is_empty same ∙ i) held
