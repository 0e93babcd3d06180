-- ===== src/History/Push/Posted.antt =====
-- src/logParse.py: what a push sends, keeps and loses.
use sipmedia_gw.Prelude.{
  ℕ, String, ◌≡◌, refl, sym, ◌∙◌, ap, subst, Bool, true, false, not, ◌&&◌, Option, List, [], ◌∷◌,
  ◌++◌, if◌then◌else◌, Bool-cases, if_true, if_false, inl, inr,
}
use sipmedia_gw.Text.{is_empty}
use sipmedia_gw.History.Record.{Record}
use sipmedia_gw.History.Payload.{Reading, Call, build_payload}
use sipmedia_gw.History.Closing.{build_payload-closing}
use sipmedia_gw.History.Parser.{
  Stamp, Parser, Action, Event, writes, pushes, field, on_call, on_call_closed, closed_record,
  end_record, is_text,
}
use sipmedia_gw.History.Parser.Once.{on_call-closing}
use sipmedia_gw.History.Push.{World, is_success, push_history, perform, truncate_history}

-- What a push of records that are there leaves.
abbrev pub left : Option ℕ → World → World
left status w = if is_success status then truncate_history w else w

module _ (io : Reading) (url : String) (url_set : is_empty url ≡ false) where
  push_history-some :
      (xs : List Record) (r : Record) (ys : List Record) (status : Option ℕ) (w : World)
      → push_history io url (xs ++ (r ∷ ys)) status w
        ≡ left status (record w { sent = build_payload io (xs ++ (r ∷ ys)) ∷ w.sent })
  unfolding push_history
  push_history-some [] r ys status w = if_false _ _ _ url_set
  push_history-some (x ∷ xs) r ys status w = if_false _ _ _ url_set

  append_two : (xs : List Record) (r s : Record) → (xs ++ (r ∷ [])) ++ (s ∷ []) ≡ xs ++ (r ∷ s ∷ [])
  append_two [] r s = refl
  append_two (x ∷ xs) r s = ap (λ z. x ∷ z) (append_two xs r s)

  nothing_to_push : (status : Option ℕ) (w : World) → push_history io url [] status w ≡ w
  unfolding push_history
  nothing_to_push status w = refl

  left-sent : (status : Option ℕ) (w : World) → (left status w).sent ≡ w.sent
  left-sent status w = elim (Bool-cases (is_success status)) [
    | inl e ↦ ap (λ (z : World). z.sent) (if_true _ _ _ e)
    | inr e ↦ ap (λ (z : World). z.sent) (if_false _ _ _ e)
  ]

  left-file : (status : Option ℕ) (w : World) → is_success status ≡ true → (left status w).file ≡ []
  left-file status w e = ap (λ (z : World). z.file) (if_true _ _ _ e)

  -- The records of a call that closes, written and pushed.
  perform-closed :
      (a b : Record) (status : Option ℕ) (w : World)
      → perform io url status (writes a ∷ writes b ∷ pushes ∷ []) w
        ≡ left status (record w {
          file = w.file ++ (a ∷ b ∷ []);
          sent = build_payload io (w.file ++ (a ∷ b ∷ [])) ∷ w.sent;
        })
  unfolding perform
  perform-closed a b status w =
      ap (λ f. push_history io url f status (record w { file = f })) (append_two w.file a b)
      ∙ push_history-some w.file a (b ∷ []) status (record w { file = w.file ++ (a ∷ b ∷ []) })

  told :
      (b : Bool) (p : Parser) (q : Parser × List Action)
      → b ≡ false
      → (if b then (p, []) else q) ≡ q
  told b p q e = if_false _ _ _ e

  and_false : (a b : Bool) → b ≡ false → (a && b) ≡ false
  and_false true b e = e
  and_false false b e = refl

  closes :
      (read : String → Option Event) (now : Stamp) (ev : Event) (p : Parser)
      → is_text read (field "id" ev) p.last_final ≡ false
      → (on_call_closed read now ev p).1
        ≡ writes (closed_record read ev) ∷ writes (end_record read now) ∷ pushes ∷ []
  unfolding on_call_closed
  closes read now ev p l =
      ap (λ (z : Parser × List Action). z.1)
        (told _ p _ (and_false (not (is_empty (field "id" ev))) _ l))

  -- What is sent when a call closes with an identifier and a reason.
  abbrev pub Posted : String → String → Option ℕ → World → World → Type 0
  Posted id reason status w after =
      (call : Call) × (after.sent ≡ call ∷ w.sent)
      × (call.call_id ≡ id)
      × (call.close_reason ≡ reason)
      × ((is_success status ≡ true) → after.file ≡ [])

  -- Where a call closes with an identifier and a reason, an address to push to is set and this call
  -- was not the last to close, one payload is sent, which tells that identifier and that reason
  -- whatever the history held before; where the answer is of the 200s, the history is empty then.
  pub on_call-Posted :
      (read : String → Option Event) (now : Stamp) (ev : Event) (p : Parser) (status : Option ℕ)
      (w : World)
      → field "type" ev ≡ "CALL_CLOSED"
      → is_empty (field "id" ev) ≡ false
      → is_empty (field "param" ev) ≡ false
      → is_text read (field "id" ev) p.last_final ≡ false
      → Posted
          (field "id" ev)
          (field "param" ev)
          status
          w
          (perform io url status (on_call read now ev p).1 w)
  unfolding closed_record
  on_call-Posted read now ev p status w t i r l =
      let a = closed_record read ev in
      let b = end_record read now in
      let sent = build_payload io (w.file ++ (a ∷ b ∷ [])) in
      let tells =
        build_payload-closing io w.file (b ∷ []) (field "id" ev) (field "param" ev) _ _ _ i r
          (refl, _) in
      let written =
        ap (λ (z : Parser × List Action). z.1) (on_call-closing read now ev p t)
        ∙ closes read now ev p l in
      let whole = ap (λ z. perform io url status z w) written ∙ perform-closed a b status w in
      subst (Posted (field "id" ev) (field "param" ev) status w) (sym whole)
        (sent, left-sent status _, tells.0, tells.1, left-file status _)

  -- Records that another parser writes between the reading of the history and its truncation are in
  -- no payload: the one that is sent was built without them, and the next push finds nothing.
  pub push_history_loses :
      (r : Record) (lines extra : List Record) (status : Option ℕ) (w : World)
      → is_success status ≡ true
      → let grown = record w { file = (r ∷ lines) ++ extra } in
        let after = push_history io url (r ∷ lines) status grown in
        (after.sent ≡ build_payload io (r ∷ lines) ∷ w.sent)
        × (push_history io url after.file status after ≡ after)
  push_history_loses r lines extra status w e =
      let grown = record w { file = (r ∷ lines) ++ extra } in
      let after = push_history io url (r ∷ lines) status grown in
      let ends = push_history-some [] r lines status grown in
      let empty = ap (λ (z : World). z.file) ends ∙ left-file status _ e in
      (
        ap (λ (z : World). z.sent) ends ∙ left-sent status _,
        ap (λ f. push_history io url f status after) empty ∙ nothing_to_push status after,
      )
