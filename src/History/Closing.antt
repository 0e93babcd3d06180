-- ===== src/History/Closing.antt =====
-- src/logParse.py: which start and which closing of a call the payload tells of.
use sipmedia_gw.Prelude.{
  String, ◌==◌, ◌≡◌, refl, ap, ◌∙◌, arith, Bool, true, false, not, ◌&&◌, ◌||◌, Option, some, List,
  [], ◌∷◌, ◌++◌, All, Bool-cases, inl, inr, if_true, if_false,
}
use sipmedia_gw.Text.{is_empty, strip}
use sipmedia_gw.History.Record.{
  Record, unreadable, other, main_app, call_start, call_end, encoder, room, browsing, destination,
  call_closed, dtmf, media_sample, stats_value,
}
use sipmedia_gw.History.State.{Close, State, initial}
use sipmedia_gw.History.Fold.{text, either, on_closed, on_encoder, step, run}
use sipmedia_gw.History.Payload.{Reading, build_payload, payload}

-- Whether a record is the final closing of a call.
abbrev pub is_closing : Record → Bool
is_closing (call_closed event id peer reason source dest) = strip (text event) == "CALL_CLOSED"
is_closing r = false

-- The encoder lines leave everything but the encoders.
on_encoder-close : (kind value : String) (s : State) → (on_encoder kind value s).close ≡ s.close
unfolding on_encoder
on_encoder-close kind value s = elim (Bool-cases (kind == "audio")) [
  | inl e ↦ ap (λ (t : State). t.close) (if_true _ _ _ e)
  | inr e ↦ elim (Bool-cases (kind == "video")) [
    | inl f ↦ ap (λ (t : State). t.close) (if_false _ _ _ e ∙ if_true _ _ _ f)
    | inr f ↦ ap (λ (t : State). t.close) (if_false _ _ _ e ∙ if_false _ _ _ f)
  ]
]

skips : (b c : Bool) → b ≡ true → c ≡ false → (b && not c) ≡ true
skips b c h k = ground arith

-- Once a call is closed for good, other records say nothing of its closing.
step-close :
    (r : Record) (s : State)
    → s.close.is_final ≡ true
    → is_closing r ≡ false
    → (step r s).close ≡ s.close
unfolding step
step-close unreadable s f q = refl
step-close other s f q = refl
step-close (main_app app) s f q = refl
step-close (call_start raw timestamp url agent dirs) s f q = refl
step-close (call_end raw timestamp) s f q = refl
step-close (encoder kind value) s f q = on_encoder-close (strip (text kind)) (strip (text value)) s
step-close (room v) s f q = refl
step-close (browsing v) s f q = refl
step-close (destination uri domain) s f q = refl
step-close (call_closed event id peer reason source dest) s f q =
    ap (λ (t : State). t.close) (if_true _ _ _ (skips s.close.is_final _ f q))
step-close (dtmf timestamp input) s f q =
    elim (Bool-cases (is_empty (text timestamp) || is_empty (strip (text input)))) [
      | inl e ↦ ap (λ (t : State). t.close) (if_true _ _ _ e)
      | inr e ↦ ap (λ (t : State). t.close) (if_false _ _ _ e)
    ]
step-close (media_sample seconds video) s f q = refl
step-close (stats_value kind stream field tx rx) s f q = refl

run-close :
    (rs : List Record) (s : State)
    → s.close.is_final ≡ true
    → All (λ r. is_closing r ≡ false) rs
    → (run rs s).close ≡ s.close
unfolding run
run-close [] s f q = refl
run-close (r ∷ rs) s f q =
    let kept = step-close r s f q.0 in
    run-close rs (step r s) (ap (λ (c : Close). c.is_final) kept ∙ f) q.1 ∙ kept

pub run-append : (rs qs : List Record) (s : State) → run (rs ++ qs) s ≡ run qs (run rs s)
unfolding run
run-append [] qs s = refl
run-append (r ∷ rs) qs s = run-append rs qs (step r s)

pub either_given : (x y : String) → is_empty x ≡ false → either x y ≡ x
either_given x y h = rw (either, h) refl

abbrev pub closing : String → String → Option String → Option String → Option String → Record
closing id reason peer source dest =
    call_closed (some "CALL_CLOSED") (some id) peer (some reason) source dest

closed_by :
    (id reason : String) (peer source dest : Option String) (s : State)
    → (step (closing id reason peer source dest) s).close
      ≡ on_closed "CALL_CLOSED" (some id) peer (some reason) source dest s.close
unfolding step strip
closed_by id reason peer source dest s =
    ap (λ (t : State). t.close) (if_false (s.close.is_final && false) _ _ (ground arith))

final_after :
    (id reason : String) (peer source dest : Option String) (c : Close)
    → (on_closed "CALL_CLOSED" (some id) peer (some reason) source dest c).is_final ≡ true
unfolding on_closed
final_after id reason peer source dest c = ground arith

-- Where a call closes for good with an identifier and a reason that are not empty, and no other
-- such closing follows, the payload tells that identifier, that reason and "CALL_CLOSED" as the
-- last event, whatever came before and whatever other records come after.
pub build_payload-closing :
    (io : Reading) (before rest : List Record) (id reason : String)
    (peer source dest : Option String)
    → is_empty id ≡ false
    → is_empty reason ≡ false
    → All (λ r. is_closing r ≡ false) rest
    → let call = build_payload io (before ++ (closing id reason peer source dest ∷ rest)) in
      (call.call_id ≡ id) × (call.close_reason ≡ reason) × (call.last_event_type ≡ "CALL_CLOSED")
unfolding build_payload payload run on_closed
build_payload-closing io before rest id reason peer source dest i j q =
    let s = run before initial in
    let all = run-append before (closing id reason peer source dest ∷ rest) initial in
    let by = closed_by id reason peer source dest s in
    let kept =
      run-close rest (step (closing id reason peer source dest) s)
        (ap (λ (c : Close). c.is_final) by ∙ final_after id reason peer source dest s.close) q in
    let close = ap (λ (t : State). t.close) all ∙ kept ∙ by in
    (
      ap (λ (c : Close). c.call_id) close ∙ either_given id s.close.call_id i,
      ap (λ (c : Close). c.reason) close ∙ either_given reason s.close.reason j,
      ap (λ (c : Close). c.event) close,
    )
