-- ===== src/History/Starting.antt =====
-- src/logParse.py: which start of a call the payload tells of.
use sipmedia_gw.Prelude.{
  String, ◌==◌, ◌≡◌, refl, ap, ◌∙◌, Bool, true, false, not, ◌&&◌, ◌||◌, Option, some, List, [], ◌∷◌,
  ◌++◌, All, Bool-cases, inl, inr, if_true, if_false,
}
use sipmedia_gw.Text.{is_empty, strip}
use sipmedia_gw.History.Record.{
  Directions, Record, unreadable, other, main_app, call_start, call_end, encoder, room, browsing,
  destination, call_closed, dtmf, media_sample, stats_value,
}
use sipmedia_gw.History.State.{Start, State, initial}
use sipmedia_gw.History.Fold.{text, either, on_start, on_encoder, step, run}
use sipmedia_gw.History.Payload.{Reading, build_payload, payload}
use sipmedia_gw.History.Closing.{run-append, either_given}

on_encoder-start : (kind value : String) (s : State) → (on_encoder kind value s).start ≡ s.start
unfolding on_encoder
on_encoder-start kind value s = elim (Bool-cases (kind == "audio")) [
  | inl e ↦ ap (λ (t : State). t.start) (if_true _ _ _ e)
  | inr e ↦ elim (Bool-cases (kind == "video")) [
    | inl f ↦ ap (λ (t : State). t.start) (if_false _ _ _ e ∙ if_true _ _ _ f)
    | inr f ↦ ap (λ (t : State). t.start) (if_false _ _ _ e ∙ if_false _ _ _ f)
  ]
]

-- Whether a record tells of a start.
abbrev pub is_starting : Record → Bool
is_starting (call_start raw timestamp url agent dirs) = true
is_starting r = false

-- Other records leave the start as it is.
step-not_starting : (r : Record) (s : State) → is_starting r ≡ false → (step r s).start ≡ s.start
unfolding step
step-not_starting unreadable s f = refl
step-not_starting other s f = refl
step-not_starting (main_app app) s f = refl
step-not_starting (call_start raw timestamp url agent dirs) s f = cc f
step-not_starting (call_end raw timestamp) s f = refl
step-not_starting (encoder kind value) s f =
    on_encoder-start (strip (text kind)) (strip (text value)) s
step-not_starting (room v) s f = refl
step-not_starting (browsing v) s f = refl
step-not_starting (destination uri domain) s f = refl
step-not_starting (call_closed event id peer reason source dest) s f =
    elim (Bool-cases (s.close.is_final && not (strip (text event) == "CALL_CLOSED"))) [
      | inl e ↦ ap (λ (t : State). t.start) (if_true _ _ _ e)
      | inr e ↦ ap (λ (t : State). t.start) (if_false _ _ _ e)
    ]
step-not_starting (dtmf timestamp input) s f =
    elim (Bool-cases (is_empty (text timestamp) || is_empty (strip (text input)))) [
      | inl e ↦ ap (λ (t : State). t.start) (if_true _ _ _ e)
      | inr e ↦ ap (λ (t : State). t.start) (if_false _ _ _ e)
    ]
step-not_starting (media_sample seconds video) s f = refl
step-not_starting (stats_value kind stream field tx rx) s f = refl

run-not_starting :
    (rs : List Record) (s : State)
    → All (λ r. is_starting r ≡ false) rs
    → (run rs s).start ≡ s.start
unfolding run
run-not_starting [] s q = refl
run-not_starting (r ∷ rs) s q = run-not_starting rs (step r s) q.1 ∙ step-not_starting r s q.0

step-start :
    (r : Record) (s : State)
    → is_empty s.start.timestamp ≡ false
    → (step r s).start.timestamp ≡ s.start.timestamp
unfolding step on_start
step-start unreadable s f = refl
step-start other s f = refl
step-start (main_app app) s f = refl
step-start (call_start raw timestamp url agent dirs) s f =
    either_given s.start.timestamp (text timestamp) f
step-start (call_end raw timestamp) s f = refl
step-start (encoder kind value) s f =
    ap (λ (t : Start). t.timestamp) (on_encoder-start (strip (text kind)) (strip (text value)) s)
step-start (room v) s f = refl
step-start (browsing v) s f = refl
step-start (destination uri domain) s f = refl
step-start (call_closed event id peer reason source dest) s f =
    elim (Bool-cases (s.close.is_final && not (strip (text event) == "CALL_CLOSED"))) [
      | inl e ↦ ap (λ (t : State). t.start.timestamp) (if_true _ _ _ e)
      | inr e ↦ ap (λ (t : State). t.start.timestamp) (if_false _ _ _ e)
    ]
step-start (dtmf timestamp input) s f =
    elim (Bool-cases (is_empty (text timestamp) || is_empty (strip (text input)))) [
      | inl e ↦ ap (λ (t : State). t.start.timestamp) (if_true _ _ _ e)
      | inr e ↦ ap (λ (t : State). t.start.timestamp) (if_false _ _ _ e)
    ]
step-start (media_sample seconds video) s f = refl
step-start (stats_value kind stream field tx rx) s f = refl

run-start :
    (rs : List Record) (s : State)
    → is_empty s.start.timestamp ≡ false
    → (run rs s).start.timestamp ≡ s.start.timestamp
unfolding run
run-start [] s f = refl
run-start (r ∷ rs) s f =
    let kept = step-start r s f in run-start rs (step r s) (ap is_empty kept ∙ f) ∙ kept

-- The first record that tells of a start, if its timestamp is not empty, is the one whose
-- timestamp the payload holds, whatever records come after it.
pub build_payload-start :
    (io : Reading) (before rest : List Record) (t : String) (raw url agent : Option String)
    (dirs : Option Directions)
    → is_empty t ≡ false
    → All (λ r. is_starting r ≡ false) before
    → (build_payload io
        (before ++ (call_start raw (some t) url agent dirs ∷ rest))).call_start.timestamp
      ≡ t
unfolding build_payload payload run step on_start
build_payload-start io before rest t raw url agent dirs f q =
    let s = run before initial in
    let none_yet = ap (λ (u : Start). u.timestamp) (run-not_starting before initial q) in
    let first : (step (call_start raw (some t) url agent dirs) s).start.timestamp ≡ t =
      ap (λ u. either u t) none_yet in
    ap (λ (u : State). u.start.timestamp)
      (run-append before (call_start raw (some t) url agent dirs ∷ rest) initial)
    ∙ run-start rest (step (call_start raw (some t) url agent dirs) s) (ap is_empty first ∙ f)
    ∙ first
