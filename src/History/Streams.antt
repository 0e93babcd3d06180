-- ===== src/History/Streams.antt =====
-- src/logParse.py: the video streams that the payload tells of, and the duration.
use sipmedia_gw.Prelude.{
  ℕ, ◌+◌, ◌*◌, ◌≤◌, ◌<◌, String, ◌==◌, ◌≡◌, refl, ap, ◌∙◌, sym, subst, arith, Bool, true, false,
  not, ◌&&◌, ◌||◌, Option, some, List, [], ◌∷◌, ◌++◌, Bool-cases, inl, inr, if_true, if_false,
  if◌then◌else◌, le→leb,
}
use sipmedia_gw.Text.{is_empty, strip, lower}
use sipmedia_gw.History.Record.{
  Number, Record, unreadable, other, main_app, call_start, call_end, encoder, room, browsing,
  destination, call_closed, dtmf, media_sample, stats_value,
}
use sipmedia_gw.History.State.{Stats, Media, State}
use sipmedia_gw.History.Fold.{
  text, on_stats, on_encoder, closed_media, is_none, at_stream, put_stats, number_of, step, run,
}
use sipmedia_gw.History.Payload.{total_time}

abbrev Figures : Type 0
Figures = List (ℕ × Stats)

-- The same streams, after a reading at least.
abbrev Alike : Media → Media → Type 0
Alike m n = (m.video ≡ n.video) × (is_none m.samples ≡ false) × (is_none n.samples ≡ false)

on_encoder-media : (kind value : String) (s : State) → (on_encoder kind value s).media ≡ s.media
unfolding on_encoder
on_encoder-media kind value s = elim (Bool-cases (kind == "audio")) [
  | inl e ↦ ap (λ (t : State). t.media) (if_true _ _ _ e)
  | inr e ↦ elim (Bool-cases (kind == "video")) [
    | inl f ↦ ap (λ (t : State). t.media) (if_false _ _ _ e ∙ if_true _ _ _ f)
    | inr f ↦ ap (λ (t : State). t.media) (if_false _ _ _ e ∙ if_false _ _ _ f)
  ]
]

closed_video :
    (f : Bool) (m : Media)
    → is_none m.samples ≡ false
    → (closed_media f m).video ≡ (if f then [] else m.video)
closed_video f m h =
    ap (λ b. if f && not b then [] else m.video) h ∙ ap (λ b. if b then [] else m.video) (right f)
  where
    right : (b : Bool) → (b && true) ≡ b
    right true = refl
    right false = refl

not_none_append : (A : Type 0) (xs : List A) (x : A) → is_none (xs ++ (x ∷ [])) ≡ false
not_none_append A [] x = refl
not_none_append A (y ∷ xs) x = refl

ladder_video :
    (b c d : Bool) (m x y : Media)
    → (if b then m else if c then x else if d then y else m).video
      ≡ (if b then m.video else if c then x.video else if d then y.video else m.video)
ladder_video true c d m x y = refl
ladder_video false true d m x y = refl
ladder_video false false true m x y = refl
ladder_video false false false m x y = refl

ladder_samples :
    (b c d : Bool) (m x y : Media)
    → x.samples ≡ m.samples
    → y.samples ≡ m.samples
    → (if b then m else if c then x else if d then y else m).samples ≡ m.samples
ladder_samples true c d m x y e f = refl
ladder_samples false true d m x y e f = e
ladder_samples false false true m x y e f = f
ladder_samples false false false m x y e f = refl

skip_video :
    (f k : Bool) (s u : State)
    → u.media.video ≡ (if k then [] else s.media.video)
    → (if f && not k then s else u).media.video ≡ (if k then [] else s.media.video)
skip_video true false s u e = refl
skip_video true true s u e = e
skip_video false k s u e = e

skip_samples :
    (b : Bool) (s u : State)
    → u.media.samples ≡ s.media.samples
    → (if b then s else u).media.samples ≡ s.media.samples
skip_samples true s u e = refl
skip_samples false s u e = e

on_stats-video :
    (kind field : String) (stream : Option ℕ) (tx rx : Option Number) (m : Media)
    → (on_stats kind stream field tx rx m).video ≡ (
        if is_empty kind || is_empty field
        then m.video
        else if kind == "audio"
        then m.video
        else if kind == "video"
        then at_stream (number_of stream) (put_stats field tx rx) m.video
        else m.video)
unfolding on_stats
on_stats-video kind field stream tx rx m =
    ladder_video (is_empty kind || is_empty field) (kind == "audio") (kind == "video") m _ _

on_stats-samples :
    (kind field : String) (stream : Option ℕ) (tx rx : Option Number) (m : Media)
    → (on_stats kind stream field tx rx m).samples ≡ m.samples
unfolding on_stats
on_stats-samples kind field stream tx rx m =
    ladder_samples (is_empty kind || is_empty field) (kind == "audio") (kind == "video") m _ _ refl
      refl

step-Alike :
    (r : Record) (s t : State) → Alike s.media t.media → Alike (step r s).media (step r t).media
unfolding step
step-Alike unreadable s t h = h
step-Alike other s t h = h
step-Alike (main_app app) s t h = h
step-Alike (call_start raw timestamp url agent dirs) s t h = h
step-Alike (call_end raw timestamp) s t h = h
step-Alike (encoder kind value) s t h =
    let e = on_encoder-media (strip (text kind)) (strip (text value)) in
    subst (λ m. Alike m (on_encoder (strip (text kind)) (strip (text value)) t).media) (sym (e s))
      (subst (λ m. Alike s.media m) (sym (e t)) h)
step-Alike (room v) s t h = h
step-Alike (browsing v) s t h = h
step-Alike (destination uri domain) s t h = h
step-Alike (call_closed event id peer reason source dest) s t h =
    let k = strip (text event) == "CALL_CLOSED" in
    (
      skip_video s.close.is_final k s _ (closed_video k s.media h.1)
          ∙ ap (λ (v : Figures). if k then [] else v) h.0
          ∙ sym (skip_video t.close.is_final k t _ (closed_video k t.media h.2)),
      ap is_none (skip_samples (s.close.is_final && not k) s _ refl) ∙ h.1,
      ap is_none (skip_samples (t.close.is_final && not k) t _ refl) ∙ h.2,
    )
step-Alike (dtmf timestamp input) s t h =
    elim (Bool-cases (is_empty (text timestamp) || is_empty (strip (text input)))) [
      | inl e ↦ rw e h
      | inr e ↦ rw e h
    ]
step-Alike (media_sample seconds video) s t h =
    (refl, not_none_append _ s.media.samples _, not_none_append _ t.media.samples _)
step-Alike (stats_value kind stream field tx rx) s t h =
    let k = lower (strip (text kind)) in
    let f = strip (text field) in
    (
      on_stats-video k f stream tx rx s.media
          ∙ ap
              (λ (v : Figures).
                if is_empty k || is_empty f
                then v
                else if k == "audio"
                then v
                else if k == "video"
                then at_stream (number_of stream) (put_stats f tx rx) v
                else v)
              h.0
          ∙ sym (on_stats-video k f stream tx rx t.media),
      ap is_none (on_stats-samples k f stream tx rx s.media) ∙ h.1,
      ap is_none (on_stats-samples k f stream tx rx t.media) ∙ h.2,
    )

run-Alike :
    (rs : List Record) (s t : State)
    → Alike s.media t.media
    → Alike (run rs s).media (run rs t).media
unfolding run
run-Alike [] s t h = h
run-Alike (r ∷ rs) s t h = run-Alike rs (step r s) (step r t) (step-Alike r s t h)

-- The video streams after a reading and further records are the same whatever was read before the
-- reading: no table printed before it stays.
pub run-forgets :
    (seconds : Option Number) (video : Option String) (rs : List Record) (s t : State)
    → (run (media_sample seconds video ∷ rs) s).media.video
      ≡ (run (media_sample seconds video ∷ rs) t).media.video
unfolding run step
run-forgets seconds video rs s t =
    (run-Alike rs (step (media_sample seconds video) s) (step (media_sample seconds video) t)
      (refl, not_none_append _ s.media.samples _, not_none_append _ t.media.samples _)).0

-- A call that ends no earlier than it starts lasts the whole seconds between, in milliseconds too.
pub total_time-bounds :
    (start end : ℕ)
    → start ≤ end
    → let total = total_time (some start) (some end) in
      (start + total.seconds * 1000000 ≤ end)
      × (end < start + (total.seconds + 1) * 1000000)
      × (total.milliseconds ≡ total.seconds * 1000)
unfolding total_time
total_time-bounds start end h = rw (le→leb start end h) (omega arith, omega arith, refl)
