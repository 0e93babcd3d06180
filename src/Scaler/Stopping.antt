-- ===== src/Scaler/Stopping.antt =====
-- deploy/scaler/src/ScalerMedia.py: the gateways that are stopped, and the cleanup after them.
use sipmedia_gw.Prelude.{
  ℕ, zero, suc, ◌+◌, min, ◌≡◌, refl, subst, arith, String, ◌==◌, true, false, lookup, lookup-insert,
  if◌then◌else◌, Option, none, some, List, [], ◌∷◌, Bool-cases, Option-cases, inl, inr, length,
}
use sipmedia_gw.Proxy.Entry.{str}
use sipmedia_gw.Proxy.Entry.State.{field-insert}
use sipmedia_gw.Scaler.{
  Entry, is_idle, ready_to_run, address, kept, taken, stopping_entry, down_scale,
}

-- A gateway and what becomes of its entry when it is stopped at the time of the clock's text: it was
-- idle, and its state and time are written, and nothing else.
abbrev pub Marks : String → Entry → Entry → Type 0
Marks clock gw gw' =
    (is_idle gw ≡ true)
    × ((k : String)
        → lookup k gw' ≡ (
            if "start_time" == k
            then some (str clock)
            else if "gw_state" == k
            then some (str "stopping")
            else lookup k gw))

-- The entries before and after, in their places: each is as it was, or marked, and the addresses are
-- those of the marked ones, in their order.
pub data Marked (clock : String) : List String → List Entry → List Entry → Type 0 where
  none_left : Marked clock [] [] []
  unchanged :
      (ips : List String) (gw : Entry) (gws after : List Entry)
      → Marked clock ips gws after
      → Marked clock ips (gw ∷ gws) (gw ∷ after)
  marked :
      (ip : String) (ips : List String) (gw gw' : Entry) (gws after : List Entry)
      → address gw ≡ some ip
      → Marks clock gw gw'
      → Marked clock ips gws after
      → Marked clock (ip ∷ ips) (gw ∷ gws) (gw' ∷ after)

-- A run that asks for `n`: it stops as many gateways as it may, idle ones, at their addresses, and
-- leaves every other entry.
abbrev pub Stopped : String → ℕ → List Entry → List String × List Entry → Type 0
Stopped clock n before (ips, after) =
    (length ips ≡ min n (ready_to_run before))
    × (ready_to_run after + length ips ≡ ready_to_run before)
    × Marked clock ips before after

stopping-Marks :
    (clock : String) (gw : Entry) → is_idle gw ≡ true → Marks clock gw (stopping_entry clock gw)
unfolding stopping_entry
stopping-Marks clock gw idle = (idle, λ k. simp lookup-insert)

all-unchanged : (clock : String) (gws : List Entry) → Marked clock [] gws gws
all-unchanged clock [] = none_left
all-unchanged clock (gw ∷ gws) = unchanged [] gw gws gws (all-unchanged clock gws)

stopping-not_idle : (now : String) (gw : Entry) → is_idle (stopping_entry now gw) ≡ false
unfolding is_idle stopping_entry
stopping-not_idle now gw = simp field-insert

ready_idle :
    (gw : Entry) (gws : List Entry)
    → is_idle gw ≡ true
    → ready_to_run (gw ∷ gws) ≡ 1 + ready_to_run gws
unfolding ready_to_run
ready_idle gw gws h = rw h

ready_busy :
    (gw : Entry) (gws : List Entry)
    → is_idle gw ≡ false
    → ready_to_run (gw ∷ gws) ≡ ready_to_run gws
unfolding ready_to_run
ready_busy gw gws h = rw h

kept-Stopped :
    (clock : String) (n : ℕ) (gw : Entry) (gws : List Entry) (o : Option (List String × List Entry))
    (r : List String × List Entry)
    → is_idle gw ≡ false
    → ((q : List String × List Entry) → o ≡ some q → Stopped clock n gws q)
    → kept gw o ≡ some r
    → Stopped clock n (gw ∷ gws) r
kept-Stopped clock n gw gws none r busy f h = cc h
kept-Stopped clock n gw gws (some (ips, after)) r busy f h =
    let (a, b, c) = f (ips, after) refl in
    let same : (ips, gw ∷ after) ≡ r = cc h in
    let now = ready_busy gw gws busy in
    subst (Stopped clock n (gw ∷ gws)) same (
      omega (arith, a, now),
      omega (arith, b, now, ready_busy gw after busy),
      unchanged ips gw gws after c,
    )

taken-Stopped :
    (n : ℕ) (ip clock : String) (gw : Entry) (gws : List Entry)
    (o : Option (List String × List Entry)) (r : List String × List Entry)
    → address gw ≡ some ip
    → is_idle gw ≡ true
    → ((q : List String × List Entry) → o ≡ some q → Stopped clock n gws q)
    → taken ip (kept (stopping_entry clock gw) o) ≡ some r
    → Stopped clock (suc n) (gw ∷ gws) r
taken-Stopped n ip clock gw gws none r at idle f h = cc h
taken-Stopped n ip clock gw gws (some (ips, after)) r at idle f h =
    let (a, b, c) = f (ips, after) refl in
    let same : (ip ∷ ips, stopping_entry clock gw ∷ after) ≡ r = cc h in
    let now = ready_idle gw gws idle in
    subst (Stopped clock (suc n) (gw ∷ gws)) same (
      omega (arith, a, now),
      omega
          (arith, b, now, ready_busy (stopping_entry clock gw) after (stopping-not_idle clock gw)),
      marked ip ips gw (stopping_entry clock gw) gws after at (stopping-Marks clock gw idle) c,
    )

-- Where downScale ends without an exception, it stops as many gateways as it is asked to, or all the
-- idle ones where there are fewer: it destroys their addresses, writes the state "stopping" and the
-- time to their entries, and leaves every other entry and field, in their places.
pub down_scale-Stopped :
    (clock : String) (gws : List Entry) (n : ℕ) (r : List String × List Entry)
    → down_scale clock gws n ≡ some r
    → Stopped clock n gws r
unfolding down_scale ready_to_run
down_scale-Stopped clock gws zero r h =
    let same : ([], gws) ≡ r = cc h in
    subst (Stopped clock zero gws) same (omega arith, omega arith, all-unchanged clock _)
down_scale-Stopped clock [] (suc n) r h =
    let same : ([], []) ≡ r = cc h in
    subst (Stopped clock (suc n) []) same (omega arith, omega arith, all-unchanged clock _)
down_scale-Stopped clock (gw ∷ gws) (suc n) r h = elim (Option-cases (address gw)) [
  | inl e ↦ cc (rw (down_scale, e) at h)
  | inr (ip, e) ↦ elim (Bool-cases (is_idle gw)) [
    | inl f ↦
        taken-Stopped n ip clock gw gws (down_scale clock gws n) r e f
          (down_scale-Stopped clock gws n) (rw (down_scale, e, f) at h)
    | inr f ↦
        kept-Stopped clock (suc n) gw gws (down_scale clock gws (suc n)) r f
          (down_scale-Stopped clock gws (suc n)) (rw (down_scale, e, f) at h)
  ]
]
