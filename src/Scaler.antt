-- ===== src/Scaler.antt =====
-- deploy/scaler/src/Scaler.py and ScalerMedia.py: how many gateways run, and which are stopped.
pub mod Capacity
pub mod Slots
pub mod Stopping
pub mod Cleanup
mod Tests
use sipmedia_gw.Prelude.{
  ℕ, zero, suc, ◌+◌, ◌-◌, ◌/◌, ◌%◌, min, max, String, Bool, true, false, ◌&&◌, ◌||◌, Option, none,
  some, List, [], ◌∷◌, ◌++◌, Dict, insert, lookup, eqb, ltb, length, if◌then◌else◌,
}
use sipmedia_gw.Text.{before, parse_nat, text_gt}
use sipmedia_gw.Proxy.Entry.{Scalar, null, str, num, flag, field, is_text, truthy, render}

-- cpuRange.sort(reverse=True), which compares texts.
unfoldable pub place_desc : String → List String → List String
unfolding text_gt
place_desc x [] = x ∷ []
place_desc x (y ∷ ys) = let rest = place_desc x ys in if text_gt y x then y ∷ rest else x ∷ y ∷ ys

unfoldable pub sort_desc : List String → List String
unfolding place_desc
sort_desc [] = []
sort_desc (x ∷ xs) = place_desc x (sort_desc xs)

unfoldable pub repeat : ℕ → String → List String
repeat zero cpu = []
repeat (suc n) cpu = cpu ∷ repeat n cpu

-- int(cpu), where a machine of that many CPUs can be counted with.
abbrev pub positive : Option ℕ → Option ℕ
positive none = none
positive (some zero) = none
positive (some (suc k)) = some (suc k)

unfoldable pub cpu_count : String → Option ℕ
unfolding parse_nat
cpu_count cpu = positive (parse_nat cpu)

abbrev pub more : List String → Option (List String × ℕ) → Option (List String × ℕ)
more made none = none
more made (some (rest, left)) = some (made ++ rest, left)

-- The machines created over the kinds of machine, and the CPUs that are still missing; `none` where
-- an exception ends the run.
unfoldable pub fill : List String → ℕ → Option (List String × ℕ)
unfolding repeat cpu_count
fill [] n = some ([], n)
fill (cpu ∷ cpus) n = elim (cpu_count cpu) [
  | none ↦ none
  | some k ↦ more (repeat (n / k) cpu) (fill cpus (n % k))
]

abbrev pub last_kind : List String → Option String
last_kind [] = none
last_kind (x ∷ xs) = elim xs [ [] ↦ some x | y ∷ ys ↦ last_kind xs ]

-- One more of the kind that was tried last, for the CPUs still missing.
abbrev pub completed : List String → Option (List String × ℕ) → Option (List String)
completed kinds none = none
completed kinds (some (made, zero)) = some made
completed kinds (some (made, suc left)) = elim (last_kind kinds) [
  | none ↦ none
  | some cpu ↦ some (made ++ (cpu ∷ []))
]

-- upScale: the machines that are created for so many CPUs.
unfoldable pub up_scale : List String → ℕ → Option (List String)
unfolding sort_desc fill
up_scale kinds n = let sorted = sort_desc kinds in completed sorted (fill sorted n)

-- A time slot. `load_needs` is the number of gateways that so many calls need at the slot's loadMax:
-- their quotient, rounded up.
pub record Slot : Type 0 where
  pub unlocked_min : ℕ
  pub min_gw : ℕ
  pub max_gw : ℕ
  pub load_needs : ℕ → ℕ

pub data Move : Type 0 where
  up : ℕ → Move
  down : ℕ → Move
  stay : Move

-- The calls that scale goes by: the number that it is given, if that is not 0, else the gateways that
-- are not ready. Never more gateways are ready than there are.
unfoldable pub calls_of : Option ℕ → ℕ → ℕ → ℕ
calls_of none current ready = current - ready
calls_of (some zero) current ready = current - ready
calls_of (some (suc n)) current ready = suc n

-- The capacity that scale aims at: the ceiling of the source's quotient passes through `max` and
-- `min` with whole numbers.
unfoldable pub target_capacity : Slot → ℕ → ℕ
target_capacity slot in_call =
    min slot.max_gw (max (max slot.min_gw (slot.unlocked_min + in_call)) (slot.load_needs in_call))

unfoldable pub scale : Slot → Option ℕ → ℕ → ℕ → Move
unfolding calls_of target_capacity
scale slot incalls_num current ready =
    let target = target_capacity slot (calls_of incalls_num current ready) in
    if ltb current target
    then up (target - current)
    else if ltb target current
    then down (current - target)
    else stay

-- ScalerMedia. A gateway's entry as gwLoad reads it, in the order of the scan.
abbrev pub Entry : Type 0
Entry = Dict Scalar

unfoldable pub is_idle : Entry → Bool
unfolding field
is_idle gw = let state = field "gw_state" gw in is_text "created" state || is_text "stopped" state

unfoldable pub current_capacity : List Entry → ℕ
current_capacity gws = length gws

unfoldable pub ready_to_run : List Entry → ℕ
unfolding is_idle
ready_to_run [] = 0
ready_to_run (gw ∷ gws) = let n = ready_to_run gws in if is_idle gw then 1 + n else n

abbrev pub text_of : Option Scalar → Option String
text_of (some (str s)) = some s
text_of o = none

-- The address before the port; `none` where gw["gw_ip"] raises.
unfoldable pub address : Entry → Option String
unfolding before lookup
address gw = elim (text_of (lookup "gw_ip" gw)) [ none ↦ none | some ip ↦ some (before 58 ip) ]

abbrev pub kept : Entry → Option (List String × List Entry) → Option (List String × List Entry)
kept gw none = none
kept gw (some (ips, gws)) = some (ips, gw ∷ gws)

abbrev pub taken : String → Option (List String × List Entry) → Option (List String × List Entry)
taken ip none = none
taken ip (some (ips, gws)) = some (ip ∷ ips, gws)

-- The entry of a gateway that is being stopped, at the time of the clock's text.
unfoldable pub stopping_entry : String → Entry → Entry
unfolding insert
stopping_entry now gw = insert "start_time" (str now) (insert "gw_state" (str "stopping") gw)

-- downScale: the addresses that are destroyed, and the entries afterwards.
unfoldable pub down_scale : String → List Entry → ℕ → Option (List String × List Entry)
unfolding address is_idle stopping_entry
down_scale now gws zero = some ([], gws)
down_scale now [] (suc n) = some ([], [])
down_scale now (gw ∷ gws) (suc n) =
    let rest = down_scale now gws (suc n) in
    let fewer = down_scale now gws n in
    elim (address gw) [
      | none ↦ none
      | some ip ↦ if is_idle gw then taken ip (kept (stopping_entry now gw) fewer) else kept gw rest
    ]

abbrev pub age_over : ℕ → ℕ → Option (Bool × ℕ) → Option Bool
age_over threshold now none = none
age_over threshold now (some (false, t)) = none
age_over threshold now (some (true, t)) = some (ltb threshold (now - t))

-- Whether an entry is one of a gateway that has been stopping for too long.
unfoldable pub is_stale : (String → Option (Bool × ℕ)) → ℕ → ℕ → Entry → Option Bool
unfolding field truthy render
is_stale parse threshold now gw =
    if is_text "stopping" (field "gw_state" gw) && truthy (field "start_time" gw)
    then age_over threshold now (parse (render (field "start_time" gw)))
    else some false

abbrev pub joined : String → Option Bool → Option (List String) → Option (List String)
joined ip none rest = none
joined ip (some b) none = none
joined ip (some b) (some ips) = if b then some (ip ∷ ips) else some ips

-- ScalerMedia.cleanup up to the base class's: the addresses that are destroyed. `parse` reads a
-- timestamp: whether it has a time zone, and its seconds. The clock has one, and Python refuses to
-- subtract a time without one from a time with one: `none`.
unfoldable pub stale : (String → Option (Bool × ℕ)) → ℕ → ℕ → List Entry → Option (List String)
unfolding is_stale lookup render
stale parse threshold now [] = some []
stale parse threshold now (gw ∷ gws) =
    let rest = stale parse threshold now gws in
    elim (lookup "gw_ip" gw) [
      | none ↦ none
      | some ip ↦ joined (render ip) (is_stale parse threshold now gw) rest
    ]
