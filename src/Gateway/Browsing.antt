-- ===== src/Gateway/Browsing.antt =====
-- src/browsing.py: the two threads that watch a conference and hang up. The browser is what each
-- round of a thread reads from it; times are in seconds.
pub mod Alone
mod Tests
use sipmedia_gw.Prelude.{
  ℕ, ◌+◌, Bool, true, false, ◌&&◌, not, Option, none, some, List, [], ◌∷◌, leb, eqb, if◌then◌else◌,
}

-- A round of checkLoop: whether the page offers the count, none for an exception, what it says of
-- the participants, none for an exception or no number, and the time.
pub record Round : Type 0 where
  pub offers_count : Option Bool
  pub participant_num : Option ℕ
  pub now : ℕ

-- participantNum and participantNum <= 1
unfoldable pub is_alone : Option ℕ → Bool
is_alone none = false
is_alone (some n) = not (eqb n 0) && leb n 1

-- What a round leaves: the time since which there is a single participant, the hang-up, or the end
-- of the thread without one.
pub data Watch : Type 0 where
  since : Option ℕ → Watch
  hung_up : Watch
  ended : Watch

abbrev pub single : ℕ → Option ℕ → ℕ → Watch
single threshold none now = since (some now)
single threshold (some start) now =
    if leb (start + threshold) now then hung_up else since (some start)

abbrev pub offered : Option Bool → Watch → Watch
offered none next = ended
offered (some false) next = ended
offered (some true) next = next

-- One round of monitorSingleParticipant.
unfoldable pub check_round : ℕ → Option ℕ → Round → Watch
unfolding is_alone
check_round threshold start round =
    offered round.offers_count
      (if is_alone round.participant_num then single threshold start round.now else since none)

-- monitorSingleParticipant over the rounds that there were.
unfoldable pub monitor_single : ℕ → Option ℕ → List Round → Watch
unfolding check_round
monitor_single threshold start [] = since start
monitor_single threshold start (round ∷ rounds) = elim (check_round threshold start round) [
  | since next ↦ monitor_single threshold next rounds
  | hung_up ↦ hung_up
  | ended ↦ ended
]

-- monitorLeftMeeting over what hasLeft says: an exception or an absent test, or whether the gateway
-- has left.
unfoldable pub monitor_left : List (Option Bool) → Watch
monitor_left [] = since none
monitor_left (none ∷ rounds) = ended
monitor_left (some true ∷ rounds) = hung_up
monitor_left (some false ∷ rounds) = monitor_left rounds
