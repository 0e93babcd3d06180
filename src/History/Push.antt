-- ===== src/History/Push.antt =====
-- src/logParse.py: appendHistory, readHistoryStable, truncateHistory and pushHistory on one history
-- file, into which several parsers write.
pub mod Stable
pub mod Posted
mod Tests
use sipmedia_gw.Prelude.{
  ℕ, suc, String, Bool, true, false, ◌&&◌, Option, none, some, List, [], ◌∷◌, ◌++◌, length, eqb,
  leb, ltb, if◌then◌else◌,
}
use sipmedia_gw.Text.{is_empty}
use sipmedia_gw.History.Record.{Record, other}
use sipmedia_gw.History.Payload.{Reading, Call, build_payload}
use sipmedia_gw.History.Parser.{Action, gw_start, writes, pushes}

-- The reading of a file until it is stable. `polls` are the contents that the file has at the polls
-- before the deadline, and `same` compares two lines.
module _ {ℓ} {A : Type ℓ} (same : A → A → Bool) where
  abbrev pub last_line : List A → Option A
  last_line [] = none
  last_line (x ∷ []) = some x
  last_line (x ∷ y ∷ xs) = last_line (y ∷ xs)

  abbrev pub same_last : Option A → Option A → Bool
  same_last none none = true
  same_last none (some y) = false
  same_last (some x) none = false
  same_last (some x) (some y) = same x y

  -- The number of lines and the last one are as before.
  unfoldable pub is_same_sig : List A → Option (List A) → Bool
  is_same_sig xs none = false
  is_same_sig xs (some ys) = eqb (length xs) (length ys) && same_last (last_line xs) (last_line ys)

  -- How often in a row the last poll was as the one before, what it showed, and those that follow.
  unfoldable pub poll : ℕ → Option (List A) → List (List A) → Option (List A)
  unfolding is_same_sig
  poll count seen [] = seen
  poll count seen (xs ∷ polls) =
      let stable = if is_same_sig xs seen then suc count else 0 in
      let rest = poll stable (some xs) polls in if leb 2 stable then some xs else rest

  unfoldable pub read_stable : List (List A) → Option (List A)
  unfolding poll
  read_stable polls = poll 0 none polls

-- The history file, and the payloads that were sent, the last first.
pub record World : Type 0 where
  pub file : List Record
  pub sent : List Call

abbrev pub append_history : Record → World → World
append_history r w = record w { file = w.file ++ (r ∷ []) }

abbrev pub truncate_history : World → World
truncate_history w = record w { file = [] }

-- A status of the 200s; `none` for a request that raises.
abbrev pub is_success : Option ℕ → Bool
is_success none = false
is_success (some status) = leb 200 status && ltb status 300

-- pushHistory once it has read `lines`: the file may have grown since.
unfoldable pub push_history : Reading → String → List Record → Option ℕ → World → World
unfolding build_payload
push_history io url [] status w = w
push_history io url (r ∷ lines) status w =
    let after = record w { sent = build_payload io (r ∷ lines) ∷ w.sent } in
    if is_empty url then w else if is_success status then truncate_history after else after

-- The actions of a line, while no other parser writes.
unfoldable pub perform : Reading → String → Option ℕ → List Action → World → World
unfolding push_history
perform io url status [] w = w
perform io url status (gw_start now page ∷ actions) w =
    perform io url status actions (append_history other w)
perform io url status (writes r ∷ actions) w = perform io url status actions (append_history r w)
perform io url status (pushes ∷ actions) w =
    perform io url status actions (push_history io url w.file status w)
