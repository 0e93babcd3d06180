-- ===== src/Gateway/Browsing/Tests.antt =====
-- The watch over a conference on concrete rounds.
use sipmedia_gw.Prelude.{ℕ, ◌≡◌, refl, inl, inr, true, false, arith, none, some, List, [], ◌∷◌}
use sipmedia_gw.Gateway.Browsing.{
  Round, is_alone, since, hung_up, check_round, monitor_single, monitor_left,
}
use sipmedia_gw.Gateway.Browsing.Alone.{Alone, hung_up-Alone, monitor_single-Alone}

abbrev at : ℕ → ℕ → Round
at n time = record { offers_count = some true; participant_num = some n; now = time }

-- Two participants, then one for two minutes.
abbrev deserted : List Round
deserted = at 2 60 ∷ at 1 120 ∷ at 1 180 ∷ at 1 240 ∷ []

hung_up-Alone_example : Alone 120 deserted
unfolding monitor_single check_round is_alone
hung_up-Alone_example = hung_up-Alone 120 deserted refl

monitor_single-Alone_example : monitor_single 120 none deserted ≡ hung_up
unfolding is_alone
monitor_single-Alone_example =
    monitor_single-Alone 120 deserted (omega arith, (omega arith, (omega arith, (omega arith, _))))
      (refl, inr (refl, inl (refl, (refl, refl, inr (refl, refl, inl (omega arith))))))

-- A count of 0 is read as no count, and the time starts again.
empty : monitor_single 120 none (at 1 60 ∷ at 0 120 ∷ at 1 180 ∷ []) ≡ since (some 180)
unfolding monitor_single check_round is_alone
empty = refl

left : monitor_left (some false ∷ some true ∷ []) ≡ hung_up
unfolding monitor_left
left = refl
