-- ===== src/Tests/Races.antt =====
-- Races at concrete inputs.
use auto_squid.Race.{
  raised, response, tunnel, Race, start, after, after_all, count, waited, Rounds, here, next,
  examine, others,
}
use auto_squid.Race.Accounts.{IsFair, Rounds-IsFair, Rounds-exhausted, Rounds-cleaned}
use auto_squid.Race.Forgotten.{after-losers, after_all-losers}
use auto_squid.Base.{
  ℕ, ◌+◌, ◌≤◌, ◌≡◌, ◌<◌, ◌==◌, false, some, refl, [], ◌∷◌, arith, nat_eq, text_eq, pair_eq,
  option_eq,
}

-- three candidates, of which the first fails and the second wins
abbrev first_failed : Race
first_failed = after ((7, response 503) ∷ []) [] (start 1 (7 ∷ 8 ∷ 9 ∷ []))

abbrev second_won : Race
second_won = after ((8, tunnel) ∷ []) [] first_failed

first-Rounds : Rounds (start 1 (7 ∷ 8 ∷ 9 ∷ [])) first_failed
unfolding start count
first-Rounds = next here (
    waited (start 1 (7 ∷ 8 ∷ 9 ∷ [])) ((7, response 503) ∷ []) [] refl (omega arith)
      (λ x. omega arith))

both-Rounds : Rounds (start 1 (7 ∷ 8 ∷ 9 ∷ [])) second_won
unfolding start count after examine others
both-Rounds =
    next first-Rounds
      (waited first_failed ((8, tunnel) ∷ []) [] refl (omega arith) (λ x. omega arith))

Rounds-IsFair_example : IsFair (7 ∷ 8 ∷ 9 ∷ []) second_won
Rounds-IsFair_example = Rounds-IsFair 1 (7 ∷ 8 ∷ 9 ∷ []) both-Rounds

lone-Rounds : Rounds (start 1 (7 ∷ [])) (after ((7, raised) ∷ []) [] (start 1 (7 ∷ [])))
unfolding start count
lone-Rounds =
    next here
      (waited (start 1 (7 ∷ [])) ((7, raised) ∷ []) [] refl (omega arith) (λ x. omega arith))

Rounds-exhausted_example :
    ((after ((7, raised) ∷ []) [] (start 1 (7 ∷ []))).launched ≡ 7 ∷ [])
    × ((x : ℕ)
        → count x (after ((7, raised) ∷ []) [] (start 1 (7 ∷ []))).completed ≡ count x (7 ∷ []))
unfolding start after examine
Rounds-exhausted_example = Rounds-exhausted 1 (7 ∷ []) lone-Rounds refl refl

distinct_three : (x : ℕ) → count x (7 ∷ 8 ∷ 9 ∷ []) ≤ 1
unfolding count
distinct_three x = ground arith

Rounds-cleaned_example :
    count 7 (7 ∷ 8 ∷ 9 ∷ [])
    ≡ count 7 second_won.unlaunched + 0 + count 7 second_won.losers + count 7 second_won.skipped
unfolding start after examine others
Rounds-cleaned_example = Rounds-cleaned 1 (7 ∷ 8 ∷ 9 ∷ []) 8 both-Rounds distinct_three refl 7

-- the first fails, the second wins, and the third is done in the same wait
abbrev three_done : Race
three_done =
    after ((7, raised) ∷ (8, response 200) ∷ (9, response 200) ∷ []) [] (start 3 (7 ∷ 8 ∷ 9 ∷ []))

after-losers_example :
    (three_done.winner ≡ some 8)
    × ((x : ℕ) → 0 < count x (9 ∷ []) → count x three_done.losers ≡ 0)
    × ((x : ℕ) → 0 < count x (7 ∷ []) → count x three_done.losers ≡ 1)
unfolding start count
after-losers_example =
    after-losers (start 3 (7 ∷ 8 ∷ 9 ∷ [])) ((7, raised) ∷ []) 8 (response 200)
      ((9, response 200) ∷ []) [] (λ x. omega arith) (λ x. ground arith) (refl, tt) refl

abbrev one_rejected : Race
one_rejected = after_all ((7, response 500) ∷ []) (8 ∷ 9 ∷ []) (start 3 (7 ∷ 8 ∷ 9 ∷ []))

abbrev won_later : Race
won_later = after_all ((8, response 200) ∷ []) (9 ∷ []) one_rejected

after_all-losers_example :
    (won_later.winner ≡ some 8)
    × (0 < count 7 won_later.completed)
    × (count 7 won_later.losers ≡ 0)
    × ((x : ℕ) → (x == 8) ≡ false → count x won_later.losers ≡ count x (8 ∷ 9 ∷ []))
unfolding start count examine
after_all-losers_example =
    after_all-losers (start 3 (7 ∷ 8 ∷ 9 ∷ [])) [] [] ((8, response 200) ∷ []) (8 ∷ 9 ∷ []) (9 ∷ [])
      7 500 8 (λ x. omega arith) (λ x. omega arith) (λ x. ground arith) (omega arith) refl refl
