-- ===== src/Race/Forgotten.antt =====
-- Candidates whose responses nobody closes.
use auto_squid.Race.{
  Outcome, response, is_acceptable_win, Race, tasks, examine, others, after, count, Splits,
  after_all, conclude_all,
}
use auto_squid.Race.Accounts.{count-append, count-others}
use auto_squid.Base.{
  ℕ, ◌+◌, ◌≤◌, Bool, true, false, if◌then◌else◌, ◌==◌, refl, ◌++◌, ◌<◌, ◌≡◌, ap, ◌∙◌, Option, none,
  some, List, [], ◌∷◌, arith, nat_eq, text_eq, pair_eq, option_eq,
}

tasks-append :
    (x : ℕ) (xs ys : List (ℕ × Outcome))
    → count x (tasks (xs ++ ys)) ≡ count x (tasks xs) + count x (tasks ys)
unfolding count
tasks-append x [] ys = omega arith
tasks-append x ((t, o) ∷ xs) ys = omega (arith, tasks-append x xs ys)

-- nobody among them can win
abbrev pub AllRejected : List (ℕ × Outcome) → Type 0
AllRejected [] = Unit
AllRejected ((t, o) ∷ done) = (is_acceptable_win o ≡ false) × AllRejected done

examine_winner :
    (failed : List (ℕ × Outcome)) (w : ℕ) (o : Outcome) (rest : List (ℕ × Outcome))
    → AllRejected failed
    → is_acceptable_win o ≡ true
    → examine (failed ++ (w, o) ∷ rest) ≡ (tasks failed ++ w ∷ [], some w, tasks rest)
unfolding examine
examine_winner [] w o rest lost won =
    let r = examine rest in
    ap (λ (b : Bool). if b then (w ∷ [], some w, tasks rest) else (w ∷ r.0, r.1, r.2)) won
examine_winner ((t, q) ∷ failed) w o rest lost won =
    let done = failed ++ (w, o) ∷ rest in
    let pass : List ℕ × Option ℕ × List ℕ → List ℕ × Option ℕ × List ℕ = λ r. (t ∷ r.0, r.1, r.2) in
    ap (λ (b : Bool). if b then (t ∷ [], some t, tasks done) else pass (examine done)) lost.0
    ∙ ap pass (examine_winner failed w o rest lost.1 won)

-- When a wait of the staggered race reports some candidates that failed, then the winner and others
-- behind it in the order of the set, whatever these returned, the winner is recorded, but none of
-- those behind it is handed to the clean-up. The failed ones are. Each task runs once and was not
-- completed before.
pub after-losers :
    (s : Race) (failed : List (ℕ × Outcome)) (w : ℕ) (o : Outcome) (rest : List (ℕ × Outcome))
    (still : List ℕ)
    → Splits s.running (failed ++ (w, o) ∷ rest) still
    → ((x : ℕ) → count x s.running + count x s.completed ≤ 1)
    → AllRejected failed
    → is_acceptable_win o ≡ true
    → let r = after (failed ++ (w, o) ∷ rest) still s in
      (r.winner ≡ some w)
      × ((x : ℕ) → 0 < count x (tasks rest) → count x r.losers ≡ 0)
      × ((x : ℕ) → 0 < count x (tasks failed) → count x r.losers ≡ 1)
unfolding after count
after-losers s failed w o rest still split once lost won =
    let done = failed ++ (w, o) ∷ rest in
    let seen = tasks failed ++ w ∷ [] in
    rw (examine_winner failed w o rest lost won) (
      refl,
      λ x late. ground (
        arith,
        late,
        split x,
        once x,
        tasks-append x failed ((w, o) ∷ rest),
        count-append x still (others w (s.completed ++ seen)),
        count-others x w (s.completed ++ seen),
        count-append x s.completed seen,
        count-append x (tasks failed) (w ∷ []),
      ),
      λ x early. ground (
        arith,
        early,
        split x,
        once x,
        tasks-append x failed ((w, o) ∷ rest),
        count-append x still (others w (s.completed ++ seen)),
        count-others x w (s.completed ++ seen),
        count-append x s.completed seen,
        count-append x (tasks failed) (w ∷ []),
      ),
    )

rejected_all :
    (r : List ℕ × Option ℕ × List ℕ) (done : List (ℕ × Outcome)) (still : List ℕ) (s : Race)
    → r.1 ≡ none
    → conclude_all r done still s
      ≡ record s { running = still; completed = s.completed ++ tasks done }
rejected_all (seen, none, skipped) done still s at = refl
rejected_all (seen, some w, skipped) done still s at = absurd (ground (arith, at))

won_all :
    (r : List ℕ × Option ℕ × List ℕ) (w x : ℕ) (done : List (ℕ × Outcome)) (still : List ℕ)
    (s : Race)
    → r.1 ≡ some w
    → let e = conclude_all r done still s in
      (e.winner ≡ some w)
      × (e.completed ≡ s.completed ++ tasks done)
      × (count x e.losers ≡ count x still + (if x == w then 0 else count x (tasks done)))
won_all (seen, none, skipped) w x done still s at = absurd (ground (arith, at))
won_all (seen, some v, skipped) w x done still s at = (
  at,
  refl,
  count-append x still (others v (tasks done)) ∙ ground (arith, at, count-others x v (tasks done)),
)

-- In `_race`, a wait ends with a response of 500 or above from one candidate and without a winner,
-- and the next wait has a winner. Then the first candidate is among the completed ones but is not
-- handed to the clean-up. Every candidate that still ran after the first wait is, but the winner.
-- Each task runs once.
pub after_all-losers :
    (s : Race) (front back second : List (ℕ × Outcome)) (still last : List ℕ) (t status w : ℕ)
    → Splits s.running (front ++ (t, response status) ∷ back) still
    → Splits still second last
    → ((x : ℕ) → count x s.running ≤ 1)
    → 500 ≤ status
    → (examine (front ++ (t, response status) ∷ back)).1 ≡ none
    → (examine second).1 ≡ some w
    → let first = after_all (front ++ (t, response status) ∷ back) still s in
      let r = after_all second last first in
      (r.winner ≡ some w)
      × (0 < count t r.completed)
      × (count t r.losers ≡ 0)
      × ((x : ℕ) → (x == w) ≡ false → count x r.losers ≡ count x still)
unfolding after_all count
after_all-losers s front back second still last t status w split split' once bad lost won =
    let done = front ++ (t, response status) ∷ back in
    let first : Race = record s { running = still; completed = s.completed ++ tasks done } in
    let made = λ (x : ℕ). won_all (examine second) w x second last first won in
    rw (rejected_all (examine done) done still s lost) (
      (made t).0,
      ground (
        arith,
        ap (count t) (made t).1,
        count-append t (s.completed ++ tasks done) (tasks second),
        count-append t s.completed (tasks done),
        tasks-append t front ((t, response status) ∷ back),
      ),
      ground (
        arith,
        (made t).2,
        split t,
        split' t,
        once t,
        tasks-append t front ((t, response status) ∷ back),
      ),
      λ x other. ground (arith, (made x).2, split' x, other),
    )
