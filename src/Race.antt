-- ===== src/Race.antt =====
-- Racing candidates against each other (`_race`, `_race_staggered` and `_is_acceptable_win` of
-- auto_squid/router.py). A candidate is its number; what `asyncio.wait` reports is an argument: the
-- tasks that are done, with what they returned, in the order of the set, and those that are not.
pub mod Accounts
pub mod Forgotten
use auto_squid.Base.{
  ℕ, ◌+◌, ◌<◌, min, max, ◌≡◌, Bool, true, false, Option, none, some, List, [], ◌∷◌, ◌++◌, ltb,
  if◌then◌else◌, ◌==◌, nat_eq, text_eq, pair_eq, option_eq, length, take, drop,
}

-- how a task ended: by an exception, with nothing, with a tunnel, or with the status of a response
pub data Outcome : Type 0 where
  raised nothing tunnel : Outcome
  response : ℕ → Outcome

-- `_is_acceptable_win`; a task that raised has no result
abbrev pub is_acceptable_win : Outcome → Bool
is_acceptable_win raised = false
is_acceptable_win nothing = false
is_acceptable_win tunnel = true
is_acceptable_win (response status) = ltb status 500

-- `launched` keeps the calls of `_make_race_task`, and `losers` the argument of the clean-up.
-- `skipped` holds the tasks of the last wait that the loop did not look at before it broke off; no
-- variable of the code does.
pub record Race : Type 0 where
  pub running : List ℕ
  pub unlaunched : List ℕ
  pub completed : List ℕ
  pub winner : Option ℕ
  pub losers : List ℕ
  pub launched : List ℕ
  pub skipped : List ℕ

abbrev pub tasks : List (ℕ × Outcome) → List ℕ
tasks [] = []
tasks ((t, o) ∷ done) = t ∷ tasks done

-- the loop over the tasks that are done: those it looked at, the winner, and those it did not reach
unfoldable pub examine : List (ℕ × Outcome) → List ℕ × Option ℕ × List ℕ
examine [] = ([], none, [])
examine ((t, o) ∷ done) =
    let (seen, winner, rest) = examine done in
    if is_acceptable_win o then (t ∷ [], some t, tasks done) else (t ∷ seen, winner, rest)

abbrev pub launch : List ℕ → Race → Race
launch [] s = s
launch (t ∷ ts) s = record s {
  running = s.running ++ t ∷ [];
  unlaunched = ts;
  launched = s.launched ++ t ∷ [];
}

-- the tasks other than the winner
unfoldable pub others : ℕ → List ℕ → List ℕ
others w [] = []
others w (t ∷ ts) = let rest = others w ts in if t == w then rest else t ∷ rest

abbrev pub conclude : List ℕ × Option ℕ × List ℕ → List ℕ → Race → Race
conclude (seen, none, skipped) still s =
    launch s.unlaunched (record s { running = still; completed = s.completed ++ seen })
conclude (seen, some w, skipped) still s = record s {
  running = still;
  completed = s.completed ++ seen;
  winner = some w;
  losers = still ++ others w (s.completed ++ seen);
  skipped = skipped;
}

-- one round of the loop of `_race_staggered`
unfoldable pub after : List (ℕ × Outcome) → List ℕ → Race → Race
unfolding examine others
after done still s = conclude (examine done) still s

-- `_race_staggered` up to its loop
unfoldable pub start : ℕ → List ℕ → Race
start initial places =
    let n = max 1 (min initial (length places)) in
    record {
      running = take n places;
      unlaunched = drop n places;
      completed = [];
      winner = none;
      losers = [];
      launched = take n places;
      skipped = [];
    }

unfoldable pub count : ℕ → List ℕ → ℕ
count x [] = 0
count x (t ∷ ts) = (if t == x then 1 else 0) + count x ts

-- the tasks that are done and those that are not make up those that ran
abbrev pub Splits : List ℕ → List (ℕ × Outcome) → List ℕ → Type 0
Splits running done still = (x : ℕ) → count x running ≡ count x (tasks done) + count x still

-- a round: the loop goes on while tasks run or are left to launch, and nobody has won
pub data Round : Race → Race → Type 0 where
  waited :
      (s : Race) (done : List (ℕ × Outcome)) (still : List ℕ)
      → s.winner ≡ none
      → 0 < length s.running + length s.unlaunched
      → Splits s.running done still
      → Round s (after done still s)

pub data Rounds (s : Race) : Race → Type 0 where
  here : Rounds s s
  next : {t u : Race} → Rounds s t → Round t u → Rounds s u

abbrev pub conclude_all : List ℕ × Option ℕ × List ℕ → List (ℕ × Outcome) → List ℕ → Race → Race
conclude_all (seen, none, skipped) done still s = record s {
  running = still;
  completed = s.completed ++ tasks done;
}
conclude_all (seen, some w, skipped) done still s = record s {
  running = still;
  completed = s.completed ++ tasks done;
  winner = some w;
  losers = still ++ others w (tasks done);
}

-- one round of the loop of `_race`, where everything is launched at once
unfoldable pub after_all : List (ℕ × Outcome) → List ℕ → Race → Race
unfolding examine others
after_all done still s = conclude_all (examine done) done still s
