-- ===== src/Race/Accounts.antt =====
-- Where the candidates of a staggered race are.
use auto_squid.Race.{
  Outcome, is_acceptable_win, Race, tasks, examine, launch, others, conclude, after, start, count,
  Splits, Round, waited, Rounds, here, next,
}
use auto_squid.Base.{
  ℕ, zero, suc, ◌+◌, ◌<◌, min, max, ◌≡◌, refl, ap, ◌∙◌, Option, none, some, List, [], ◌∷◌, ◌++◌,
  arith, if◌then◌else◌, if_elim, length-append, ◌==◌, nat_eq, text_eq, pair_eq, option_eq, length,
  take, drop, all, ◌≤◌, sym, length-drop, append-nil, append_assoc,
}

pub count-append : (x : ℕ) (xs ys : List ℕ) → count x (xs ++ ys) ≡ count x xs + count x ys
unfolding count
count-append x [] ys = omega arith
count-append x (t ∷ ts) ys = ground (arith, count-append x ts ys)

pub count-others :
    (x w : ℕ) (xs : List ℕ) → count x (others w xs) ≡ (if x == w then 0 else count x xs)
unfolding count others
count-others x w [] = ground arith
count-others x w (t ∷ ts) = ground (arith, count-others x w ts)

pub count-nil : (x : ℕ) → count x [] ≡ 0
unfolding count
count-nil x = refl

take-drop : (n : ℕ) (xs : List ℕ) → take n xs ++ drop n xs ≡ xs
take-drop zero xs = refl
take-drop (suc n) [] = refl
take-drop (suc n) (x ∷ xs) = ap (λ ys. x ∷ ys) (take-drop n xs)

record IsExamined (done : List (ℕ × Outcome)) (r : List ℕ × Option ℕ × List ℕ) : Type 0 where
  all_in : (x : ℕ) → count x (tasks done) ≡ count x r.0 + count x r.2
  whole : r.1 ≡ none → r.2 ≡ []
  winner_seen : (w : ℕ) → r.1 ≡ some w → 0 < count w r.0

examine-IsExamined : (done : List (ℕ × Outcome)) → IsExamined done (examine done)
unfolding examine count
examine-IsExamined [] = record {
  all_in = λ x. refl;
  whole = λ e. refl;
  winner_seen = λ w e. absurd (ground (arith, e));
}
examine-IsExamined ((t, o) ∷ done) =
    let rest = examine-IsExamined done in
    if_elim (IsExamined ((t, o) ∷ done)) (is_acceptable_win o)
      (λ _. record {
        all_in = λ x. omega arith;
        whole = λ e. absurd (ground (arith, e));
        winner_seen = λ w e. ground (arith, e);
      })
      (λ _. record {
        all_in = λ x. omega (arith, rest.all_in x);
        whole = rest.whole;
        winner_seen = λ w e. omega (arith, rest.winner_seen w e);
      })

-- every candidate is in one place, they are launched in order, and a wait has something to wait for
pub record IsFair (places : List ℕ) (s : Race) : Type 0 where
  pub all_in :
      (x : ℕ)
      → count x places
        ≡ count x s.running + count x s.unlaunched + count x s.completed + count x s.skipped
  pub in_order : s.launched ++ s.unlaunched ≡ places
  pub busy : s.winner ≡ none → 0 < length s.unlaunched → 0 < length s.running
  pub tidy : s.winner ≡ none → s.skipped ≡ []
  pub cleaned :
      (w x : ℕ)
      → s.winner ≡ some w
      → count x s.losers ≡ count x s.running + (if x == w then 0 else count x s.completed)
  pub won : (w : ℕ) → s.winner ≡ some w → 0 < count w s.completed

start-IsFair : (initial : ℕ) (places : List ℕ) → IsFair places (start initial places)
unfolding start count
start-IsFair initial places =
    let n = max 1 (min initial (length places)) in
    record {
      all_in = λ x. omega (
        arith,
        ap (count x) (take-drop n places),
        count-append x (take n places) (drop n places),
      );
      in_order = take-drop n places;
      busy = λ e more. omega (
        arith,
        more,
        ap length (take-drop n places),
        length-append (take n places) (drop n places),
        length-drop n places,
      );
      tidy = λ e. refl;
      cleaned = λ w x e. absurd (ground (arith, e));
      won = λ w e. absurd (ground (arith, e));
    }

launch-IsFair :
    (places ts : List ℕ) (s : Race)
    → ts ≡ s.unlaunched
    → s.winner ≡ none
    → ((x : ℕ)
        → count x places
          ≡ count x s.running + count x s.unlaunched + count x s.completed + count x s.skipped)
    → s.launched ++ s.unlaunched ≡ places
    → s.skipped ≡ []
    → IsFair places (launch ts s)
unfolding count
launch-IsFair places [] s at unwon all order tidy = record {
  all_in = all;
  in_order = order;
  busy = λ e more. absurd (ground (arith, at, more));
  tidy = λ e. tidy;
  cleaned = λ w x e. absurd (ground (arith, e, unwon));
  won = λ w e. absurd (ground (arith, e, unwon));
}
launch-IsFair places (t ∷ ts) s at unwon all order tidy = record {
  all_in = λ x. ground (arith, all x, at, count-append x s.running (t ∷ []));
  in_order = append_assoc s.launched (t ∷ []) ts ∙ (ap (λ u. s.launched ++ u) at ∙ order);
  busy = λ e more. omega (arith, length-append s.running (t ∷ []));
  tidy = λ e. tidy;
  cleaned = λ w x e. absurd (ground (arith, e, unwon));
  won = λ w e. absurd (ground (arith, e, unwon));
}

conclude-IsFair :
    (places : List ℕ) (done : List (ℕ × Outcome)) (r : List ℕ × Option ℕ × List ℕ) (still : List ℕ)
    (s : Race)
    → IsExamined done r
    → IsFair places s
    → s.winner ≡ none
    → Splits s.running done still
    → IsFair places (conclude r still s)
conclude-IsFair places done (seen, none, skipped) still s ex h unwon split =
    let t : Race = record s { running = still; completed = s.completed ++ seen } in
    launch-IsFair places s.unlaunched t refl unwon
      (λ x. omega (
        arith,
        h.all_in x,
        split x,
        ex.all_in x,
        ap (count x) (ex.whole refl),
        count-nil x,
        count-append x s.completed seen,
      ))
      h.in_order (h.tidy unwon)
conclude-IsFair places done (seen, some w, skipped) still s ex h unwon split = record {
  all_in = λ x. omega (
    arith,
    h.all_in x,
    split x,
    ex.all_in x,
    ap (count x) (h.tidy unwon),
    count-nil x,
    count-append x s.completed seen,
  );
  in_order = h.in_order;
  busy = λ e more. absurd (ground (arith, e));
  tidy = λ e. absurd (ground (arith, e));
  cleaned = λ v x e. ground (
    arith,
    e,
    count-append x still (others w (s.completed ++ seen)),
    count-others x w (s.completed ++ seen),
  );
  won = λ v e. ground (arith, e, ex.winner_seen w refl, count-append w s.completed seen);
}

Round-IsFair : (places : List ℕ) {s t : Race} → Round s t → IsFair places s → IsFair places t
unfolding after
Round-IsFair places (waited s done still unwon more split) h =
    conclude-IsFair places done (examine done) still s (examine-IsExamined done) h unwon split

-- At any point of a staggered race, each candidate is in one place: not launched yet, running,
-- completed, or not looked at after the winner. They are launched in the order given, and as long as
-- nobody has won and one is left to launch, some task runs, so that the race never waits for an
-- empty set of tasks.
pub Rounds-IsFair :
    (initial : ℕ) (places : List ℕ) {s : Race} → Rounds (start initial places) s → IsFair places s
Rounds-IsFair initial places here = start-IsFair initial places
Rounds-IsFair initial places (next r step) =
    Round-IsFair places step (Rounds-IsFair initial places r)

no_length : (xs : List ℕ) → length xs ≡ 0 → xs ≡ []
no_length [] h = refl
no_length (x ∷ xs) h = absurd (omega (arith, h))

-- A race that ends without a winner has launched every candidate, in order, and seen each of them
-- complete.
pub Rounds-exhausted :
    (initial : ℕ) (places : List ℕ) {s : Race}
    → Rounds (start initial places) s
    → s.winner ≡ none
    → length s.running + length s.unlaunched ≡ 0
    → (s.launched ≡ places) × ((x : ℕ) → count x s.completed ≡ count x places)
Rounds-exhausted initial places {s = s} r unwon over =
    let h = Rounds-IsFair initial places r in
    let idle : s.running ≡ [] = no_length s.running (omega (arith, over)) in
    let all_out : s.unlaunched ≡ [] = no_length s.unlaunched (omega (arith, over)) in
    (
      sym (append-nil s.launched) ∙ (ap (λ u. s.launched ++ u) (sym all_out) ∙ h.in_order),
      λ x. omega (
        arith,
        h.all_in x,
        ap (count x) idle,
        ap (count x) all_out,
        ap (count x) (h.tidy unwon),
        count-nil x,
      ),
    )

-- When a race of distinct candidates has a winner, every other candidate that was launched is among
-- those handed to the clean-up, once, save those that were done in the same wait and not looked at.
pub Rounds-cleaned :
    (initial : ℕ) (places : List ℕ) (w : ℕ) {s : Race}
    → Rounds (start initial places) s
    → ((x : ℕ) → count x places ≤ 1)
    → s.winner ≡ some w
    → (x : ℕ)
    → count x places
      ≡ count x s.unlaunched + (if x == w then 1 else 0) + count x s.losers + count x s.skipped
Rounds-cleaned initial places w {s = s} r distinct win x =
    let h = Rounds-IsFair initial places r in
    ground (arith, h.all_in x, h.cleaned w x win, h.won w win, distinct x)
