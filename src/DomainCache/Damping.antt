-- ===== src/DomainCache/Damping.antt =====
-- How the damping of switches counts the wins of a challenger.
use auto_squid.DomainCache.{
  Meta, Settings, DomainCache, Peers, much_faster, count_win, damping_allows_switch, or_empty,
  or_else_ttl,
}
use auto_squid.Base.{
  ℕ, zero, suc, ◌+◌, ◌≤◌, ◌<◌, ◌≡◌, ap, Bool, true, false, not, ◌&&◌, ◌||◌, some, [], ◌∷◌, arith,
  ◌==◌, nat_eq, Text, text_eq, pair_eq, option_eq, beq_refl, text, ◌∙◌,
}
use auto_squid.Dict.{lookup, put}
use auto_squid.Dict.Laws.{lookup-put}

-- the state after a challenger won `n` times in a row
unfoldable pub challenge : Settings → Peers → Text → Text → ℕ → DomainCache → DomainCache
challenge c p domain pid zero s = s
challenge c p domain pid (suc n) s =
    challenge c p domain pid n (damping_allows_switch c p domain pid s).1

-- the wins that are counted for a challenger
abbrev pub wins_of : Text → Text → DomainCache → ℕ
wins_of domain pid s = or_else_ttl 0 (lookup pid (or_empty (lookup domain s.damping_wins)))

lookup-here : (pid : Text) → lookup {V = ℕ} pid ((pid, 1) ∷ []) ≡ some 1
unfolding lookup
lookup-here pid = ground (arith, beq_refl pid)

blocked :
    (c : Settings) (p : Peers) (domain pid : Text) (s : DomainCache) (m : Meta)
    → c.damping_enabled ≡ true
    → lookup domain s.meta ≡ some m
    → (m.default_proxy == pid) ≡ false
    → (m.default_proxy == text "local"
        || p.known m.default_proxy && not (p.is_circuit_open m.default_proxy))
      ≡ true
    → much_faster c (p.ewma pid) (p.ewma m.default_proxy) ≡ false
    → wins_of domain pid s + 1 < c.min_wins
    → damping_allows_switch c p domain pid s ≡ (
      false,
      record s { damping_wins = put domain ((pid, 1) ∷ []) s.damping_wins; blocks = s.blocks + 1 },
    )
unfolding damping_allows_switch count_win
blocked c p domain pid s m on found other fit slow few =
    ground (arith, on, found, other, fit, slow, few)

-- With damping on and a threshold of three wins or more, a challenger with at most one win
-- counted that is not much faster than the other, pinned proxy in good health is never let
-- through, however often it wins in a row, and the pinned proxy stays.
pub challenge_blocked :
    (c : Settings) (p : Peers) (domain pid : Text) (n : ℕ) (s : DomainCache) (m : Meta)
    → c.damping_enabled ≡ true
    → lookup domain s.meta ≡ some m
    → (m.default_proxy == pid) ≡ false
    → (m.default_proxy == text "local"
        || p.known m.default_proxy && not (p.is_circuit_open m.default_proxy))
      ≡ true
    → much_faster c (p.ewma pid) (p.ewma m.default_proxy) ≡ false
    → 3 ≤ c.min_wins
    → wins_of domain pid s ≤ 1
    → ((damping_allows_switch c p domain pid (challenge c p domain pid n s)).0 ≡ false)
      × (lookup domain (challenge c p domain pid n s).meta ≡ some m)
unfolding challenge
challenge_blocked c p domain pid zero s m on found other fit slow three low = (
  ap (λ (r : Bool × DomainCache). r.0)
      (blocked c p domain pid s m on found other fit slow (omega (arith, three, low))),
  found,
)
challenge_blocked c p domain pid (suc n) s m on found other fit slow three low =
    let s' : DomainCache = record s {
      damping_wins = put domain ((pid, 1) ∷ []) s.damping_wins;
      blocks = s.blocks + 1;
    } in
    let step = blocked c p domain pid s m on found other fit slow (omega (arith, three, low)) in
    let one : wins_of domain pid s' ≡ 1 = ground (
      arith,
      lookup-put domain domain ((pid, 1) ∷ []) s.damping_wins,
      beq_refl domain,
      lookup-here pid,
    ) in
    let rest =
      challenge_blocked c p domain pid n s' m on found other fit slow three (omega (arith, one)) in
    let after = ap (λ (r : Bool × DomainCache). challenge c p domain pid n r.1) step in
    (
      ap (λ u. (damping_allows_switch c p domain pid u).0) after ∙ rest.0,
      ap (λ u. lookup domain u.meta) after ∙ rest.1,
    )
