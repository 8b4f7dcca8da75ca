-- ===== src/Policies/Coverage.antt =====
-- No candidate is lost between the batches of a race.
use auto_squid.Policies.{Site, is_known, first_batch, prep_http}
use auto_squid.Base.{
  ◌≡◌, ap, inl, inr, Bool, true, not, ◌&&◌, List, [], ◌∷◌, arith, Bool-cases, ◌==◌, nat_eq, Text,
  text_eq, pair_eq, option_eq, select, contains,
}

pub contains-select :
    (q : Text → Bool) (x : Text) (xs : List Text)
    → contains x (select q xs) ≡ (q x && contains x xs)
unfolding contains select
contains-select q x [] = ground arith
contains-select q x (y ∷ ys) = elim (Bool-cases (y == x)) [
  | inl same ↦
      let eq : y ≡ x = (text_eq.beq_iff y x).0 same in
      ground (arith, same, contains-select q x ys, ap q eq)
  | inr other ↦ ground (arith, other, contains-select q x ys)
]

-- A candidate of a race that the store knows stands in the first batch or among the later places,
-- and in only one of them; so does `local`.
pub prep_http-covers :
    (site : Site) (proxies : List Text) (host : Text) (escape : Bool) (pid : Text)
    → contains pid proxies ≡ true
    → is_known site pid ≡ true
    → contains pid (prep_http site proxies host escape).1
      ≡ not (contains pid (prep_http site proxies host escape).0)
unfolding prep_http
prep_http-covers site proxies host escape pid there known =
    let places = select (is_known site) (first_batch site host escape proxies) in
    ground (
      arith,
      there,
      known,
      contains-select (λ p. not (contains p places) && is_known site p) pid proxies,
    )
