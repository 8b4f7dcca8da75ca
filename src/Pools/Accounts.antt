-- ===== src/Pools/Accounts.antt =====
-- What taking connections out of the pools does to the counts.
use auto_squid.Pools.{
  Conn, Pools, proxy_of, number, stack, put_positive, count_take, count_put, total_idle,
}
use auto_squid.Pools.Peeking.{set_stack}
use auto_squid.Base.{
  ℕ, ◌+◌, ◌-◌, ◌≤◌, ◌≡◌, refl, sym, ap, ◌∙◌, Option, none, some, List, [], ◌∷◌, arith,
  if◌then◌else◌, subst, ◌==◌, nat_eq, Text, text_eq, pair_eq, option_eq, length,
}
use auto_squid.Dict.{Dict, total, lookup, put, remove, Distinct}
use auto_squid.Dict.Laws.{lookup-put, lookup-remove, Distinct-put, Distinct-remove, remove_absent}
use auto_squid.Dict.Measure.{measured, total-put, total-remove}

-- how many connections a pool holds that go to a proxy
unfoldable pub held : Text → Dict Text (List Conn) → ℕ
held pk [] = 0
held pk ((key, st) ∷ d) = (if proxy_of key == pk then length st else 0) + held pk d

held-put :
    (pk key : Text) (st : List Conn) (d : Dict Text (List Conn))
    → held pk (put key st d) + (if proxy_of key == pk then length (stack (lookup key d)) else 0)
      ≡ held pk d + (if proxy_of key == pk then length st else 0)
unfolding held put lookup
held-put pk key st [] = ground arith
held-put pk key st ((k, u) ∷ d) = ground (arith, held-put pk key st d, text_eq.beq_iff k key)

held-absent :
    (pk key : Text) (d : Dict Text (List Conn))
    → lookup key d ≡ none
    → held pk (remove key d) ≡ held pk d
held-absent pk key d h = ap (held pk) (remove_absent key d h)

held-remove :
    (pk key : Text) (d : Dict Text (List Conn))
    → Distinct d
    → held pk (remove key d) + (if proxy_of key == pk then length (stack (lookup key d)) else 0)
      ≡ held pk d
unfolding held remove lookup
held-remove pk key [] h = ground arith
held-remove pk key ((k, u) ∷ d) h =
    ground (arith, held-remove pk key d h.1, held-absent pk key d, text_eq.beq_iff k key, h.0)

pub held-set_stack :
    (pk key : Text) (left : List Conn) (d : Dict Text (List Conn))
    → Distinct d
    → held pk (set_stack key left d)
        + (if proxy_of key == pk then length (stack (lookup key d)) else 0)
      ≡ held pk d + (if proxy_of key == pk then length left else 0)
held-set_stack pk key [] d h = ground (arith, held-remove pk key d h)
held-set_stack pk key (c ∷ st) d h = held-put pk key (c ∷ st) d

stack_measured : (o : Option (List Conn)) → length (stack o) ≡ measured length o
stack_measured none = refl
stack_measured (some st) = refl

pub total-set_stack :
    (key : Text) (left : List Conn) (d : Dict Text (List Conn))
    → Distinct d
    → total length (set_stack key left d) + length (stack (lookup key d))
      ≡ total length d + length left
total-set_stack key [] d h =
    omega (arith, total-remove length key d h, stack_measured (lookup key d))
total-set_stack key (c ∷ st) d h =
    omega (arith, total-put length key (c ∷ st) d, stack_measured (lookup key d))

pub Distinct-set_stack :
    (key : Text) (left : List Conn) (d : Dict Text (List Conn))
    → Distinct d
    → Distinct (set_stack key left d)
Distinct-set_stack key [] d h = Distinct-remove key d h
Distinct-set_stack key (c ∷ st) d h = Distinct-put key (c ∷ st) d h

pub number-put_positive :
    (key pk : Text) (n : ℕ) (d : Dict Text ℕ)
    → number (lookup pk (put_positive key n d)) ≡ (if key == pk then n else number (lookup pk d))
unfolding put_positive
number-put_positive key pk n d = ground (arith, lookup-put key pk n d, lookup-remove key pk d)

pub number-put :
    (key pk : Text) (n : ℕ) (d : Dict Text ℕ)
    → number (lookup pk (put key n d)) ≡ (if key == pk then n else number (lookup pk d))
number-put key pk n d = ground (arith, lookup-put key pk n d)

pub number-count_take :
    (key pk : Text) (n : ℕ) (s : Pools)
    → number (lookup pk (count_take key n s).proxy_conn_count)
      ≡ number (lookup pk s.proxy_conn_count) - (if proxy_of key == pk then n else 0)
unfolding count_take
number-count_take key pk n s = ground (
  arith,
  number-put_positive (proxy_of key) pk (number (lookup (proxy_of key) s.proxy_conn_count) - n)
      s.proxy_conn_count,
  text_eq.beq_iff (proxy_of key) pk,
)

pub number-count_put :
    (key pk : Text) (n : ℕ) (s : Pools)
    → number (lookup pk (count_put key n s).proxy_conn_count)
      ≡ number (lookup pk s.proxy_conn_count) + (if proxy_of key == pk then n else 0)
unfolding count_put
number-count_put key pk n s = ground (
  arith,
  number-put (proxy_of key) pk (number (lookup (proxy_of key) s.proxy_conn_count) + n)
      s.proxy_conn_count,
  text_eq.beq_iff (proxy_of key) pk,
)

-- the count of each proxy is what both pools hold for it
pub record IsCounted (s : Pools) : Type 0 where
  pub generic_keys : Distinct s.conn_pool
  pub target_keys : Distinct s.target_pool
  pub counted :
      (pk : Text)
      → number (lookup pk s.proxy_conn_count) ≡ held pk s.conn_pool + held pk s.target_pool

-- the counts stay right and no proxy holds more, while nothing is being opened or finished
pub record Shrinks (s t : Pools) : Type 0 where
  pub is_counted : IsCounted t
  pub fewer : total_idle t ≤ total_idle s
  pub fewer_of :
      (pk : Text)
      → held pk t.conn_pool + held pk t.target_pool ≤ held pk s.conn_pool + held pk s.target_pool
  pub begun : t.begun ≡ s.begun
  pub ended : t.ended ≡ s.ended
  pub pending : t.creates_by_key ≡ s.creates_by_key

pub Shrinks-refl : (s : Pools) → IsCounted s → Shrinks s s
Shrinks-refl s h = record {
  is_counted = h;
  fewer = omega arith;
  fewer_of = λ pk. omega arith;
  begun = refl;
  ended = refl;
  pending = refl;
}

pub Shrinks-trans : (s t u : Pools) → Shrinks s t → Shrinks t u → Shrinks s u
Shrinks-trans s t u a b = record {
  is_counted = b.is_counted;
  fewer = omega (arith, a.fewer, b.fewer);
  fewer_of = λ pk. omega (arith, a.fewer_of pk, b.fewer_of pk);
  begun = b.begun ∙ a.begun;
  ended = b.ended ∙ a.ended;
  pending = b.pending ∙ a.pending;
}

-- only other counters differ
pub record Same (s t : Pools) : Type 0 where
  pub conn_pool : t.conn_pool ≡ s.conn_pool
  pub target_pool : t.target_pool ≡ s.target_pool
  pub counts : t.proxy_conn_count ≡ s.proxy_conn_count
  pub begun : t.begun ≡ s.begun
  pub ended : t.ended ≡ s.ended
  pub pending : t.creates_by_key ≡ s.creates_by_key

pub Same-refl : (s : Pools) → Same s s
Same-refl s = record {
  conn_pool = refl;
  target_pool = refl;
  counts = refl;
  begun = refl;
  ended = refl;
  pending = refl;
}

pub Same-trans : (s t u : Pools) → Same s t → Same t u → Same s u
Same-trans s t u a b = record {
  conn_pool = b.conn_pool ∙ a.conn_pool;
  target_pool = b.target_pool ∙ a.target_pool;
  counts = b.counts ∙ a.counts;
  begun = b.begun ∙ a.begun;
  ended = b.ended ∙ a.ended;
  pending = b.pending ∙ a.pending;
}

pub Same-Shrinks : (s t : Pools) → IsCounted s → Same s t → Shrinks s t
unfolding total_idle
Same-Shrinks s t h same = record {
  is_counted = record {
    generic_keys = subst Distinct (sym same.conn_pool) h.generic_keys;
    target_keys = subst Distinct (sym same.target_pool) h.target_keys;
    counted = λ pk. cc (h.counted pk, same.counts, same.conn_pool, same.target_pool);
  };
  fewer = ground (arith, same.conn_pool, same.target_pool);
  fewer_of = λ pk. ground (arith, same.conn_pool, same.target_pool);
  begun = same.begun;
  ended = same.ended;
  pending = same.pending;
}
