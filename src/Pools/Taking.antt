-- ===== src/Pools/Taking.antt =====
-- Taking connections out, throwing stale ones away and closing idle ones keeps the counts right.
use auto_squid.Pools.{
  Conn, Sockets, Pool, generic, targeted, Pools, pool_of, proxy_of, number, stack, count_take,
  total_idle,
}
use auto_squid.Pools.Peeking.{pop_usable, found_count, put_stack, peek_stack, pool_peek}
use auto_squid.Pools.Accounts.{
  held-set_stack, total-set_stack, Distinct-set_stack, number-count_take, IsCounted, Shrinks,
  Shrinks-refl, Same,
}
use auto_squid.Base.{
  ℕ, ◌+◌, ◌-◌, ◌≡◌, refl, sym, ap, ◌∙◌, List, [], ◌∷◌, arith, if◌then◌else◌, subst, ◌==◌, nat_eq,
  Text, text_eq, pair_eq, option_eq, length,
}
use auto_squid.Dict.{lookup, Distinct}

-- `t` has the pools of `s`, and `n` taken off the count of the proxy of `key`
pub record IsTaken (key : Text) (n : ℕ) (s t : Pools) : Type 0 where
  conn_pool : t.conn_pool ≡ s.conn_pool
  target_pool : t.target_pool ≡ s.target_pool
  counts :
      (pk : Text)
      → number (lookup pk t.proxy_conn_count)
        ≡ number (lookup pk s.proxy_conn_count) - (if proxy_of key == pk then n else 0)
  begun : t.begun ≡ s.begun
  ended : t.ended ≡ s.ended
  pending : t.creates_by_key ≡ s.creates_by_key

put_stack-generic :
    (key : Text) (n : ℕ) (left : List Conn) (s t : Pools)
    → IsCounted s
    → IsTaken key n s t
    → length left + n ≡ length (stack (lookup key s.conn_pool))
    → Shrinks s (put_stack generic key left t)
unfolding total_idle
put_stack-generic key n left s t h taken len =
    let d : Distinct t.conn_pool = subst Distinct (sym taken.conn_pool) h.generic_keys in
    record {
      is_counted = record {
        generic_keys = Distinct-set_stack key left t.conn_pool d;
        target_keys = subst Distinct (sym taken.target_pool) h.target_keys;
        counted = λ pk. ground (
          arith,
          held-set_stack pk key left t.conn_pool d,
          taken.counts pk,
          h.counted pk,
          taken.conn_pool,
          taken.target_pool,
          len,
        );
      };
      fewer =
          ground (
            arith,
            total-set_stack key left t.conn_pool d,
            taken.conn_pool,
            taken.target_pool,
            len,
          );
      fewer_of = λ pk. ground (
        arith,
        held-set_stack pk key left t.conn_pool d,
        taken.conn_pool,
        taken.target_pool,
        len,
      );
      begun = taken.begun;
      ended = taken.ended;
      pending = taken.pending;
    }

put_stack-targeted :
    (key : Text) (n : ℕ) (left : List Conn) (s t : Pools)
    → IsCounted s
    → IsTaken key n s t
    → length left + n ≡ length (stack (lookup key s.target_pool))
    → Shrinks s (put_stack targeted key left t)
unfolding total_idle
put_stack-targeted key n left s t h taken len =
    let d : Distinct t.target_pool = subst Distinct (sym taken.target_pool) h.target_keys in
    record {
      is_counted = record {
        generic_keys = subst Distinct (sym taken.conn_pool) h.generic_keys;
        target_keys = Distinct-set_stack key left t.target_pool d;
        counted = λ pk. ground (
          arith,
          held-set_stack pk key left t.target_pool d,
          taken.counts pk,
          h.counted pk,
          taken.conn_pool,
          taken.target_pool,
          len,
        );
      };
      fewer = ground (
        arith,
        total-set_stack key left t.target_pool d,
        taken.conn_pool,
        taken.target_pool,
        len,
      );
      fewer_of = λ pk. ground (
        arith,
        held-set_stack pk key left t.target_pool d,
        taken.conn_pool,
        taken.target_pool,
        len,
      );
      begun = taken.begun;
      ended = taken.ended;
      pending = taken.pending;
    }

pub put_stack-Shrinks :
    (p : Pool) (key : Text) (n : ℕ) (left : List Conn) (s t : Pools)
    → IsCounted s
    → IsTaken key n s t
    → length left + n ≡ length (stack (lookup key (pool_of p s)))
    → Shrinks s (put_stack p key left t)
put_stack-Shrinks generic key n left s t h taken len = put_stack-generic key n left s t h taken len
put_stack-Shrinks targeted key n left s t h taken len =
    put_stack-targeted key n left s t h taken len

-- taking off `a`, then `b`
take_twice :
    (key : Text) (a b : ℕ) (s t : Pools)
    → Same s t
    → IsTaken key (a + b) s (count_take key b (count_take key a t))
unfolding count_take
take_twice key a b s t same = record {
  conn_pool = same.conn_pool;
  target_pool = same.target_pool;
  counts = λ pk. ground (
    arith,
    number-count_take key pk b (count_take key a t),
    number-count_take key pk a t,
    same.counts,
  );
  begun = same.begun;
  ended = same.ended;
  pending = same.pending;
}

pub take_once : (key : Text) (n : ℕ) (s t : Pools) → Same s t → IsTaken key n s (count_take key n t)
unfolding count_take
take_once key n s t same = record {
  conn_pool = same.conn_pool;
  target_pool = same.target_pool;
  counts = λ pk. ground (arith, number-count_take key pk n t, same.counts);
  begun = same.begun;
  ended = same.ended;
  pending = same.pending;
}

pop_usable-length :
    (net : Sockets) (st : List Conn)
    → length (pop_usable net st).2 + ((pop_usable net st).0 + found_count (pop_usable net st).1)
      ≡ length st
unfolding pop_usable
pop_usable-length net [] = omega arith
pop_usable-length net (c ∷ st) = ground (arith, pop_usable-length net st)

peek_stack-Shrinks :
    (net : Sockets) (p : Pool) (key : Text) (st : List Conn) (s : Pools)
    → IsCounted s
    → st ≡ stack (lookup key (pool_of p s))
    → Shrinks s (peek_stack net p key st s).1
unfolding peek_stack
peek_stack-Shrinks net p key [] s h at = Shrinks-refl s h
peek_stack-Shrinks net p key (c ∷ st) s h at =
    let r = pop_usable net (c ∷ st) in
    let t : Pools = record s { stale_discards = s.stale_discards + r.0 } in
    let same : Same s t = record {
      conn_pool = refl;
      target_pool = refl;
      counts = refl;
      begun = refl;
      ended = refl;
      pending = refl;
    } in
    put_stack-Shrinks p key (r.0 + found_count r.1) r.2 s
      (count_take key (found_count r.1) (count_take key r.0 t)) h
      (take_twice key r.0 (found_count r.1) s t same)
      (pop_usable-length net (c ∷ st) ∙ ap length at)

pub pool_peek-Shrinks :
    (net : Sockets) (p : Pool) (key : Text) (s : Pools)
    → IsCounted s
    → Shrinks s (pool_peek net p key s).1
unfolding pool_peek
pool_peek-Shrinks net p key s h =
    peek_stack-Shrinks net p key (stack (lookup key (pool_of p s))) s h refl
