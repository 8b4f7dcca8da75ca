-- ===== src/Pools/Opening.antt =====
-- What a connection that is opened, refused or cancelled does to the counts.
use auto_squid.Pools.{
  Pools, proxy_of, number, stack, bucket_key, count_put, total_idle, end_create, mark_cluster_ever,
  index_target_key,
}
use auto_squid.Pools.Filling.{
  Flight, new_conn, land_generic, land_targeted, mark_source, land, land_at, count_failed, fail,
  cancel,
}
use auto_squid.Pools.Accounts.{
  held, held-set_stack, total-set_stack, Distinct-set_stack, number-put_positive, number-count_put,
  IsCounted,
}
use auto_squid.Base.{
  ℕ, ◌+◌, ◌-◌, ◌≡◌, refl, Bool, true, false, Option, none, some, [], ◌∷◌, arith, if◌then◌else◌,
  ◌==◌, nat_eq, Text, text_eq, pair_eq, option_eq, contains,
}
use auto_squid.Dict.{lookup}

pub proxy_of-plain : (key : Text) → contains b'|' key ≡ false → proxy_of key ≡ key
unfolding proxy_of contains
proxy_of-plain [] h = refl
proxy_of-plain (c ∷ key) h = ground (arith, h, proxy_of-plain key)

pub proxy_of-bucket_key :
    (key target : Text) → contains b'|' key ≡ false → proxy_of (bucket_key key target) ≡ key
unfolding proxy_of contains
proxy_of-bucket_key [] target h = refl
proxy_of-bucket_key (c ∷ key) target h = ground (arith, h, proxy_of-bucket_key key target)

abbrev pub one_if : Text → Text → ℕ
one_if pk other = if pk == other then 1 else 0

-- one creation for `pk` is over
pub record Ends (pk : Text) (s t : Pools) : Type 0 where
  pub is_counted : IsCounted t
  pub idle : total_idle t ≡ total_idle s
  pub of_proxy :
      (other : Text)
      → held other t.conn_pool + held other t.target_pool
        ≡ held other s.conn_pool + held other s.target_pool
  pub begun : t.begun ≡ s.begun
  pub ended : t.ended ≡ s.ended + 1
  pub pending :
      (other : Text)
      → number (lookup other t.creates_by_key)
        ≡ number (lookup other s.creates_by_key) - one_if pk other

end_create-Ends :
    (pk : Text) (bucket : Option Text) (s : Pools)
    → IsCounted s
    → Ends pk s (end_create pk bucket s)
unfolding end_create total_idle
end_create-Ends pk bucket s h = record {
  is_counted = record {
    generic_keys = h.generic_keys;
    target_keys = h.target_keys;
    counted = h.counted;
  };
  idle = refl;
  of_proxy = λ other. refl;
  begun = refl;
  ended = refl;
  pending = λ other. ground (
    arith,
    number-put_positive pk other (number (lookup pk s.creates_by_key) - 1) s.creates_by_key,
    text_eq.beq_iff pk other,
  );
}

-- one creation for `pk` is over and its connection stands in a pool
pub record Lands (pk : Text) (s t : Pools) : Type 0 where
  pub is_counted : IsCounted t
  pub idle : total_idle t ≡ total_idle s + 1
  pub of_proxy :
      (other : Text)
      → held other t.conn_pool + held other t.target_pool
        ≡ held other s.conn_pool + held other s.target_pool + one_if pk other
  pub begun : t.begun ≡ s.begun
  pub ended : t.ended ≡ s.ended + 1
  pub pending :
      (other : Text)
      → number (lookup other t.creates_by_key)
        ≡ number (lookup other s.creates_by_key) - one_if pk other

land_generic-Lands :
    (id now : ℕ) (pk : Text) (s t : Pools)
    → proxy_of pk ≡ pk
    → Ends pk s t
    → Lands pk s (land_generic id now pk t)
unfolding land_generic total_idle count_put
land_generic-Lands id now pk s t aim e =
    let st = new_conn id now false ∷ stack (lookup pk t.conn_pool) in
    let h = e.is_counted in
    record {
      is_counted = record {
        generic_keys = Distinct-set_stack pk st t.conn_pool h.generic_keys;
        target_keys = h.target_keys;
        counted = λ other. ground (
          arith,
          number-count_put pk other 1 t,
          held-set_stack other pk st t.conn_pool h.generic_keys,
          h.counted other,
        );
      };
      idle = ground (arith, total-set_stack pk st t.conn_pool h.generic_keys, e.idle);
      of_proxy = λ other.
          ground
            (arith, held-set_stack other pk st t.conn_pool h.generic_keys, e.of_proxy other, aim);
      begun = e.begun;
      ended = e.ended;
      pending = e.pending;
    }

mark_source-Ends :
    (pk : Text) (cluster : Bool) (key : Text) (s t : Pools)
    → Ends pk s t
    → Ends pk s (mark_source cluster key t)
unfolding mark_cluster_ever total_idle
mark_source-Ends pk false key s t e = e
mark_source-Ends pk true key s t e = record {
  is_counted = record {
    generic_keys = e.is_counted.generic_keys;
    target_keys = e.is_counted.target_keys;
    counted = e.is_counted.counted;
  };
  idle = e.idle;
  of_proxy = e.of_proxy;
  begun = e.begun;
  ended = e.ended;
  pending = e.pending;
}

land_targeted-Lands :
    (id now : ℕ) (cluster : Bool) (pk key : Text) (s t : Pools)
    → proxy_of key ≡ pk
    → Ends pk s t
    → Lands pk s (land_targeted id now cluster key t)
unfolding land_targeted total_idle count_put index_target_key
land_targeted-Lands id now cluster pk key s t0 aim e0 =
    let t = mark_source cluster key t0 in
    let e = mark_source-Ends pk cluster key s t0 e0 in
    let st = new_conn id now cluster ∷ stack (lookup key t.target_pool) in
    let h = e.is_counted in
    record {
      is_counted = record {
        generic_keys = h.generic_keys;
        target_keys = Distinct-set_stack key st t.target_pool h.target_keys;
        counted = λ other. ground (
          arith,
          number-count_put key other 1 t,
          held-set_stack other key st t.target_pool h.target_keys,
          h.counted other,
        );
      };
      idle = ground (arith, total-set_stack key st t.target_pool h.target_keys, e.idle);
      of_proxy = λ other.
          ground
            (arith, held-set_stack other key st t.target_pool h.target_keys, e.of_proxy other, aim);
      begun = e.begun;
      ended = e.ended;
      pending = e.pending;
    }

-- the pool key that a flight is for
abbrev pub pool_key : Text → Option Text → Text
pool_key pk none = pk
pool_key pk (some key) = key

land_at-Lands :
    (id now : ℕ) (cluster : Bool) (pk : Text) (bucket : Option Text) (s : Pools)
    → proxy_of (pool_key pk bucket) ≡ pk
    → IsCounted s
    → Lands pk s (land_at id now cluster pk bucket s)
unfolding land_at
land_at-Lands id now cluster pk none s aim h =
    land_generic-Lands id now pk s (end_create pk none s) aim (end_create-Ends pk none s h)
land_at-Lands id now cluster pk (some key) s aim h =
    land_targeted-Lands id now cluster pk key s (end_create pk (some key) s) aim
      (end_create-Ends pk (some key) s h)

pub land-Lands :
    (id now : ℕ) (f : Flight) (s : Pools)
    → proxy_of (pool_key f.proxy_key f.bucket) ≡ f.proxy_key
    → IsCounted s
    → Lands f.proxy_key s (land id now f s)
unfolding land
land-Lands id now f s aim h = land_at-Lands id now f.cluster f.proxy_key f.bucket s aim h

pub cancel-Ends : (f : Flight) (s : Pools) → IsCounted s → Ends f.proxy_key s (cancel f s)
unfolding cancel
cancel-Ends f s h = end_create-Ends f.proxy_key f.bucket s h

count_failed-Ends :
    (pk : Text) (bucket : Option Text) (s t : Pools)
    → Ends pk s t
    → Ends pk s (count_failed bucket t)
unfolding total_idle
count_failed-Ends pk none s t e = e
count_failed-Ends pk (some key) s t e = record {
  is_counted = record {
    generic_keys = e.is_counted.generic_keys;
    target_keys = e.is_counted.target_keys;
    counted = e.is_counted.counted;
  };
  idle = e.idle;
  of_proxy = e.of_proxy;
  begun = e.begun;
  ended = e.ended;
  pending = e.pending;
}

pub fail-Ends : (f : Flight) (s : Pools) → IsCounted s → Ends f.proxy_key s (fail f s)
unfolding fail
fail-Ends f s h =
    count_failed-Ends f.proxy_key f.bucket s (end_create f.proxy_key f.bucket s)
      (end_create-Ends f.proxy_key f.bucket s h)
