-- ===== src/Pools/Peeking.antt =====
-- Taking a connection out of the pools, and closing those that were idle for too long.
use auto_squid.Pools.{
  Conn, Sockets, Config, Pool, generic, targeted, Pools, pool_of, set_pool, bucket_key, number,
  stack, count_take, unindex,
}
use auto_squid.Base.{
  ℕ, ◌+◌, ◌-◌, Bool, true, false, not, ◌&&◌, ◌||◌, Option, none, some, List, [], ◌∷◌, ltb,
  if◌then◌else◌, ◌==◌, nat_eq, Text, text_eq, pair_eq, option_eq, length,
}
use auto_squid.Dict.{keys, lookup, put, remove, Dict}

-- the guard of the loop of `_pool_peek`
abbrev pub is_stale : Sockets → Conn → Bool
is_stale net c = net.is_closing c.id || net.at_eof c.id || ltb 0 (net.pending_bytes c.id)

-- the loop of `_pool_peek`: how many were thrown away, what was found, what is left
unfoldable pub pop_usable : Sockets → List Conn → ℕ × Option Conn × List Conn
pop_usable net [] = (0, none, [])
pop_usable net (c ∷ st) =
    let (n, found, left) = pop_usable net st in
    if is_stale net c then (n + 1, found, left) else (0, some c, st)

abbrev pub found_count : Option Conn → ℕ
found_count none = 0
found_count (some c) = 1

-- a stack goes back into its pool; an empty one leaves it, and the key leaves the index
abbrev pub set_stack : Text → List Conn → Dict Text (List Conn) → Dict Text (List Conn)
set_stack key [] d = remove key d
set_stack key (c ∷ st) d = put key (c ∷ st) d

abbrev pub index_after : Text → List Conn → Dict Text (List Text) → Dict Text (List Text)
index_after key [] d = unindex key d
index_after key (c ∷ st) d = d

abbrev pub put_stack : Pool → Text → List Conn → Pools → Pools
put_stack p key left s =
    set_pool p (set_stack key left (pool_of p s))
      (record s { target_keys_by_proxy = index_after key left s.target_keys_by_proxy })

abbrev pub settle_peek : Pool → Text → ℕ × Option Conn × List Conn → Pools → Option Conn × Pools
settle_peek p key (n, found, left) s = (
  found,
  put_stack p key left (
      count_take key (found_count found)
        (count_take key n (record s { stale_discards = s.stale_discards + n }))),
)

-- `_pool_peek`; the argument is what the pool holds under the key
unfoldable pub peek_stack : Sockets → Pool → Text → List Conn → Pools → Option Conn × Pools
unfolding pop_usable count_take unindex
peek_stack net p key [] s = (none, s)
peek_stack net p key (c ∷ st) s = settle_peek p key (pop_usable net (c ∷ st)) s

unfoldable pub pool_peek : Sockets → Pool → Text → Pools → Option Conn × Pools
unfolding peek_stack
pool_peek net p key s = peek_stack net p key (stack (lookup key (pool_of p s))) s

abbrev pub created_at : List Conn → ℕ
created_at [] = 0
created_at (c ∷ st) = c.created

-- `str < str`
unfoldable pub text_less : Text → Text → Bool
text_less [] [] = false
text_less [] (d ∷ t) = true
text_less (c ∷ s) [] = false
text_less (c ∷ s) (d ∷ t) = let rest = text_less s t in ltb c d || c == d && rest

-- the order of the pairs of a time and a key
abbrev pub donor_less : ℕ × Text → ℕ × Text → Bool
donor_less (a, s) (b, t) = ltb a b || a == b && text_less s t

unfoldable pub insert_donor : ℕ × Text → List (ℕ × Text) → List (ℕ × Text)
insert_donor d [] = d ∷ []
insert_donor d (e ∷ ds) =
    let rest = insert_donor d ds in if donor_less e d then e ∷ rest else d ∷ e ∷ ds

-- the donors of `_steal_from_target_pool`, sorted
unfoldable pub donors : List Text → Pools → List (ℕ × Text)
unfolding insert_donor text_less
donors [] s = []
donors (key ∷ ks) s =
    let st = stack (lookup key s.target_pool) in
    let rest = donors ks s in
    if ltb (length st) 2 then rest else insert_donor (created_at st, key) rest

abbrev pub or_steal : Option Conn × Pools → Option Conn × Pools → Option Conn × Pools
or_steal (none, s) later = later
or_steal (some c, s) later = (some c, record s { steals = s.steals + 1 })

unfoldable pub steal_from : Sockets → List (ℕ × Text) → Pools → Option Conn × Pools
unfolding pool_peek
steal_from net [] s = (none, s)
steal_from net (d ∷ ds) s =
    let got = pool_peek net targeted d.1 s in
    let later = steal_from net ds got.1 in or_steal got later

abbrev pub keys_of : Option (List Text) → List Text
keys_of none = []
keys_of (some ks) = ks

-- `_steal_from_target_pool`
unfoldable pub steal_from_target_pool : Sockets → Text → Pools → Option Conn × Pools
unfolding donors steal_from
steal_from_target_pool net pk s =
    steal_from net (donors (keys_of (lookup pk s.target_keys_by_proxy)) s) s

abbrev pub count_miss : Option Conn × Pools → Option Conn × Pools
count_miss (none, s) = (none, record s { conn_misses = s.conn_misses + 1 })
count_miss (some c, s) = (some c, s)

abbrev pub hit_or_steal : Sockets → Text → Option Conn × Pools → Option Conn × Pools
hit_or_steal net pk (some c, s) = (some c, record s { conn_hits = s.conn_hits + 1 })
hit_or_steal net pk (none, s) = count_miss (steal_from_target_pool net pk s)

-- `_conn_pool_peek`
unfoldable pub conn_pool_peek : Sockets → Text → Pools → Option Conn × Pools
unfolding pool_peek steal_from_target_pool
conn_pool_peek net pk s = hit_or_steal net pk (pool_peek net generic pk s)

abbrev pub target_miss : Config → Text → Pools → Pools
target_miss cfg key s =
    if not cfg.cluster_predict
    then s
    else if ltb 0 (number (lookup key s.cluster_ever))
    then record s { timing_miss = s.timing_miss + 1 }
    else record s { bucket_miss = s.bucket_miss + 1 }

abbrev pub count_target : Config → Text → Option Conn × Pools → Option Conn × Pools
count_target cfg key (none, s) =
    (none, target_miss cfg key (record s { target_misses = s.target_misses + 1 }))
count_target cfg key (some c, s) =
    if c.cluster_prewarmed
    then (
      some (record c { consumed_unexpired = true }),
      record s { target_hits = s.target_hits + 1; cluster_hits = s.cluster_hits + 1 },
    )
    else (some c, record s { target_hits = s.target_hits + 1 })

-- `_target_pool_peek`
unfoldable pub target_pool_peek : Sockets → Config → Text → Text → Pools → Option Conn × Pools
unfolding pool_peek
target_pool_peek net cfg pk target s =
    let key = bucket_key pk target in count_target cfg key (pool_peek net targeted key s)

-- `now - last > timeout`
unfoldable pub is_expired : Config → ℕ → Conn → Bool
is_expired cfg now c =
    if c.cluster_prewarmed
    then ltb (c.created + cfg.cluster_idle_timeout) now
    else ltb (c.created + cfg.idle_timeout) now

abbrev pub count_expired : Pool → Conn → Pools → Pools
count_expired generic c s = record s { conn_expired = s.conn_expired + 1 }
count_expired targeted c s =
    if not c.cluster_prewarmed
    then record s { target_expired = s.target_expired + 1 }
    else if c.consumed_unexpired
    then record s {
      target_expired = s.target_expired + 1;
      cluster_expired = s.cluster_expired + 1;
      consumed_expired = s.consumed_expired + 1;
    }
    else record s { target_expired = s.target_expired + 1; cluster_expired = s.cluster_expired + 1 }

-- the loop over a stack in `_pool_prune`
unfoldable pub scan_stack : Sockets → Config → ℕ → Pool → List Conn → Pools → List Conn × Pools
unfolding is_expired
scan_stack net cfg now p [] s = ([], s)
scan_stack net cfg now p (c ∷ st) s =
    let (alive, t) = scan_stack net cfg now p st s in
    if net.is_closing c.id
    then (alive, t)
    else if is_expired cfg now c
    then (alive, count_expired p c t)
    else (c ∷ alive, t)

abbrev pub settle_prune : Pool → Text → ℕ → List Conn × Pools → Pools
settle_prune p key n (alive, s) = put_stack p key alive (count_take key (n - length alive) s)

unfoldable pub prune_key : Sockets → Config → ℕ → Pool → Text → Pools → Pools
unfolding scan_stack count_take unindex
prune_key net cfg now p key s =
    let st = stack (lookup key (pool_of p s)) in
    settle_prune p key (length st) (scan_stack net cfg now p st s)

unfoldable pub prune_keys : Sockets → Config → ℕ → Pool → List Text → Pools → Pools
unfolding prune_key
prune_keys net cfg now p [] s = s
prune_keys net cfg now p (key ∷ ks) s = prune_keys net cfg now p ks (prune_key net cfg now p key s)

-- `_pool_prune`
unfoldable pub pool_prune : Sockets → Config → ℕ → Pools → Pools
unfolding prune_keys
pool_prune net cfg now s =
    let t = prune_keys net cfg now generic (keys s.conn_pool) s in
    prune_keys net cfg now targeted (keys t.target_pool) t
