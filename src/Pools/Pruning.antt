-- ===== src/Pools/Pruning.antt =====
-- Closing idle connections keeps the counts right.
use auto_squid.Pools.{
  Conn, Sockets, Config, Pool, generic, targeted, Pools, pool_of, stack, count_take,
}
use auto_squid.Pools.Peeking.{
  count_expired, scan_stack, is_expired, settle_prune, prune_key, prune_keys, pool_prune,
}
use auto_squid.Pools.Accounts.{
  IsCounted, Shrinks, Shrinks-refl, Shrinks-trans, Same, Same-trans, Same-refl,
}
use auto_squid.Pools.Taking.{put_stack-Shrinks, take_once}
use auto_squid.Pools.Stealing.{books, books-Same}
use auto_squid.Base.{
  ℕ, ◌+◌, ◌-◌, ◌≤◌, ◌≡◌, refl, not, List, [], ◌∷◌, arith, if_elim, nat_eq, Text, text_eq, length,
}
use auto_squid.Dict.{keys, lookup}

count_expired-Same : (p : Pool) (c : Conn) (s : Pools) → Same s (count_expired p c s)
count_expired-Same generic c s = books-Same s (record s { conn_expired = s.conn_expired + 1 }) refl
count_expired-Same targeted c s = books-Same s (count_expired targeted c s) (
    if_elim (λ (t : Pools). books t ≡ books s) (not c.cluster_prewarmed) (λ _. refl)
      (λ _.
        if_elim (λ (t : Pools). books t ≡ books s) c.consumed_unexpired (λ _. refl) (λ _. refl)))

-- only counters differ after a scan, and what is left is no longer
IsScanned : List Conn → Pools → List Conn × Pools → Type 0
IsScanned st s r = (length r.0 ≤ length st) × Same s r.1

scan_stack-IsScanned :
    (net : Sockets) (cfg : Config) (now : ℕ) (p : Pool) (st : List Conn) (s : Pools)
    → IsScanned st s (scan_stack net cfg now p st s)
unfolding scan_stack IsScanned
scan_stack-IsScanned net cfg now p [] s = (omega arith, Same-refl s)
scan_stack-IsScanned net cfg now p (c ∷ st) s =
    let (less, same) = scan_stack-IsScanned net cfg now p st s in
    let t = (scan_stack net cfg now p st s).1 in
    if_elim (IsScanned (c ∷ st) s) (net.is_closing c.id) (λ _. (omega (arith, less), same))
      (λ _.
        if_elim (IsScanned (c ∷ st) s) (is_expired cfg now c)
          (λ _. (
            omega (arith, less),
            Same-trans s t (count_expired p c t) same (count_expired-Same p c t),
          ))
          (λ _. (omega (arith, less), same)))

settle_prune-Shrinks :
    (p : Pool) (key : Text) (s : Pools) (r : List Conn × Pools)
    → IsCounted s
    → IsScanned (stack (lookup key (pool_of p s))) s r
    → Shrinks s (settle_prune p key (length (stack (lookup key (pool_of p s)))) r)
unfolding IsScanned
settle_prune-Shrinks p key s (alive, t) h (less, same) =
    let n = length (stack (lookup key (pool_of p s))) - length alive in
    put_stack-Shrinks p key n alive s (count_take key n t) h (take_once key n s t same)
      (omega (arith, less))

prune_key-Shrinks :
    (net : Sockets) (cfg : Config) (now : ℕ) (p : Pool) (key : Text) (s : Pools)
    → IsCounted s
    → Shrinks s (prune_key net cfg now p key s)
unfolding prune_key
prune_key-Shrinks net cfg now p key s h =
    let st = stack (lookup key (pool_of p s)) in
    settle_prune-Shrinks p key s (scan_stack net cfg now p st s) h
      (scan_stack-IsScanned net cfg now p st s)

prune_keys-Shrinks :
    (net : Sockets) (cfg : Config) (now : ℕ) (p : Pool) (ks : List Text) (s : Pools)
    → IsCounted s
    → Shrinks s (prune_keys net cfg now p ks s)
unfolding prune_keys
prune_keys-Shrinks net cfg now p [] s h = Shrinks-refl s h
prune_keys-Shrinks net cfg now p (key ∷ ks) s h =
    let t = prune_key net cfg now p key s in
    let a = prune_key-Shrinks net cfg now p key s h in
    Shrinks-trans s t (prune_keys net cfg now p ks t) a
      (prune_keys-Shrinks net cfg now p ks t a.is_counted)

pub pool_prune-Shrinks :
    (net : Sockets) (cfg : Config) (now : ℕ) (s : Pools)
    → IsCounted s
    → Shrinks s (pool_prune net cfg now s)
unfolding pool_prune
pool_prune-Shrinks net cfg now s h =
    let t = prune_keys net cfg now generic (keys s.conn_pool) s in
    let a = prune_keys-Shrinks net cfg now generic (keys s.conn_pool) s h in
    Shrinks-trans s t (prune_keys net cfg now targeted (keys t.target_pool) t) a
      (prune_keys-Shrinks net cfg now targeted (keys t.target_pool) t a.is_counted)
