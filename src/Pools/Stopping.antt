-- ===== src/Pools/Stopping.antt =====
-- Stopping the pools while connections are being opened.
use auto_squid.Pools.{Config, Pools, global_room, total_idle, end_create}
use auto_squid.Pools.Filling.{Flight, cancel, conn_pool_close_all}
use auto_squid.Base.{◌+◌, ◌≤◌, ◌≡◌, List, [], ◌∷◌, arith, nat_eq, text_eq, length}
use auto_squid.Dict.{total}

-- the tasks that are cancelled one after the other
unfoldable pub cancel_all : List Flight → Pools → Pools
unfolding cancel
cancel_all [] s = s
cancel_all (f ∷ fs) s = cancel_all fs (cancel f s)

cancel_all-room :
    (cfg : Config) (fs : List Flight) (s : Pools)
    → total_idle s + s.begun ≤ cfg.total_limit + s.ended
    → global_room cfg (cancel_all fs s) ≡ global_room cfg s + length fs
unfolding cancel_all cancel end_create global_room total_idle
cancel_all-room cfg [] s h = omega arith
cancel_all-room cfg (f ∷ fs) s h =
    omega (arith, cancel_all-room cfg fs (cancel f s) (omega (arith, h)), h)

-- Closing the pools sets the counter of connections that are being opened to 0. The tasks that
-- still open some at that moment each take one off it when they are cancelled, so the budget is
-- then larger than the total limit by as many as there were.
pub conn_pool_close_all-overdraws :
    (cfg : Config) (fs : List Flight) (s : Pools)
    → global_room cfg (cancel_all fs (conn_pool_close_all s)) ≡ cfg.total_limit + length fs
unfolding conn_pool_close_all global_room total_idle total
conn_pool_close_all-overdraws cfg fs s =
    omega (arith, cancel_all-room cfg fs (conn_pool_close_all s) (omega arith))
