-- ===== src/Metrics/Buckets.antt =====
-- Which buckets an observation reaches, and how often.
use auto_squid.Metrics.{
  Metrics, Store, new_metrics, ensure, or_empty, or_new, metrics_for, write_bucket, write_scopes,
}
use auto_squid.Base.{
  ◌≡◌, refl, ◌&&◌, ◌||◌, Option, none, some, arith, if◌then◌else◌, ◌==◌, nat_eq, Text, text_eq,
  text_beq_iff, pair_eq, option_eq,
}
use auto_squid.Dict.{Dict, lookup, put}
use auto_squid.Dict.Laws.{lookup-put}

-- the bucket of a proxy, global or of a domain; one that was never made reads as a new one
unfoldable pub bucket : Text → Option Text → Store → Metrics
bucket pid none s = or_new (lookup pid s.proxy_metrics)
bucket pid (some d) s = or_new (lookup pid (or_empty (lookup d s.domain_metrics)))

or_new-ensure :
    (q pid : Text) (t : Dict Text Metrics) → or_new (lookup q (ensure pid t)) ≡ or_new (lookup q t)
unfolding ensure
or_new-ensure q pid t = ground (arith, lookup-put pid q new_metrics t, text_beq_iff pid q)

or_new-put :
    (q pid : Text) (m : Metrics) (t : Dict Text Metrics)
    → or_new (lookup q (put pid m t)) ≡ (if pid == q then m else or_new (lookup q t))
or_new-put q pid m t = ground (arith, lookup-put pid q m t)

or_empty-put :
    (e d : Text) (t : Dict Text Metrics) (s : Dict Text (Dict Text Metrics))
    → or_empty (lookup e (put d t s)) ≡ (if d == e then t else or_empty (lookup e s))
or_empty-put e d t s = ground (arith, lookup-put d e t s)

-- taking a bucket changes no bucket
bucket-metrics_for :
    (q pid : Text) (o d : Option Text) (s : Store) → bucket q o (metrics_for pid d s) ≡ bucket q o s
unfolding bucket metrics_for
bucket-metrics_for q pid none none s = or_new-ensure q pid s.proxy_metrics
bucket-metrics_for q pid none (some d) s = refl
bucket-metrics_for q pid (some e) none s = refl
bucket-metrics_for q pid (some e) (some d) s =
    let per = or_empty (lookup d s.domain_metrics) in
    ground (
      arith,
      or_empty-put e d (ensure pid per) s.domain_metrics,
      or_new-ensure q pid per,
      text_beq_iff d e,
    )

bucket-write_bucket :
    (f : Metrics → Metrics) (q pid : Text) (o d : Option Text) (s : Store)
    → bucket q o (write_bucket f pid d s)
      ≡ (if pid == q && d == o then f (bucket q o s) else bucket q o s)
unfolding bucket write_bucket
bucket-write_bucket f q pid none none s = ground (
  arith,
  or_new-put q pid (f (or_new (lookup pid s.proxy_metrics))) s.proxy_metrics,
  text_beq_iff pid q,
)
bucket-write_bucket f q pid none (some d) s = ground arith
bucket-write_bucket f q pid (some e) none s = ground arith
bucket-write_bucket f q pid (some e) (some d) s =
    let per = or_empty (lookup d s.domain_metrics) in
    ground (
      arith,
      or_empty-put e d (put pid (f (or_new (lookup pid per))) per) s.domain_metrics,
      or_new-put q pid (f (or_new (lookup pid per))) per,
      text_beq_iff d e,
      text_beq_iff pid q,
    )

-- An observation of a proxy is written exactly once into its global bucket and, when it has a
-- domain, exactly once into the bucket of the domain; without a domain the global bucket is not
-- written twice. No other bucket changes.
pub bucket-write_scopes :
    (f : Metrics → Metrics) (q pid : Text) (o d : Option Text) (s : Store)
    → bucket q o (write_scopes f pid d s)
      ≡ (if pid == q && (none == o || d == o) then f (bucket q o s) else bucket q o s)
unfolding write_scopes
bucket-write_scopes f q pid o none s =
    let taken = metrics_for pid none (metrics_for pid none s) in
    ground (
      arith,
      bucket-write_bucket f q pid o none taken,
      bucket-metrics_for q pid o none (metrics_for pid none s),
      bucket-metrics_for q pid o none s,
    )
bucket-write_scopes f q pid o (some d) s =
    let taken = metrics_for pid (some d) (metrics_for pid none s) in
    ground (
      arith,
      bucket-write_bucket f q pid o none taken,
      bucket-write_bucket f q pid o (some d) (write_bucket f pid none taken),
      bucket-metrics_for q pid o (some d) (metrics_for pid none s),
      bucket-metrics_for q pid o none s,
    )
