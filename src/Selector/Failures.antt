-- ===== src/Selector/Failures.antt =====
-- Failures that are not the proxy's fault leave its circuit and its limit alone.
use auto_squid.Circuit
use auto_squid.Concurrency
use auto_squid.Metrics.{ErrorKind, error_kind, observe_failure}
use auto_squid.Metrics.Buckets.{bucket, bucket-write_scopes}
use auto_squid.Circuit.{in_backoff}
use auto_squid.Selector.{
  Selector, attribute, record_failure, charge_proxy, failure_kind, is_http_status,
}
use auto_squid.Base.{
  text_beq, ℕ, ◌≡◌, refl, ◌∙◌, true, ◌&&◌, ◌||◌, Option, none, some, List, [], ◌∷◌, arith,
  if◌then◌else◌, ◌==◌, nat_eq, Text, text_eq, pair_eq, option_eq, text,
}

module _ (cc : Circuit.Config) (kc : Concurrency.Config) where
  attribute_frozen :
      (pid : Text) (kind : ErrorKind) (domain : Option Text) (now : ℕ) (s : Selector)
      → ((attribute pid kind domain now s).1.circuits ≡ s.circuits)
        × ((attribute pid kind domain now s).1.concs ≡ s.concs)
        × ((attribute pid kind domain now s).1.metrics ≡ s.metrics)
  unfolding attribute
  attribute_frozen pid kind none now s = ground arith
  attribute_frozen pid kind (some d) now s = ground arith

  -- A failure that is attributed to the target changes no circuit, opens none, and cuts no
  -- concurrency limit.
  pub record_failure_exempt :
      (pid : Text) (error_type domain : Option Text) (now : ℕ) (s : Selector)
      → (attribute pid (failure_kind error_type) domain now s).0 ≡ true
      → ((record_failure cc kc pid error_type domain now s).circuits.table ≡ s.circuits.table)
        × ((record_failure cc kc pid error_type domain now s).circuits.open_count
            ≡ s.circuits.open_count)
        × ((record_failure cc kc pid error_type domain now s).concs ≡ s.concs)
  unfolding record_failure
  record_failure_exempt pid error_type domain now s bypass =
      ground (arith, bypass, attribute_frozen pid (failure_kind error_type) domain now s)

  -- Every failure, also one that is attributed to the target, is counted once under its kind in the
  -- proxy's global bucket and once in its bucket of the domain, and in no other.
  pub bucket-record_failure :
      (q pid : Text) (error_type o domain : Option Text) (now : ℕ) (s : Selector)
      → bucket q o (record_failure cc kc pid error_type domain now s).metrics ≡ (
          if pid == q && (none == o || domain == o)
          then observe_failure (failure_kind error_type) (bucket q o s.metrics)
          else bucket q o s.metrics)
  unfolding record_failure charge_proxy
  bucket-record_failure q pid error_type o domain now s = ground (
    arith,
    attribute_frozen pid (failure_kind error_type) domain now s,
    bucket-write_scopes (observe_failure (failure_kind error_type)) q pid o domain s.metrics,
  )

-- a history of refusals by targets, each with its proxy, domain and time
unfoldable pub refuse_all :
    Circuit.Config → Concurrency.Config → List (Text × Option Text × ℕ) → Selector → Selector
refuse_all cc kc [] s = s
refuse_all cc kc ((pid, domain, now) ∷ es) s =
    refuse_all cc kc es (record_failure cc kc pid (some (text "http_status")) domain now s)

pub http_status_exempt :
    (pid : Text) (domain : Option Text) (now : ℕ) (s : Selector)
    → (attribute pid (failure_kind (some (text "http_status"))) domain now s).0 ≡ true
unfolding attribute error_kind is_http_status text_beq
http_status_exempt pid domain now s = refl

-- However often targets refuse, with `http_status`, through whatever proxies and at whatever times:
-- no circuit changes, none opens, and no concurrency limit is cut.
pub refuse_all_frozen :
    (cc : Circuit.Config) (kc : Concurrency.Config) (es : List (Text × Option Text × ℕ))
    (s : Selector)
    → ((refuse_all cc kc es s).circuits.table ≡ s.circuits.table)
      × ((refuse_all cc kc es s).circuits.open_count ≡ s.circuits.open_count)
      × ((refuse_all cc kc es s).concs ≡ s.concs)
unfolding refuse_all
refuse_all_frozen cc kc [] s = (refl, refl, refl)
refuse_all_frozen cc kc ((pid, domain, now) ∷ es) s =
    let refused = some (text "http_status") in
    let one =
      record_failure_exempt cc kc pid refused domain now s (http_status_exempt pid domain now s) in
    let rest = refuse_all_frozen cc kc es (record_failure cc kc pid refused domain now s) in
    (rest.0 ∙ one.0, rest.1 ∙ one.1, rest.2 ∙ one.2)
