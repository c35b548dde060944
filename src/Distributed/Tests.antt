-- ===== src/Distributed/Tests.antt =====
-- Small tokens, breakers, limiters, registries, policies and collectors, and the laws of the
-- distributed components at them.
use Prim.Native.Nat.{min}
use backend_in_c.Prelude.{
  ℕ, zero, suc, ◌+◌, ◌*◌, ◌≡◌, refl, [], ◌∷◌, ◌++◌, none, some, true, false, CString, arith, str_eq,
  codes, concat, map, replicate,
}
use backend_in_c.Common.{success}
use backend_in_c.Common.Words.{ℤ, pos, negsuc}
use backend_in_c.Assoc.{find}
use backend_in_c.Distributed.AuthToken.{AuthToken, serialize, deserialize, scan_token, scan_field}
use backend_in_c.Common.Decimal.{scan_lu, scan_digits}
use backend_in_c.Distributed.AuthToken.Laws.{IsPlain, deserialize-serialize}
use backend_in_c.Distributed.CircuitBreaker
use backend_in_c.Distributed.CircuitBreaker.{
  CircuitBreaker, circuit_closed, circuit_open, call, enter, record_success, record_failure,
}
use backend_in_c.Distributed.CircuitBreaker.Schedule
use backend_in_c.Distributed.CircuitBreaker.Schedule.{IsTripped, Reach-IsTripped}
use backend_in_c.Distributed.CircuitBreaker.Calls.{Outcomes, failures}
use backend_in_c.Distributed.RateLimiter.{RateLimiter}
use backend_in_c.Distributed.RateLimiter.Quota.{
  window_of, Requests, requests_of, admitted, admitted_exact,
}
use backend_in_c.Distributed.ServiceRegistry
use backend_in_c.Distributed.ServiceRegistry.{
  ServiceInfo, ServiceRegistry, service_id, register, deregister, discover,
}
use backend_in_c.Distributed.ServiceRegistry.Race.{register_race}
use backend_in_c.Distributed.ServiceRegistry.Threads.{
  Threads, idle, node_of, read_counter, store_counter, Reach, here, next, reads, stores, IsApart,
  Reach-IsApart,
}
use backend_in_c.Distributed.RetryPolicy.{RetryPolicy, retry_with_policy}
use backend_in_c.Distributed.RetryPolicy.Attempts.{after, retry_succeeds}
use backend_in_c.Distributed.Metrics.{Doubles, Collector, line_of, export, Buffer}
use backend_in_c.Distributed.Metrics.Export.{total, export-fits, export_overruns}

abbrev alice : CString
alice = codes "alice"

abbrev bob : CString
bob = codes "bob"

abbrev token : AuthToken
token = record { user_id = alice; created_at = 1_000; ttl_seconds = 60 }

token-IsPlain : IsPlain token
token-IsPlain = record {
  named = omega arith;
  short = omega arith;
  no_colon = (omega arith, (omega arith, (omega arith, (omega arith, (omega arith, tt)))));
  created_at = omega arith;
  ttl_seconds = omega arith;
}

deserialize-serialize_example : deserialize (serialize (some token)) ≡ some token
deserialize-serialize_example = deserialize-serialize token token-IsPlain

abbrev token_text : CString
token_text = codes "bob:5:7 and more"

abbrev short_token : AuthToken
short_token = record { user_id = bob; created_at = 5; ttl_seconds = 7 }

token_text-read : deserialize (some token_text) ≡ some short_token
unfolding deserialize scan_token scan_field scan_lu scan_digits
token_text-read = refl

-- One failure is enough for it.
abbrev touchy : CircuitBreaker
touchy = CircuitBreaker.create 1 500

-- A failure opens it; a call after the timeout tries it again, and succeeds.
Reach-IsTripped_example : IsTripped (record_success (enter 600 (record_failure 7 touchy)).1)
Reach-IsTripped_example =
    Reach-IsTripped 1 500 {b = record_success (enter 600 (record_failure 7 touchy)).1} (omega arith)
      (omega arith)
      (Schedule.next {c = (enter 600 (record_failure 7 touchy)).1}
        (Schedule.next {c = record_failure 7 touchy}
          (Schedule.next {c = touchy} Schedule.here
            (Schedule.fails 7 (unfold CircuitBreaker.create in omega arith) refl))
          (Schedule.enters 600 refl))
        (Schedule.succeeds refl))

abbrev outcomes : Outcomes
outcomes = (negsuc 0, 10) ∷ (pos 0, 20) ∷ (pos 1, 30) ∷ []

outcomes-failures : failures outcomes ≡ 2
unfolding failures
outcomes-failures = refl

abbrev limiter : RateLimiter
limiter = record { max_requests = 2; window_ms = 1000; entries = [] }

abbrev requests : Requests
requests = (alice, 150) ∷ (bob, 9000) ∷ (alice, 1000) ∷ []

no_window : window_of limiter alice ≡ none
unfolding find
no_window = refl

other_client : str_eq bob alice ≡ false
unfolding str_eq
other_client = refl

admitted_exact_example :
    admitted alice ((alice, 100) ∷ requests) limiter ≡ min 2 (1 + requests_of alice requests)
admitted_exact_example = admitted_exact alice 100 requests limiter no_window (omega arith) (
  λ e. (omega arith, omega arith, omega arith),
  (λ e. absurd (cc (e, other_client)), (λ e. (omega arith, omega arith, omega arith), tt)),
)

-- A registry with one service.
abbrev registry : ServiceRegistry
registry = record {
  services =
      (
        service_id 1,
        record {
          service_name = alice;
          host = bob;
          port = pos 80;
          last_heartbeat = 4;
          healthy = true;
        },
      )
      ∷ [];
  next_id = 2;
}

-- A thread that registers the registry's service.
abbrev building : Threads
building =
    store_counter 1 [] (node_of 1 4 alice bob (pos 80)) (read_counter (idle ServiceRegistry.create))

building-Reach : Reach true (idle ServiceRegistry.create) building
building-Reach =
    next {t = read_counter (idle ServiceRegistry.create)}
      (next {t = idle ServiceRegistry.create} here (reads (λ e. refl) refl))
      (stores 1 [] [] 4 alice bob (pos 80) refl (omega arith) refl)

Reach-IsApart_example : IsApart building
Reach-IsApart_example = Reach-IsApart {t = building} building-Reach

register_race_example :
    Reach false (idle registry) (
      idle (record {
        services =
            node_of 2 9 bob alice (pos 81) ∷ node_of 2 8 bob alice (pos 82) ∷ registry.services;
        next_id = 3;
      }))
    × (deregister (some (service_id 2)) (
          some (record {
            services =
                node_of 2 9 bob alice (pos 81) ∷ node_of 2 8 bob alice (pos 82) ∷ registry.services;
            next_id = 3;
          }))
        ≡ (
          success,
          some (record {
            services = node_of 2 8 bob alice (pos 82) ∷ registry.services;
            next_id = 3;
          }),
        ))
register_race_example =
    register_race registry 8 9 bob bob alice alice (pos 82) (pos 81) (omega arith)

abbrev policy : RetryPolicy
policy = record { max_retries = pos 3; initial_delay_ms = 100; scale = λ delay. delay * 2 }

-- Fails twice, then succeeds.
abbrev third_time : ℕ → ℤ
third_time zero = negsuc 0
third_time (suc zero) = negsuc 4
third_time (suc (suc n)) = pos 0

retry_succeeds_example :
    retry_with_policy (pos 9) (some third_time) (some policy)
    ≡ after policy.scale third_time policy.initial_delay_ms 2 2
retry_succeeds_example =
    retry_succeeds (pos 9) policy third_time 3 2 refl (omega arith) (refl, (refl, tt)) refl

-- Doubles that stand for whole numbers.
abbrev whole : Doubles
whole = record {
  Double = ℕ;
  zero = 0;
  inc = λ x. x + 1;
  mean = λ x y. x;
  print = λ x. replicate x b'1';
}

abbrev collector : Collector whole
collector = (alice, 2) ∷ (bob, 1) ∷ []

lines-length : total (map (line_of whole) collector) ≡ 17
unfolding line_of
lines-length = refl

export-fits_example :
    export whole (some collector)
    ≡ some (record {
      text = some (concat (map (line_of whole) collector));
      offset = total (map (line_of whole) collector);
      overrun = false;
    })
export-fits_example = export-fits whole (alice, 2) ((bob, 1) ∷ []) (omega (arith, lines-length))

-- A metric with a name of 4096 characters.
abbrev long_name : CString
long_name = replicate 4096 b'x'

long_lines : total (map (line_of whole) ((long_name, 1) ∷ [])) ≡ 4100
unfolding line_of
long_lines = refl

export_overruns_example :
    (b : Buffer) × (export whole (some ((long_name, 1) ∷ [] ++ (alice, 2) ∷ [])) ≡ some b)
    × (b.overrun ≡ true)
export_overruns_example =
    export_overruns whole ((long_name, 1) ∷ []) [] (alice, 2) (omega (arith, long_lines))
      (unfold line_of in omega (arith, long_lines))
