-- ===== src/Distributed/ServiceRegistry.antt =====
-- The service registry of src/distributed/distributed.c: a list of nodes, newest first. A node is
-- modelled as its `service_id` with the other fields of its `service_info_t`. Each call is one step;
-- `service_register` takes its number before it takes the lock, so two such calls at once may race.
pub mod Identity
pub mod Threads
pub mod Race
pub mod Destroy
pub mod Discovery
use backend_in_c.Prelude.{
  ℕ, ◌+◌, ◌%◌, [], ◌∷◌, ◌++◌, Option, none, some, Bool, true, false, ◌&&◌, CString, codes, str_eq,
  if◌then◌else◌,
}
use backend_in_c.Common.{ErrorCode, success, error_invalid_param, error_not_found}
use backend_in_c.Common.Words.{ℤ, u64}
use backend_in_c.Common.Decimal.{print_lu}
use backend_in_c.Assoc.{Assoc, find, update, remove}

pub record ServiceInfo : Type 0 where
  pub service_name : CString
  pub host : CString
  pub port : ℤ
  pub last_heartbeat : ℕ
  pub healthy : Bool

pub record ServiceRegistry : Type 0 where
  pub services : Assoc ServiceInfo
  pub next_id : ℕ

abbrev pub create : ServiceRegistry
create = record { services = []; next_id = 1 }

-- `snprintf(service_id, 64, "service-%lu", id)`; the text is never longer than 28 characters
unfoldable pub service_id : ℕ → CString
service_id id = codes "service-" ++ print_lu id

-- `service_register` at the time `now`
unfoldable pub register :
    ℕ
    → Option CString
    → Option CString
    → ℤ
    → Option ServiceRegistry
    → ErrorCode × Option ServiceRegistry
register now (some service_name) (some host) port (some r) = (
  success,
  some (record {
    services =
        (
          service_id r.next_id,
          record {
            service_name = service_name;
            host = host;
            port = port;
            last_heartbeat = now;
            healthy = true;
          },
        )
        ∷ r.services;
    next_id = (r.next_id + 1) % u64;
  }),
)
register now service_name host port r = (error_invalid_param, r)

-- `service_deregister`
unfoldable pub deregister :
    Option CString → Option ServiceRegistry → ErrorCode × Option ServiceRegistry
unfolding remove
deregister (some id) (some r) = elim (remove id r.services) [
  | some services ↦ (success, some (record r { services = services }))
  | none ↦ (error_not_found, some r)
]
deregister id r = (error_invalid_param, r)

-- The node that a heartbeat leaves.
beat : ℕ → ServiceInfo → ServiceInfo
beat now info = record info { last_heartbeat = now; healthy = true }

-- the loop of `service_heartbeat`
unfoldable pub beat_first : ℕ → CString → Assoc ServiceInfo → Option (Assoc ServiceInfo)
unfolding find update beat
beat_first now id services = elim (find id services) [
  | none ↦ none
  | some info ↦ update id (beat now info) services
]

-- `service_heartbeat` at the time `now`
unfoldable pub heartbeat :
    ℕ → Option CString → Option ServiceRegistry → ErrorCode × Option ServiceRegistry
heartbeat now (some id) (some r) = elim (beat_first now id r.services) [
  | some services ↦ (success, some (record r { services = services }))
  | none ↦ (error_not_found, some r)
]
heartbeat now id r = (error_invalid_param, r)

-- the loop of `service_discover`: the first healthy service of the name, copied with its id
unfoldable pub discover_in : CString → Assoc ServiceInfo → Option (CString × ServiceInfo)
discover_in name [] = none
discover_in name ((id, info) ∷ rest) =
    if str_eq info.service_name name && info.healthy then some (id, info) else discover_in name rest

-- `service_discover`
unfoldable pub discover : Option CString → Option ServiceRegistry → Option (CString × ServiceInfo)
unfolding discover_in
discover (some name) (some r) = discover_in name r.services
discover name r = none
