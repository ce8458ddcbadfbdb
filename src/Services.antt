-- ===== src/Services.antt =====
-- The services of a server: class ServiceManager (framework/server/service_manager.cpp), which asks
-- the resolver for the order in which it initialises, starts and stops them.
pub mod Injecting
pub mod Startup
pub mod Shutdown
pub mod Tests
use white_board_server.Prelude.{
  Bool, true, false, Option, none, some, List, [], ◌∷◌, ◌++◌, if◌then◌else◌,
}
use mathlib.Core.List.{reverse}
use white_board_server.Containers.Ord.{Bytes, bytes_ord}
use white_board_server.Containers.Map.{Map, find, put, erase}
use white_board_server.Resolver.{
  Service, get_lack_services, load_init_sort, sort_to_start, sort_to_stop,
}

-- The virtual methods of the registered services: the object after the call, and the result.
pub record Methods : Type 0 where
  pub init : Bytes → Service → Service × Bool
  pub start : Bytes → Service → Service × Bool
  pub stop : Bytes → Service → Service × Bool

-- What the manager calls, in order.
pub data Call : Type 0 where
  inject : Bytes → Bytes → Call
  init_call : Bytes → Call
  start_call : Bytes → Call
  stop_call : Bytes → Call

pub record ServiceManager : Type 0 where
  pub services : Map Bytes Service
  pub orders : List Bytes
  pub initialized : Bool
  pub running : Bool
  pub calls : List Call

-- ServiceManager::ServiceManager
abbrev pub new_manager : ServiceManager
new_manager = record {
  services = [];
  orders = [];
  initialized = false;
  running = false;
  calls = [];
}

-- Register: `none` is a failed assertion.
pub register : Bytes → Service → ServiceManager → Option (Bool × ServiceManager)
register name s m = elim (find name m.services) [
  | none ↦ some (true, record m { services = put name s m.services })
  | some _ ↦ none
]

-- Deregister
pub deregister : Bytes → ServiceManager → Option Service × ServiceManager
deregister name m = elim (find name m.services) [
  | none ↦ (none, m)
  | some s ↦ (some s, record m { services = erase name m.services })
]

-- The inner loop of the injection.
pub inject_each : Bytes → List Bytes → Map Bytes Service → List Call
inject_each name [] services = []
inject_each name (d ∷ rest) services = elim (find d services) [
  | none ↦ inject_each name rest services
  | some _ ↦ inject name d ∷ inject_each name rest services
]

-- The loop of Init that injects: `none` is a call through a null pointer.
pub inject_all : List Bytes → Map Bytes Service → Option (List Call)
unfolding inject_each
inject_all [] services = some []
inject_all (n ∷ rest) services = elim (find n services) [
  | none ↦ none
  | some s ↦ elim (inject_all rest services) [
    | none ↦ none
    | some later ↦ some (inject_each n s.dependent_services services ++ later)
  ]
]

-- A method was called on a service.
pub after_call : Bytes → Service → Call → ServiceManager → ServiceManager
after_call n s call m = record m { services = put n s m.services; calls = m.calls ++ call ∷ [] }

-- A loop that calls a method of each service: `none` is a failed assertion or a null pointer.
pub call_each :
    (Bytes → Service → Service × Bool)
    → (Bytes → Call)
    → List Bytes
    → ServiceManager
    → Option ServiceManager
unfolding after_call
call_each method call [] m = some m
call_each method call (n ∷ rest) m = elim (find n m.services) [
  | none ↦ none
  | some s ↦
      let (s', res) = method n s in
      elim res [ true ↦ call_each method call rest (after_call n s' (call n) m) | false ↦ none ]
]

-- The loop of Stop, which passes over the services that do not run.
pub stop_each :
    (Bytes → Service → Service × Bool) → List Bytes → ServiceManager → Option ServiceManager
unfolding after_call
stop_each method [] m = some m
stop_each method (n ∷ rest) m = elim (find n m.services) [
  | none ↦ none
  | some s ↦ elim s.is_running [
    | true ↦
        let (s', res) = method n s in
        elim res [ true ↦ stop_each method rest (after_call n s' (stop_call n) m) | false ↦ none ]
    | false ↦ stop_each method rest m
  ]
]

module _ (ms : Methods) where
  -- Init after the order is known.
  pub init_in_order : List Bytes → ServiceManager → Option (Bool × ServiceManager)
  unfolding inject_all call_each
  init_in_order new m = elim (inject_all new m.services) [
    | none ↦ none
    | some injected ↦
        elim (call_each ms.init init_call new (record m { calls = m.calls ++ injected })) [
          | none ↦ none
          | some m' ↦ some (true, record m' { initialized = true })
        ]
  ]

  -- Init: it fails if a service that is needed is not registered.
  pub init : ServiceManager → Option (Bool × ServiceManager)
  unfolding init_in_order
  init m = elim (get_lack_services m.services m.orders) [
    | _ ∷ _ ↦ some (false, m)
    | [] ↦ elim (load_init_sort m.services m.orders) [
      | none ↦ none
      | some (new, orders') ↦ init_in_order new (record m { orders = orders' })
    ]
  ]

  -- Start
  pub start : ServiceManager → Option (Bool × ServiceManager)
  unfolding call_each
  start m = elim m.initialized [
    | false ↦ none
    | true ↦ elim (sort_to_start m.services m.orders) [
      | none ↦ none
      | some orders ↦ elim (call_each ms.start start_call orders m) [
        | none ↦ none
        | some m' ↦ some (true, record m' { running = true })
      ]
    ]
  ]

  -- Stop
  pub stop : ServiceManager → Option (Bool × ServiceManager)
  unfolding stop_each
  stop m = elim (stop_each ms.stop (reverse (sort_to_stop m.orders)) m) [
    | none ↦ none
    | some m' ↦ some (true, record m' { running = false })
  ]
