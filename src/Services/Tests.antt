-- ===== src/Services/Tests.antt =====
-- An account service that needs a dispatcher, and two services that need each other.
use white_board_server.Prelude.{◌≡◌, refl, true, false, some, List, [], ◌∷◌, ◌++◌, map}
use mathlib.Core.List.{reverse}
use white_board_server.Containers.Ord.{Bytes, bytes_ord, bytes_eq, bytes_lt}
use white_board_server.Containers.Set.{contains}
use white_board_server.Containers.Map.{find, put}
use white_board_server.Resolver.{
  Service, get_lack_services, load_init_sort, sort_to_start, sort_to_stop,
}
use white_board_server.Resolver.Waiting.{IsDistinct}
use white_board_server.Services.{
  Methods, inject, init_call, start_call, stop_call, ServiceManager, new_manager, call_each,
  stop_each, after_call, init, start, stop,
}
use white_board_server.Services.Shutdown.{Runs, stop-start}

abbrev methods : Methods
methods = record {
  init = λ n s. (s, true);
  start = λ n s. (record s { is_running = true }, true);
  stop = λ n s. (record s { is_running = false }, true);
}

abbrev needs : List Bytes → Service
needs others = record { dependent_services = others; is_running = false }

abbrev account : Bytes
account = 97 ∷ 99 ∷ 99 ∷ 111 ∷ 117 ∷ 110 ∷ 116 ∷ []

abbrev dispatcher : Bytes
dispatcher = 100 ∷ []

abbrev registered : ServiceManager
registered = record new_manager {
  services = (account, needs (dispatcher ∷ [])) ∷ (dispatcher, needs []) ∷ [];
}

abbrev ready : ServiceManager
ready = record registered {
  orders = dispatcher ∷ account ∷ [];
  initialized = true;
  calls = inject account dispatcher ∷ init_call dispatcher ∷ init_call account ∷ [];
}

-- With two services that need each other Init succeeds and calls neither.
abbrev circle : ServiceManager
circle = record new_manager {
  services = (account, needs (dispatcher ∷ [])) ∷ (dispatcher, needs (account ∷ [])) ∷ [];
}

circle_succeeds : init methods circle ≡ some (true, record circle { initialized = true })
unfolding init get_lack_services load_init_sort find put contains bytes_eq bytes_lt
circle_succeeds = refl

abbrev on : ServiceManager
on = record ready {
  services =
      (account, record (needs (dispatcher ∷ [])) { is_running = true })
      ∷ (dispatcher, record (needs []) { is_running = true })
      ∷ [];
  running = true;
  calls =
      inject account dispatcher
      ∷ init_call dispatcher
      ∷ init_call account
      ∷ start_call dispatcher
      ∷ start_call account
      ∷ [];
}

abbrev off : ServiceManager
off = record ready {
  running = false;
  calls =
      inject account dispatcher
      ∷ init_call dispatcher
      ∷ init_call account
      ∷ start_call dispatcher
      ∷ start_call account
      ∷ stop_call account
      ∷ stop_call dispatcher
      ∷ [];
}

started : start methods ready ≡ some (true, on)
unfolding start sort_to_start call_each after_call find put bytes_eq bytes_lt
started = refl

stopped : stop methods on ≡ some (true, off)
unfolding stop sort_to_stop stop_each after_call find put bytes_eq bytes_lt
stopped = refl

stop-start_example :
    (off.calls
      ≡ (ready.calls ++ map start_call ready.orders) ++ map stop_call (reverse ready.orders))
    × (on.running ≡ true)
    × (off.running ≡ false)
unfolding contains bytes_eq find IsDistinct Runs
stop-start_example =
    stop-start methods ready on off (λ n s done. refl) (refl, (refl, tt))
      ((needs [], refl, refl), ((needs (dispatcher ∷ []), refl, refl), tt)) refl started stopped
