-- ===== src/Resolver.antt =====
-- The order in which services start: class DependencyResolver (framework/server/dependencyResolver.cpp).
pub mod Waiting
pub mod Sorting
pub mod Order
pub mod Fresh
pub mod Tests
use white_board_server.Prelude.{
  ℕ, ◌+◌, Bool, true, false, not, ◌&&◌, Option, none, some, List, [], ◌∷◌, ◌++◌, leb, map, zero,
  suc, if◌then◌else◌, length, drop,
}
use white_board_server.Prelude.Int.{ℤ, pos, negsuc, minus_one}
use white_board_server.Containers.Ord.{Bytes, bytes_eq, bytes_ord}
use white_board_server.Containers.Map.{Map, find}
use white_board_server.Containers.Set.{contains}

-- What the resolver asks of a Service: GetDependentServices and IsRunning.
pub record Service : Type 0 where
  pub dependent_services : List Bytes
  pub is_running : Bool

-- The entries of indexMapName, vecDependency and out at one index.
pub record Row : Type 0 where
  pub name : Bytes
  pub dependency : List Bytes
  pub out : ℤ

-- graph[i][j], with the name of j; the names of two indices differ, as they are keys of a map.
pub has_edge : Row → Bytes → Bool
has_edge r j = not (bytes_eq r.name j) && contains j r.dependency

pub count_edges : Row → List Bytes → ℕ
unfolding has_edge
count_edges r [] = 0
count_edges r (j ∷ rest) = (if has_edge r j then 1 else 0) + count_edges r rest

abbrev pub names : List Row → List Bytes
names [] = []
names (r ∷ rest) = r.name ∷ names rest

abbrev pub new_rows : Map Bytes Service → List Row
new_rows [] = []
new_rows ((key, s) ∷ rest) =
    record { name = key; dependency = s.dependent_services; out = pos 0 } ∷ new_rows rest

-- The rows with the numbers of their edges.
pub count_out : List Row → List Row
unfolding count_edges
count_out rows = map (λ (r : Row). record r { out = pos (count_edges r (names rows)) }) rows

is_free : ℤ → Bool
is_free (pos zero) = true
is_free (pos (suc n)) = false
is_free (negsuc n) = false

-- The first index with out[j] == 0.
pub first_free : List Row → Option Row
unfolding is_free
first_free [] = none
first_free (r ∷ rest) = elim (is_free r.out) [ true ↦ some r | false ↦ first_free rest ]

less_one : ℤ → ℤ
less_one (pos zero) = negsuc 0
less_one (pos (suc n)) = pos n
less_one (negsuc n) = negsuc (n + 1)

-- out[j] = -1, and --out[k] where k has an edge to j.
pub release : Bytes → Row → Row
unfolding less_one has_edge
release j k =
    if bytes_eq k.name j
    then record k { out = minus_one }
    else if has_edge k j
    then record k { out = less_one k.out }
    else k

pub sort_rounds : ℕ → List Row → List Bytes → Bool × List Bytes
unfolding first_free release
sort_rounds zero rows orders = (true, orders)
sort_rounds (suc n) rows orders = elim (first_free rows) [
  | none ↦ (false, orders)
  | some j ↦ sort_rounds n (map (release j.name) rows) (orders ++ j.name ∷ [])
]

abbrev pub max_service_count : ℕ
max_service_count = 256

-- TopSort: whether it found an order, and orders_; `none` is a write outside graph and out.
pub top_sort : Map Bytes Service → List Bytes → Option (Bool × List Bytes)
unfolding count_out sort_rounds
top_sort services orders =
    let rows = count_out (new_rows services) in
    if leb (length services) max_service_count
    then some (sort_rounds (length services) rows orders)
    else none

-- GetNewServices
unfoldable pub get_new_services : Map Bytes Service → List Bytes → Map Bytes Service
get_new_services [] orders = []
get_new_services ((key, s) ∷ rest) orders =
    let later = get_new_services rest orders in
    if contains key orders then later else (key, s) ∷ later

unfoldable pub lacking : List Bytes → Map Bytes Service → List Bytes
lacking [] services = []
lacking (d ∷ rest) services = elim (find d services) [
  | none ↦ d ∷ lacking rest services
  | some _ ↦ lacking rest services
]

unfoldable pub lacking_of : Map Bytes Service → Map Bytes Service → List Bytes
unfolding lacking
lacking_of [] services = []
lacking_of ((key, s) ∷ rest) services =
    lacking s.dependent_services services ++ lacking_of rest services

-- GetLackServices
unfoldable pub get_lack_services : Map Bytes Service → List Bytes → List Bytes
unfolding lacking_of get_new_services
get_lack_services services orders = lacking_of (get_new_services services orders) services

-- LoadInitSort: the names that it added, or none of them, and orders_. Its int16_t offset is taken to
-- hold the length of orders_.
unfoldable pub load_init_sort : Map Bytes Service → List Bytes → Option (List Bytes × List Bytes)
unfolding top_sort get_new_services
load_init_sort services orders = elim (top_sort (get_new_services services orders) orders) [
  | none ↦ none
  | some (true, orders') ↦ some (drop (length orders) orders', orders')
  | some (false, orders') ↦ some ([], orders')
]

-- GetSort for STARTSORT: the names from the first service that does not run; `none` is a call
-- through a null pointer.
unfoldable pub sort_to_start : Map Bytes Service → List Bytes → Option (List Bytes)
sort_to_start services [] = some []
sort_to_start services (n ∷ rest) = elim (find n services) [
  | none ↦ none
  | some s ↦ elim s.is_running [ true ↦ sort_to_start services rest | false ↦ some (n ∷ rest) ]
]

-- GetSort for STOPSORT
unfoldable pub sort_to_stop : List Bytes → List Bytes
sort_to_stop orders = orders
