-- ===== src/Resolver/Fresh.antt =====
-- What GetNewServices leaves out, and what LoadInitSort returns.
use white_board_server.Prelude.{
  ℕ, ◌≡◌, ◌≤◌, refl, Bool, true, false, some, List, [], ◌∷◌, ◌++◌, arith, All, ◌⊎◌, inl, inr,
  length, Bool-cases, drop-length_append,
}
use white_board_server.Containers.Ord.{Bytes, bytes_ord}
use white_board_server.Containers.Set.{contains}
use white_board_server.Containers.Map.{Map, keys}
use white_board_server.Resolver.{
  Service, Row, new_rows, count_out, top_sort, get_new_services, load_init_sort,
}
use white_board_server.Resolver.Waiting.{IsDistinct}
use white_board_server.Resolver.Sorting.{IsOrder, IsBlocked, Sorted}
use white_board_server.Resolver.Order.{top_sort-Sorted}

length-get_new_services-le :
    (services : Map Bytes Service) (orders : List Bytes)
    → length (get_new_services services orders) ≤ length services
unfolding get_new_services
length-get_new_services-le [] orders = omega arith
length-get_new_services-le ((key, s) ∷ rest) orders =
    ground (arith, length-get_new_services-le rest orders)

get_new_services-fresh :
    (services : Map Bytes Service) (orders : List Bytes)
    → All (λ n. contains n orders ≡ false) (keys (get_new_services services orders))
unfolding get_new_services
get_new_services-fresh [] orders = tt
get_new_services-fresh ((key, s) ∷ rest) orders = elim (Bool-cases (contains key orders)) [
  | inl e ↦ rw e (get_new_services-fresh rest orders)
  | inr e ↦ rw e (e, get_new_services-fresh rest orders)
]

get_new_services_absent :
    (n : Bytes) (services : Map Bytes Service) (orders : List Bytes)
    → contains n (keys services) ≡ false
    → contains n (keys (get_new_services services orders)) ≡ false
unfolding get_new_services contains
get_new_services_absent n [] orders h = refl
get_new_services_absent n ((key, s) ∷ rest) orders h =
    ground (arith, h, get_new_services_absent n rest orders)

get_new_services-IsDistinct :
    (services : Map Bytes Service) (orders : List Bytes)
    → IsDistinct (keys services)
    → IsDistinct (keys (get_new_services services orders))
unfolding get_new_services IsDistinct
get_new_services-IsDistinct [] orders d = tt
get_new_services-IsDistinct ((key, s) ∷ rest) orders d = elim (Bool-cases (contains key orders)) [
  | inl e ↦ rw e (get_new_services-IsDistinct rest orders d.1)
  | inr e ↦
      rw e
        (get_new_services_absent key rest orders d.0, get_new_services-IsDistinct rest orders d.1)
]

-- What LoadInitSort returns and leaves in orders_: the names of all new services in an order that
-- respects what they depend on, or nothing, with those that were placed before the block.
unfoldable pub Loaded : List Row → ℕ → List Bytes → List Bytes × List Bytes → Type 0
Loaded rows rounds orders (new, orders') =
    ((orders' ≡ orders ++ new) × IsOrder rows orders new × (length new ≡ rounds))
    ⊎ ((new ≡ []) × IsBlocked rows orders')

Loaded-sort :
    (services : Map Bytes Service) (orders : List Bytes) (rows : List Row) (r : Bool × List Bytes)
    → top_sort (get_new_services services orders) orders ≡ some r
    → Sorted (length (get_new_services services orders)) rows orders r
    → (l : List Bytes × List Bytes) × (load_init_sort services orders ≡ some l)
      × Loaded rows (length (get_new_services services orders)) orders l
unfolding load_init_sort Sorted Loaded
Loaded-sort services orders rows (true, orders') e (new, f, order, count) =
    ((new, orders'), ground (arith, e, f, drop-length_append orders new), inl (f, order, count))
Loaded-sort services orders rows (false, orders') e (new, f, order, block) =
    (([], orders'), ground (arith, e), inr (refl, block))

pub load_init_sort-Loaded :
    (services : Map Bytes Service) (orders : List Bytes)
    → IsDistinct (keys services)
    → length services ≤ 256
    → (l : List Bytes × List Bytes) × (load_init_sort services orders ≡ some l)
      × Loaded
          (count_out (new_rows (get_new_services services orders)))
          (length (get_new_services services orders))
          orders
          l
load_init_sort-Loaded services orders d small =
    let (r, e, sorted) =
      top_sort-Sorted (get_new_services services orders) orders
        (get_new_services-IsDistinct services orders d) (get_new_services-fresh services orders)
        (omega (arith, length-get_new_services-le services orders, small)) in
    Loaded-sort services orders (count_out (new_rows (get_new_services services orders))) r e sorted
