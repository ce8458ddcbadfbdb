-- ===== src/Resolver/Order.antt =====
-- TopSort on the new services, whose names orders_ does not hold yet.
use white_board_server.Prelude.{
  ◌≡◌, ◌≤◌, refl, Bool, false, some, List, [], ◌∷◌, map, arith, All, length, sym, ap, subst, ◌∙◌,
}
use white_board_server.Prelude.Int.{ℤ, pos}
use white_board_server.Containers.Ord.{Bytes, bytes_ord}
use white_board_server.Containers.Set.{contains}
use white_board_server.Containers.Map.{Map, keys}
use white_board_server.Resolver.{
  Service, Row, has_edge, count_edges, names, new_rows, count_out, top_sort,
}
use white_board_server.Resolver.Waiting.{IsDistinct, FitsAt, Fits, waiting}
use white_board_server.Resolver.Sorting.{Sorted, sort_rounds-Sorted}

names-new_rows : (services : Map Bytes Service) → names (new_rows services) ≡ keys services
names-new_rows [] = refl
names-new_rows ((key, s) ∷ rest) = ap (λ l. key ∷ l) (names-new_rows rest)

names-count :
    (f : Row → ℤ) (rows : List Row)
    → names (map (λ (r : Row). record r { out = f r }) rows) ≡ names rows
names-count f [] = refl
names-count f (r ∷ rest) = ap (λ l. r.name ∷ l) (names-count f rest)

count_edges-waiting :
    (done : List Bytes) (r : Row) (z : ℤ) (all : List Bytes)
    → All (λ n. contains n done ≡ false) all
    → count_edges r all ≡ waiting done (record r { out = z }) all
unfolding count_edges waiting has_edge
count_edges-waiting done r z [] h = refl
count_edges-waiting done r z (n ∷ rest) h =
    ground (arith, h.0, count_edges-waiting done r z rest h.1)

counted-Fits :
    (done all : List Bytes) (rows : List Row)
    → All (λ n. contains n done ≡ false) all
    → All (λ n. contains n done ≡ false) (names rows)
    → All (Fits done all) (map (λ (r : Row). record r { out = pos (count_edges r all) }) rows)
unfolding Fits FitsAt
counted-Fits done all [] h k = tt
counted-Fits done all (r ∷ rest) h k = (
  (count_edges-waiting done r (pos (count_edges r all)) all h, k.0),
  counted-Fits done all rest h k.1,
)

names-count_out : (rows : List Row) → names (count_out rows) ≡ names rows
unfolding count_out
names-count_out rows = names-count (λ r. pos (count_edges r (names rows))) rows

count_out-Fits :
    (done : List Bytes) (rows : List Row)
    → All (λ n. contains n done ≡ false) (names rows)
    → All (Fits done (names (count_out rows))) (count_out rows)
unfolding count_out
count_out-Fits done rows h =
    subst (λ l. All (Fits done l) (count_out rows)) (sym (names-count_out rows))
      (counted-Fits done (names rows) rows h h)

pub top_sort-Sorted :
    (services : Map Bytes Service) (orders : List Bytes)
    → IsDistinct (keys services)
    → All (λ n. contains n orders ≡ false) (keys services)
    → length services ≤ 256
    → (r : Bool × List Bytes) × (top_sort services orders ≡ some r)
      × Sorted (length services) (count_out (new_rows services)) orders r
unfolding top_sort
top_sort-Sorted services orders d fresh small = (
  _,
  ground (arith, small),
  sort_rounds-Sorted (length services) (count_out (new_rows services)) orders
      (subst IsDistinct (sym same) d)
      (count_out-Fits orders (new_rows services)
        (subst (All (λ n. contains n orders ≡ false)) (sym (names-new_rows services)) fresh)),
)
  where
    same : names (count_out (new_rows services)) ≡ keys services
    same = names-count_out (new_rows services) ∙ names-new_rows services
