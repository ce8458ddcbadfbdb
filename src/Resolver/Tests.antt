-- ===== src/Resolver/Tests.antt =====
-- Two services, the first of which depends on the second, and a circle.
use white_board_server.Prelude.{◌≡◌, refl, true, false, some, List, [], ◌∷◌}
use white_board_server.Containers.Ord.{Bytes, bytes_ord, bytes_eq}
use white_board_server.Containers.Set.{contains}
use white_board_server.Containers.Map.{Map}
use white_board_server.Resolver.{
  Service, has_edge, count_edges, count_out, first_free, is_free, less_one, release, sort_rounds,
  top_sort,
}

abbrev needs : List Bytes → Service
needs others = record { dependent_services = others; is_running = false }

abbrev account : Bytes
account = 97 ∷ 99 ∷ 99 ∷ 111 ∷ 117 ∷ 110 ∷ 116 ∷ []

abbrev dispatcher : Bytes
dispatcher = 100 ∷ []

abbrev account_first : Map Bytes Service
account_first = (account, needs (dispatcher ∷ [])) ∷ (dispatcher, needs []) ∷ []

abbrev circle : Map Bytes Service
circle = (1 ∷ [], needs []) ∷ (2 ∷ [], needs ((3 ∷ []) ∷ [])) ∷ (3 ∷ [], needs ((2 ∷ []) ∷ [])) ∷ []

sorted_pair : top_sort account_first [] ≡ some (true, dispatcher ∷ account ∷ [])
unfolding top_sort count_out count_edges has_edge sort_rounds first_free is_free release less_one
    contains bytes_eq
sorted_pair = refl

-- A service that was placed before the circle showed stays in orders_.
circle_keeps : top_sort circle [] ≡ some (false, (1 ∷ []) ∷ [])
unfolding top_sort count_out count_edges has_edge sort_rounds first_free is_free release less_one
    contains bytes_eq
circle_keeps = refl
