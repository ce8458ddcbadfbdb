-- ===== src/Services/Injecting.antt =====
-- What Init injects into the services that it is about to initialise.
use white_board_server.Prelude.{
  ◌≡◌, refl, false, Option, none, some, List, [], ◌∷◌, ◌++◌, map, arith, All, inl, inr, ap, ◌∙◌,
  Option-cases, Bool-cases,
}
use white_board_server.Containers.Ord.{Bytes, bytes_ord}
use white_board_server.Containers.Set.{contains}
use white_board_server.Containers.Map.{Map, find}
use white_board_server.Resolver.{
  Service, Row, get_new_services, lacking, lacking_of, get_lack_services,
}
use white_board_server.Resolver.Waiting.{contains-snoc}
use white_board_server.Resolver.Sorting.{IsOrder}
use white_board_server.Services.{Call, inject, inject_each, inject_all}

-- The services that a registered one depends on.
abbrev pub dependencies : Bytes → Map Bytes Service → List Bytes
dependencies n services = elim (find n services) [ none ↦ [] | some s ↦ s.dependent_services ]

-- Into each service of a list, every service that it depends on.
abbrev pub injections : List Bytes → Map Bytes Service → List Call
injections [] services = []
injections (n ∷ rest) services =
    map (inject n) (dependencies n services) ++ injections rest services

inject_each_all :
    (n : Bytes) (ds : List Bytes) (services : Map Bytes Service)
    → lacking ds services ≡ []
    → inject_each n ds services ≡ map (inject n) ds
unfolding inject_each lacking
inject_each_all n [] services h = refl
inject_each_all n (d ∷ rest) services h = elim (Option-cases (find d services)) [
  | inl e ↦ absurd (ground (arith, e, h))
  | inr (s, e) ↦ ground (arith, e, inject_each_all n rest services (ground (arith, e, h)))
]

-- What a service depends on is registered.
Complete : Map Bytes Service → Bytes → Type 0
Complete services n = lacking (dependencies n services) services ≡ []

append_empty_left : (l l' : List Bytes) → l ++ l' ≡ [] → l ≡ []
append_empty_left [] l' h = refl
append_empty_left (x ∷ l) l' h = absurd (ground (arith, h))

append_empty_right : (l l' : List Bytes) → l ++ l' ≡ [] → l' ≡ []
append_empty_right [] l' h = h
append_empty_right (x ∷ l) l' h = absurd (ground (arith, h))

-- None of the new services lacks one, so each service that is not in the order is complete.
none_lacking :
    (n : Bytes) (part services : Map Bytes Service) (orders : List Bytes)
    → contains n orders ≡ false
    → lacking_of (get_new_services part orders) services ≡ []
    → lacking (dependencies n part) services ≡ []
unfolding get_new_services lacking_of lacking find
none_lacking n [] services orders fresh h = refl
none_lacking n ((key, s) ∷ part) services orders fresh h =
    let later = none_lacking n part services orders fresh in
    elim (Bool-cases (bytes_ord.eq key n)) [
      | inl same ↦
          let e : key ≡ n = (bytes_ord.eq_iff key n).0 same in
          let out : contains key orders ≡ false = ap (λ k. contains k orders) e ∙ fresh in
          by_found (find n ((key, s) ∷ part)) (some s) (ground (arith, same)) (
            append_empty_left (lacking s.dependent_services services)
              (lacking_of (get_new_services part orders) services) (ground (arith, out, h)))
      | inr other ↦ elim (Bool-cases (contains key orders)) [
        | inl old ↦
            by_found (find n ((key, s) ∷ part)) (find n part) (ground (arith, other))
              (later (ground (arith, old, h)))
        | inr new ↦ by_found (find n ((key, s) ∷ part)) (find n part) (ground (arith, other)) (
            later (
              append_empty_right (lacking s.dependent_services services)
                (lacking_of (get_new_services part orders) services) (ground (arith, new, h))))
      ]
    ]
  where
    by_found :
        (o o' : Option Service)
        → o ≡ o'
        → lacking (elim o' [ none ↦ [] | some t ↦ t.dependent_services ]) services ≡ []
        → lacking (elim o [ none ↦ [] | some t ↦ t.dependent_services ]) services ≡ []
    by_found o o' e k =
        ap (λ x. lacking (elim x [ none ↦ [] | some t ↦ t.dependent_services ]) services) e ∙ k

-- The names of an order are not among those that are done.
IsOrder-fresh :
    (rows : List Row) (done l : List Bytes)
    → IsOrder rows done l
    → All (λ n. contains n done ≡ false) l
unfolding IsOrder
IsOrder-fresh rows done [] h = tt
IsOrder-fresh rows done (n ∷ rest) h =
    (h.1, shorter rest (IsOrder-fresh rows (done ++ n ∷ []) rest h.3))
  where
    shorter :
        (l : List Bytes)
        → All (λ m. contains m (done ++ n ∷ []) ≡ false) l
        → All (λ m. contains m done ≡ false) l
    shorter [] k = tt
    shorter (m ∷ l) k = (ground (arith, k.0, contains-snoc m n done), shorter l k.1)

inject_all_lem :
    (l : List Bytes) (services : Map Bytes Service) (out : List Call)
    → All (Complete services) l
    → inject_all l services ≡ some out
    → out ≡ injections l services
unfolding inject_all Complete
inject_all_lem [] services out complete h = ground (arith, h)
inject_all_lem (n ∷ rest) services out complete h = elim (Option-cases (find n services)) [
  | inl e ↦ absurd (ground (arith, e, h))
  | inr (s, e) ↦ elim (Option-cases (inject_all rest services)) [
    | inl f ↦ absurd (ground (arith, e, f, h))
    | inr (later, f) ↦ ground (
      arith,
      e,
      f,
      h,
      inject_each_all n s.dependent_services services,
      complete.0,
      inject_all_lem rest services later complete.1 f,
    )
  ]
]

-- If no service is lacking, the new services of an order are injected with all that they depend on.
pub inject_all-injections :
    (rows : List Row) (orders new : List Bytes) (services : Map Bytes Service) (out : List Call)
    → get_lack_services services orders ≡ []
    → IsOrder rows orders new
    → inject_all new services ≡ some out
    → out ≡ injections new services
unfolding get_lack_services Complete
inject_all-injections rows orders new services out none_lacks order h =
    inject_all_lem new services out (all_complete new (IsOrder-fresh rows orders new order)) h
  where
    all_complete :
        (l : List Bytes) → All (λ n. contains n orders ≡ false) l → All (Complete services) l
    all_complete [] k = tt
    all_complete (n ∷ l) k =
        (none_lacking n services services orders k.0 none_lacks, all_complete l k.1)
