-- ===== src/Services/Startup.antt =====
-- What Init calls, and in which order.
use white_board_server.Prelude.{
  ℕ, ◌≡◌, ◌≢◌, Bool, true, false, some, List, [], ◌∷◌, ◌++◌, map, arith, ◌⊎◌, inl, inr, length, ◌∙◌,
  append_assoc, append-nil, Option-cases, Bool-cases,
}
use white_board_server.Containers.Ord.{Bytes, bytes_ord}
use white_board_server.Containers.Map.{find}
use white_board_server.Resolver.{Service, Row, get_lack_services}
use white_board_server.Resolver.Sorting.{IsOrder, IsBlocked}
use white_board_server.Services.Injecting.{injections}
use white_board_server.Services.{Methods, Call, init_call, ServiceManager, after_call, call_each}

-- A loop that calls a method of each service, and returns, has called it once on each in turn.
pub call_each-calls :
    (method : Bytes → Service → Service × Bool) (call : Bytes → Call) (l : List Bytes)
    (m m' : ServiceManager)
    → call_each method call l m ≡ some m'
    → (m'.calls ≡ m.calls ++ map call l) × (m'.orders ≡ m.orders)
unfolding call_each after_call
call_each-calls method call [] m m' h = (ground (arith, h, append-nil m.calls), ground (arith, h))
call_each-calls method call (n ∷ rest) m m' h = elim (Option-cases (find n m.services)) [
  | inl e ↦ absurd (ground (arith, e, h))
  | inr (s, e) ↦ elim (Bool-cases (method n s).1) [
    | inr failed ↦ absurd (ground (arith, e, failed, h))
    | inl done ↦
        let (logged, kept) =
          call_each-calls method call rest (after_call n (method n s).0 (call n) m) m'
            (ground (arith, e, done, h)) in
        (logged ∙ append_assoc m.calls (call n ∷ []) (map call rest), kept)
  ]
]

module _ (ms : Methods) where
  -- What Init has done when it succeeds: it injected into all new services what they depend on, and
  -- initialised them, each after those that it depends on, or, where they block one another, none.
  pub Initialised : List Row → ℕ → ServiceManager → ServiceManager → Type 0
  Initialised rows count m m' =
      (m'.initialized ≡ true)
      × (((new : List Bytes) × (m'.calls
              ≡ m.calls ++ (injections new m.services ++ map init_call new))
            × (m'.orders ≡ m.orders ++ new)
            × IsOrder rows m.orders new
            × (length new ≡ count))
          ⊎ (IsBlocked rows m'.orders × (m'.calls ≡ m.calls)))

  -- What Init has done by its result: it fails only if a service is lacking, and without a change.
  pub Finished : Bool → List Row → ℕ → ServiceManager → ServiceManager → Type 0
  unfolding Initialised
  Finished true rows count m m' = Initialised rows count m m'
  Finished false rows count m m' = (m' ≡ m) × (get_lack_services m.services m.orders ≢ [])
