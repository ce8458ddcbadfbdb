-- ===== src/Services/Shutdown.antt =====
-- What Start and Stop call, and in which order.
use mathlib.Core.List.{reverse, reverse-cons}
use white_board_server.Prelude.{
  ◌≡◌, refl, Bool, true, false, some, List, [], ◌∷◌, ◌++◌, map, arith, All, inl, inr, sym, ap, ◌∙◌,
  subst, append_assoc, append-nil, ◌||◌, Option-cases, Bool-cases,
}
use white_board_server.Containers.Ord.{Bytes, bytes_ord, eq_symm}
use white_board_server.Containers.Set.{contains}
use white_board_server.Containers.Map.{Map, find, find-put, find-put_self}
use white_board_server.Resolver.{Service, sort_to_start, sort_to_stop}
use white_board_server.Resolver.Waiting.{IsDistinct}
use white_board_server.Services.{
  Methods, Call, start_call, stop_call, ServiceManager, after_call, call_each, stop_each, start,
  stop,
}
use white_board_server.Services.Startup.{call_each-calls}

-- A registered service that runs, or does not.
unfoldable pub Runs : Bool → Map Bytes Service → Bytes → Type 0
Runs b services n = (s : Service) × (find n services ≡ some s) × (s.is_running ≡ b)

module _ {A : Type 0} (P : A → Type 0) where
  All-append : (l l' : List A) → All P l → All P l' → All P (l ++ l')
  All-append [] l' h h' = h'
  All-append (x ∷ l) l' h h' = (h.0, All-append l l' h.1 h')

  All-reverse : (l : List A) → All P l → All P (reverse l)
  All-reverse [] h = tt
  All-reverse (x ∷ l) h =
      subst (All P) (sym (reverse-cons x l))
        (All-append (reverse l) (x ∷ []) (All-reverse l h.1) (h.0, tt))

contains-append :
    (n : Bytes) (l l' : List Bytes) → contains n (l ++ l') ≡ (contains n l || contains n l')
unfolding contains
contains-append n [] l' = refl
contains-append n (j ∷ l) l' = ground (arith, contains-append n l l')

contains-reverse : (n : Bytes) (l : List Bytes) → contains n (reverse l) ≡ contains n l
unfolding contains
contains-reverse n [] = refl
contains-reverse n (j ∷ l) =
    ap (contains n) (reverse-cons j l)
    ∙ ground (arith, contains-append n (reverse l) (j ∷ []), contains-reverse n l)

snoc-IsDistinct :
    (l : List Bytes) (n : Bytes) → IsDistinct l → contains n l ≡ false → IsDistinct (l ++ n ∷ [])
unfolding IsDistinct contains
snoc-IsDistinct [] n d h = (refl, tt)
snoc-IsDistinct (j ∷ l) n d h = (
  ground (arith, d.0, h, contains-append j l (n ∷ []), eq_symm j n),
  snoc-IsDistinct l n d.1 (ground (arith, h)),
)

reverse-IsDistinct : (l : List Bytes) → IsDistinct l → IsDistinct (reverse l)
unfolding IsDistinct
reverse-IsDistinct [] d = tt
reverse-IsDistinct (n ∷ l) d =
    subst IsDistinct (sym (reverse-cons n l))
      (snoc-IsDistinct (reverse l) n (reverse-IsDistinct l d.1) (contains-reverse n l ∙ d.0))

-- A call on one service leaves the others alone.
Runs-after_call :
    (b : Bool) (n : Bytes) (s : Service) (call : Call) (m : ServiceManager) (l : List Bytes)
    → contains n l ≡ false
    → All (Runs b m.services) l
    → All (Runs b (after_call n s call m).services) l
unfolding Runs after_call contains
Runs-after_call b n s call m [] h r = tt
Runs-after_call b n s call m (j ∷ l) h ((t, found, is), rest) = (
  (t, ground (arith, h, found, find-put n j s m.services, eq_symm j n), is),
  Runs-after_call b n s call m l (ground (arith, h)) rest,
)

call_each-find :
    (method : Bytes → Service → Service × Bool) (call : Bytes → Call) (j : Bytes) (l : List Bytes)
    (m m' : ServiceManager)
    → contains j l ≡ false
    → call_each method call l m ≡ some m'
    → find j m'.services ≡ find j m.services
unfolding call_each after_call contains
call_each-find method call j [] m m' h e = ground (arith, e)
call_each-find method call j (n ∷ l) m m' h e = elim (Option-cases (find n m.services)) [
  | inl lost ↦ absurd (ground (arith, lost, e))
  | inr (s, found) ↦ elim (Bool-cases (method n s).1) [
    | inr failed ↦ absurd (ground (arith, found, failed, e))
    | inl done ↦
        call_each-find method call j l (after_call n (method n s).0 (call n) m) m'
          (ground (arith, h)) (ground (arith, found, done, e))
        ∙ ground (arith, h, find-put n j (method n s).0 m.services)
  ]
]

-- Each service on which a loop calls a method is afterwards in the state that the method leaves.
call_each-Runs :
    (b : Bool) (method : Bytes → Service → Service × Bool) (call : Bytes → Call) (l : List Bytes)
    (m m' : ServiceManager)
    → ((n : Bytes) (s : Service) → (method n s).1 ≡ true → (method n s).0.is_running ≡ b)
    → IsDistinct l
    → call_each method call l m ≡ some m'
    → All (Runs b m'.services) l
unfolding call_each after_call IsDistinct Runs
call_each-Runs b method call [] m m' effect d e = tt
call_each-Runs b method call (n ∷ l) m m' effect d e = elim (Option-cases (find n m.services)) [
  | inl lost ↦ absurd (ground (arith, lost, e))
  | inr (s, found) ↦ elim (Bool-cases (method n s).1) [
    | inr failed ↦ absurd (ground (arith, found, failed, e))
    | inl done ↦
        let next = after_call n (method n s).0 (call n) m in
        let later : call_each method call l next ≡ some m' = ground (arith, found, done, e) in
        (
          (
            (method n s).0,
            call_each-find method call n l next m' d.0 later
                ∙ find-put_self n (method n s).0 m.services,
            effect n s done,
          ),
          call_each-Runs b method call l next m' effect d.1 later,
        )
  ]
]

after_call-calls :
    (n : Bytes) (s : Service) (call : Call) (m : ServiceManager) (l : List Call)
    → (after_call n s call m).calls ++ l ≡ m.calls ++ call ∷ l
unfolding after_call
after_call-calls n s call m l = append_assoc m.calls (call ∷ []) l

stop_each-calls :
    (method : Bytes → Service → Service × Bool) (l : List Bytes) (m m' : ServiceManager)
    → IsDistinct l
    → All (Runs true m.services) l
    → stop_each method l m ≡ some m'
    → m'.calls ≡ m.calls ++ map stop_call l
unfolding stop_each IsDistinct Runs
stop_each-calls method [] m m' d r e = ground (arith, e, append-nil m.calls)
stop_each-calls method (n ∷ l) m m' d ((s, found, runs), rest) e =
    elim (Bool-cases (method n s).1) [
      | inr failed ↦ absurd (ground (arith, found, runs, failed, e))
      | inl done ↦
          stop_each-calls method l (after_call n (method n s).0 (stop_call n) m) m' d.1
            (Runs-after_call true n (method n s).0 (stop_call n) m l d.0 rest)
            (ground (arith, found, runs, done, e))
          ∙ after_call-calls n (method n s).0 (stop_call n) m (map stop_call l)
    ]

sort_to_start-idle :
    (services : Map Bytes Service) (l : List Bytes)
    → All (Runs false services) l
    → sort_to_start services l ≡ some l
unfolding sort_to_start Runs
sort_to_start-idle services [] r = refl
sort_to_start-idle services (n ∷ l) ((s, found, idle), rest) = ground (arith, found, idle)

module _ (ms : Methods) where
  stop-calls :
      (m m' : ServiceManager)
      → IsDistinct m.orders
      → All (Runs true m.services) m.orders
      → stop ms m ≡ some (true, m')
      → (m'.calls ≡ m.calls ++ map stop_call (reverse m.orders)) × (m'.running ≡ false)
  unfolding stop sort_to_stop
  stop-calls m m' d runs e = elim (Option-cases (stop_each ms.stop (reverse m.orders) m)) [
    | inl g ↦ absurd (ground (arith, e, g))
    | inr (a, g) ↦
        let same : m' ≡ record a { running = false } = ground (arith, e, g) in
        (
          ap (λ (x : ServiceManager). x.calls) same
              ∙ stop_each-calls ms.stop (reverse m.orders) m a (reverse-IsDistinct m.orders d)
                  (All-reverse (Runs true m.services) m.orders runs) g,
          ap (λ (x : ServiceManager). x.running) same,
        )
  ]

  start-calls :
      (m m' : ServiceManager)
      → ((n : Bytes) (s : Service) → (ms.start n s).1 ≡ true → (ms.start n s).0.is_running ≡ true)
      → IsDistinct m.orders
      → All (Runs false m.services) m.orders
      → m.initialized ≡ true
      → start ms m ≡ some (true, m')
      → (m'.calls ≡ m.calls ++ map start_call m.orders)
        × (m'.orders ≡ m.orders)
        × All (Runs true m'.services) m.orders
        × (m'.running ≡ true)
  unfolding start
  start-calls m m' effect d idle ready e =
      elim (Option-cases (call_each ms.start start_call m.orders m)) [
        | inl g ↦ absurd (ground (arith, ready, e, g, sort_to_start-idle m.services m.orders idle))
        | inr (a, g) ↦
            let same : m' ≡ record a { running = true } =
              ground (arith, ready, e, g, sort_to_start-idle m.services m.orders idle) in
            let (logged, kept) = call_each-calls ms.start start_call m.orders m a g in
            (
              ap (λ (x : ServiceManager). x.calls) same ∙ logged,
              ap (λ (x : ServiceManager). x.orders) same ∙ kept,
              subst (λ (x : ServiceManager). All (Runs true x.services) m.orders) (sym same)
                  (call_each-Runs true ms.start start_call m.orders m a effect d g),
              ap (λ (x : ServiceManager). x.running) same,
            )
      ]

  -- A manager was initialised, the services in its order are registered, each is there once and
  -- none runs; a service whose start succeeds runs. If then Start and after it Stop succeed, Start
  -- has called all services in their order and Stop all in the opposite order.
  pub stop-start :
      (m m1 m2 : ServiceManager)
      → ((n : Bytes) (s : Service) → (ms.start n s).1 ≡ true → (ms.start n s).0.is_running ≡ true)
      → IsDistinct m.orders
      → All (Runs false m.services) m.orders
      → m.initialized ≡ true
      → start ms m ≡ some (true, m1)
      → stop ms m1 ≡ some (true, m2)
      → (m2.calls ≡ (m.calls ++ map start_call m.orders) ++ map stop_call (reverse m.orders))
        × (m1.running ≡ true)
        × (m2.running ≡ false)
  stop-start m m1 m2 effect d idle ready e f =
      let (logged, kept, runs, on) = start-calls m m1 effect d idle ready e in
      let (logged', off) =
        stop-calls m1 m2 (subst IsDistinct (sym kept) d)
          (subst (All (Runs true m1.services)) (sym kept) runs) f in
      (
        logged'
            ∙ ap (λ l. m1.calls ++ map stop_call (reverse l)) kept
            ∙ ap (λ l. l ++ map stop_call (reverse m.orders)) logged,
        on,
        off,
      )
