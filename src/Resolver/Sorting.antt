-- ===== src/Resolver/Sorting.antt =====
-- The order that TopSort makes, and where a service stands in it.
use white_board_server.Prelude.{
  ℕ, ◌≡◌, refl, Bool, true, false, none, some, List, [], ◌∷◌, ◌++◌, map, zero, suc, arith, ◌≤◌, All,
  Bool-cases, inl, inr, if◌then◌else◌, length, ◌∙◌, sym, ap, Option-cases, subst, append-nil,
}
use white_board_server.Prelude.Int.{ℤ, pos, negsuc}
use white_board_server.Containers.Ord.{Bytes, bytes_ord, bytes-IsLawful, eq_refl}
use white_board_server.Containers.Set.{contains}
use white_board_server.Resolver.{Row, names, is_free, first_free, release, sort_rounds}
use white_board_server.Resolver.Waiting.{
  waiting, IsDistinct, FitsAt, Fits, release-waiting, release-name, release-Fits, names-release,
}

-- The list names services of the rows, each once, and each waits for none that is not before it;
-- `done` are those before the list.
unfoldable pub IsOrder : List Row → List Bytes → List Bytes → Type 0
IsOrder rows done [] = Unit
IsOrder rows done (n ∷ rest) =
    (contains n (names rows) ≡ true)
    × (contains n done ≡ false)
    × All (λ (r : Row). r.name ≡ n → waiting done r (names rows) ≡ 0) rows
    × IsOrder rows (done ++ n ∷ []) rest

absent-All :
    (n : Bytes) (P : Row → Type 0) (rows : List Row)
    → contains n (names rows) ≡ false
    → All (λ (r : Row). r.name ≡ n → P r) rows
unfolding contains
absent-All n P [] h = tt
absent-All n P (r ∷ rest) h = (
  λ e. absurd (ground (arith, h, (bytes-IsLawful.eq_iff r.name n).1 e)),
  absent-All n P rest (ground (arith, h)),
)

Chosen : List Bytes → List Bytes → List Row → Row → Type 0
Chosen done all rows j =
    (contains j.name (names rows) ≡ true)
    × (contains j.name done ≡ false)
    × All (λ (r : Row). r.name ≡ j.name → waiting done r all ≡ 0) rows

is_free-zero : (z : ℤ) → is_free z ≡ true → z ≡ pos 0
unfolding is_free
is_free-zero (pos zero) h = refl
is_free-zero (pos (suc n)) h = absurd (ground (arith, h))
is_free-zero (negsuc n) h = absurd (ground (arith, h))

free-FitsAt : (z : ℤ) (w : ℕ) (b : Bool) → is_free z ≡ true → FitsAt z w b → (w ≡ 0) × (b ≡ false)
unfolding FitsAt is_free
free-FitsAt (pos zero) w b h (e, d) = (sym e, d)
free-FitsAt (pos (suc n)) w b h fits = absurd (ground (arith, h))
free-FitsAt (negsuc n) w b h fits = absurd (ground (arith, h))

first_free-Chosen :
    (done all : List Bytes) (rows : List Row) (j : Row)
    → IsDistinct (names rows)
    → All (Fits done all) rows
    → first_free rows ≡ some j
    → Chosen done all rows j
unfolding first_free Chosen Fits IsDistinct contains
first_free-Chosen done all [] j d fits h = absurd (ground (arith, h))
first_free-Chosen done all (r ∷ rest) j d fits h = elim (Bool-cases (is_free r.out)) [
  | inl free ↦
      let (none_left, fresh) =
        free-FitsAt r.out (waiting done r all) (contains r.name done) free fits.0 in
      let same : r ≡ j = ground (arith, free, h) in
      subst (Chosen done all (r ∷ rest)) same (
        ground (arith, eq_refl r.name),
        fresh,
        ((λ e. none_left), absent-All r.name (λ q. waiting done q all ≡ 0) rest d.0),
      )
  | inr busy ↦
      let (there, fresh, later) =
        first_free-Chosen done all rest j d.1 fits.1 (ground (arith, busy, h)) in
      (
        ground (arith, there),
        fresh,
        (
          (λ e. absurd (ground (arith, there, subst (λ i. contains i (names rest) ≡ false) e d.0))),
          later,
        ),
      )
]

release_rows-Fits :
    (done all : List Bytes) (j : Bytes) (rows : List Row)
    → IsDistinct all
    → contains j all ≡ true
    → contains j done ≡ false
    → All (λ (r : Row). r.name ≡ j → waiting done r all ≡ 0) rows
    → All (Fits done all) rows
    → All (Fits (done ++ j ∷ []) all) (map (release j) rows)
release_rows-Fits done all j [] d h k free fits = tt
release_rows-Fits done all j (r ∷ rest) d h k free fits = (
  release-Fits done all j r d h k (λ e. free.0 ((bytes-IsLawful.eq_iff r.name j).0 e)) fits.0,
  release_rows-Fits done all j rest d h k free.1 fits.1,
)

All-release :
    (P : Row → Type 0) {Q : Row → Type 0} (j : Bytes) (rows : List Row)
    → ((r : Row) → P (release j r) → Q r)
    → All P (map (release j) rows)
    → All Q rows
All-release P j [] f h = tt
All-release P j (r ∷ rest) f h = (f r h.0, All-release P j rest f h.1)

IsOrder-release :
    (j : Bytes) (rows : List Row) (done new : List Bytes)
    → IsOrder (map (release j) rows) done new
    → IsOrder rows done new
unfolding IsOrder
IsOrder-release j rows done [] h = tt
IsOrder-release j rows done (n ∷ new) h = (
  subst (λ l. contains n l ≡ true) (names-release j rows) h.0,
  h.1,
  All-release (λ r. r.name ≡ n → waiting done r (names (map (release j) rows)) ≡ 0) j rows
      (λ r k e.
        sym (release-waiting done j r (names rows))
        ∙ ap (λ l. waiting done (release j r) l) (sym (names-release j rows))
        ∙ k (release-name j r ∙ e))
      h.2,
  IsOrder-release j rows (done ++ n ∷ []) new h.3,
)

-- A service that is not done waits for another that is not.
pub IsBlocked : List Row → List Bytes → Type 0
IsBlocked rows done =
    All (λ (r : Row). contains r.name done ≡ false → 1 ≤ waiting done r (names rows)) rows

IsBlocked-release :
    (j : Bytes) (rows : List Row) (done : List Bytes)
    → IsBlocked (map (release j) rows) done
    → IsBlocked rows done
unfolding IsBlocked
IsBlocked-release j rows done =
    All-release
      (λ r. contains r.name done ≡ false → 1 ≤ waiting done r (names (map (release j) rows))) j rows
      (λ r k e.
        subst (λ n. 1 ≤ n)
          (ap (λ l. waiting done (release j r) l) (names-release j rows)
            ∙ release-waiting done j r (names rows))
          (k (ap (λ n. contains n done) (release-name j r) ∙ e)))

busy-FitsAt : (z : ℤ) (w : ℕ) (b : Bool) → is_free z ≡ false → FitsAt z w b → b ≡ false → 1 ≤ w
unfolding FitsAt is_free
busy-FitsAt (pos zero) w b h fits k = absurd (ground (arith, h))
busy-FitsAt (pos (suc n)) w b h (e, d) k = omega (arith, e)
busy-FitsAt (negsuc n) w b h (e, d) k = absurd (ground (arith, d, k))

stuck-IsBlocked :
    (done all : List Bytes) (rows : List Row)
    → All (Fits done all) rows
    → first_free rows ≡ none
    → All (λ (r : Row). contains r.name done ≡ false → 1 ≤ waiting done r all) rows
unfolding first_free Fits
stuck-IsBlocked done all [] fits h = tt
stuck-IsBlocked done all (r ∷ rest) fits h = elim (Bool-cases (is_free r.out)) [
  | inl free ↦ absurd (ground (arith, free, h))
  | inr busy ↦ (
    busy-FitsAt r.out (waiting done r all) (contains r.name done) busy fits.0,
    stuck-IsBlocked done all rest fits.1 (ground (arith, busy, h)),
  )
]

-- What some rounds do: they add an order of services, one in each round, or stop at a block.
unfoldable pub Sorted : ℕ → List Row → List Bytes → Bool × List Bytes → Type 0
Sorted rounds rows done (found, orders) =
    (new : List Bytes) × (orders ≡ done ++ new)
    × IsOrder rows done new
    × (if found then length new ≡ rounds else IsBlocked rows orders)

pub append-one : (j : Bytes) (done new : List Bytes) → (done ++ j ∷ []) ++ new ≡ done ++ (j ∷ new)
append-one j [] new = refl
append-one j (i ∷ done) new = ap (λ l. i ∷ l) (append-one j done new)

Sorted-round :
    (n : ℕ) (rows : List Row) (done : List Bytes) (j : Row) (r : Bool × List Bytes)
    → Chosen done (names rows) rows j
    → Sorted n (map (release j.name) rows) (done ++ j.name ∷ []) r
    → Sorted (suc n) rows done r
unfolding Sorted IsOrder Chosen
Sorted-round n rows done j (true, orders) (there, fresh, free) (new, e, order, count) = (
  j.name ∷ new,
  e ∙ append-one j.name done new,
  (there, fresh, free, IsOrder-release j.name rows (done ++ j.name ∷ []) new order),
  omega (arith, count),
)
Sorted-round n rows done j (false, orders) (there, fresh, free) (new, e, order, block) = (
  j.name ∷ new,
  e ∙ append-one j.name done new,
  (there, fresh, free, IsOrder-release j.name rows (done ++ j.name ∷ []) new order),
  IsBlocked-release j.name rows orders block,
)

Sorted-end : (rows : List Row) (done : List Bytes) → Sorted 0 rows done (true, done)
unfolding Sorted IsOrder
Sorted-end rows done = ([], sym (append-nil done), tt, refl)

Sorted-stuck :
    (n : ℕ) (rows : List Row) (done : List Bytes)
    → All (Fits done (names rows)) rows
    → first_free rows ≡ none
    → Sorted n rows done (false, done)
unfolding Sorted IsOrder IsBlocked
Sorted-stuck n rows done fits stuck =
    ([], sym (append-nil done), tt, stuck-IsBlocked done (names rows) rows fits stuck)

next_round-Fits :
    (rows : List Row) (done : List Bytes) (j : Row)
    → IsDistinct (names rows)
    → Chosen done (names rows) rows j
    → All (Fits done (names rows)) rows
    → All
        (Fits (done ++ j.name ∷ []) (names (map (release j.name) rows)))
        (map (release j.name) rows)
unfolding Chosen
next_round-Fits rows done j d (there, fresh, free) fits =
    rw (names-release j.name rows)
      (release_rows-Fits done (names rows) j.name rows d there fresh free fits)

pub sort_rounds-Sorted :
    (n : ℕ) (rows : List Row) (done : List Bytes)
    → IsDistinct (names rows)
    → All (Fits done (names rows)) rows
    → Sorted n rows done (sort_rounds n rows done)
unfolding sort_rounds
sort_rounds-Sorted zero rows done d fits = Sorted-end rows done
sort_rounds-Sorted (suc n) rows done d fits = elim (Option-cases (first_free rows)) [
  | inl stuck ↦ rw (sort_rounds, stuck) (Sorted-stuck (suc n) rows done fits stuck)
  | inr (j, e) ↦
      let chosen = first_free-Chosen done (names rows) rows j d fits e in
      let same = names-release j.name rows in
      rw (sort_rounds, e)
        (Sorted-round n rows done j
          (sort_rounds n (map (release j.name) rows) (done ++ j.name ∷ [])) chosen
          (sort_rounds-Sorted n (map (release j.name) rows) (done ++ j.name ∷ [])
            (subst IsDistinct (sym same) d) (next_round-Fits rows done j d chosen fits)))
]
