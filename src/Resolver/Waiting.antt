-- ===== src/Resolver/Waiting.antt =====
-- What the numbers of TopSort count, while it releases the services that it has placed.
use white_board_server.Prelude.{
  ℕ, ◌+◌, ◌≡◌, refl, Bool, true, false, not, ◌&&◌, ◌||◌, List, [], ◌∷◌, ◌++◌, map, zero, suc, arith,
  Bool-cases, inl, inr, if◌then◌else◌, sym, subst,
}
use white_board_server.Prelude.Int.{ℤ, pos, negsuc, minus_one}
use white_board_server.Containers.Ord.{Bytes, bytes_eq, bytes_ord, bytes-IsLawful, eq_refl}
use white_board_server.Containers.Set.{contains}
use white_board_server.Resolver.{Row, has_edge, names, less_one, release}

-- How many names a service still waits for: those it depends on that are not done.
unfoldable pub waiting : List Bytes → Row → List Bytes → ℕ
waiting done r [] = 0
waiting done r (n ∷ rest) =
    (if has_edge r n && not (contains n done) then 1 else 0) + waiting done r rest

pub contains-snoc :
    (n j : Bytes) (done : List Bytes)
    → contains n (done ++ j ∷ []) ≡ (contains n done || bytes_eq j n)
unfolding contains
contains-snoc n j [] = ground arith
contains-snoc n j (i ∷ done) = ground (arith, contains-snoc n j done)

waiting_absent :
    (done : List Bytes) (r : Row) (j : Bytes) (all : List Bytes)
    → contains j all ≡ false
    → waiting (done ++ j ∷ []) r all ≡ waiting done r all
unfolding waiting contains
waiting_absent done r j [] h = refl
waiting_absent done r j (n ∷ rest) h = ground (
  arith,
  h,
  contains-snoc n j done,
  bytes-IsLawful.eq_iff n j,
  bytes-IsLawful.eq_iff j n,
  waiting_absent done r j rest,
)

unfoldable pub IsDistinct : List Bytes → Type 0
IsDistinct [] = Unit
IsDistinct (n ∷ rest) = (contains n rest ≡ false) × IsDistinct rest

waiting_done :
    (done : List Bytes) (r : Row) (j : Bytes) (all : List Bytes)
    → IsDistinct all
    → contains j all ≡ true
    → contains j done ≡ false
    → (if has_edge r j then 1 else 0) + waiting (done ++ j ∷ []) r all ≡ waiting done r all
unfolding waiting contains IsDistinct
waiting_done done r j [] d h k = ground (arith, h)
waiting_done done r j (n ∷ rest) d h k = elim (Bool-cases (bytes_eq n j)) [
  | inl same ↦
      let e = (bytes-IsLawful.eq_iff n j).0 same in
      let away : contains j rest ≡ false = subst (λ i. contains i rest ≡ false) e d.0 in
      rw (e, contains-snoc j j done, k, eq_refl j, waiting_absent done r j rest away)
        (ground (arith))
  | inr apart ↦
      let back = bytes-IsLawful.eq_iff j n in
      ground (
        arith,
        apart,
        back,
        bytes-IsLawful.eq_iff n j,
        contains-snoc n j done,
        waiting_done done r j rest d.1 (ground (arith, h, apart)) k,
      )
]

-- What the number of a row says: how many names it waits for, or that it is done.
unfoldable pub FitsAt : ℤ → ℕ → Bool → Type 0
FitsAt (pos n) w done = (n ≡ w) × (done ≡ false)
FitsAt (negsuc n) w done = (w ≡ 0) × (done ≡ true)

unfoldable pub Fits : List Bytes → List Bytes → Row → Type 0
unfolding FitsAt
Fits done all r = FitsAt r.out (waiting done r all) (contains r.name done)

less_one-FitsAt :
    (z : ℤ) (w w' : ℕ) (done edge : Bool)
    → (if edge then 1 else 0) + w' ≡ w
    → FitsAt z w done
    → FitsAt (if edge then less_one z else z) w' done
unfolding FitsAt less_one
less_one-FitsAt (pos zero) w w' done true h (e, d) = absurd (omega (arith, h, e))
less_one-FitsAt (pos (suc n)) w w' done true h (e, d) = (omega (arith, h, e), d)
less_one-FitsAt (negsuc n) w w' done true h (e, d) = absurd (omega (arith, h, e))
less_one-FitsAt (pos n) w w' done false h (e, d) = (omega (arith, h, e), d)
less_one-FitsAt (negsuc n) w w' done false h (e, d) = (omega (arith, h, e), d)

pub release-name : (j : Bytes) (r : Row) → (release j r).name ≡ r.name
unfolding release
release-name j r = ground arith

release-out :
    (j : Bytes) (r : Row)
    → (release j r).out
      ≡ (if bytes_eq r.name j then minus_one else if has_edge r j then less_one r.out else r.out)
unfolding release
release-out j r = ground arith

has_edge_self : (j : Bytes) (r : Row) → bytes_eq r.name j ≡ true → has_edge r j ≡ false
unfolding has_edge
has_edge_self j r h = ground (arith, h)

pub release-waiting :
    (done : List Bytes) (j : Bytes) (r : Row) (all : List Bytes)
    → waiting done (release j r) all ≡ waiting done r all
unfolding waiting release has_edge
release-waiting done j r [] = refl
release-waiting done j r (n ∷ rest) = ground (arith, release-waiting done j r rest)

pub release-Fits :
    (done : List Bytes) (all : List Bytes) (j : Bytes) (r : Row)
    → IsDistinct all
    → contains j all ≡ true
    → contains j done ≡ false
    → (bytes_eq r.name j ≡ true → waiting done r all ≡ 0)
    → Fits done all r
    → Fits (done ++ j ∷ []) all (release j r)
unfolding Fits FitsAt
release-Fits done all j r d h k free fits =
    let step = waiting_done done r j all d h k in
    let snoc = contains-snoc r.name j done in
    elim (Bool-cases (bytes_eq r.name j)) [
      | inl same ↦
          let back =
            (bytes-IsLawful.eq_iff j r.name).1 (sym ((bytes-IsLawful.eq_iff r.name j).0 same)) in
          rw (release-waiting, release-name, release-out, same)
            (ground (arith, step, free same, has_edge_self j r same), ground (arith, snoc, back))
      | inr apart ↦
          let back : bytes_eq j r.name ≡ false =
            ground (arith, apart, bytes-IsLawful.eq_iff j r.name, bytes-IsLawful.eq_iff r.name j) in
          let still : contains r.name (done ++ j ∷ []) ≡ contains r.name done =
            ground (arith, snoc, back) in
          rw (release-waiting, release-name, release-out, apart, still)
            (less_one-FitsAt r.out (waiting done r all) (waiting (done ++ j ∷ []) r all)
              (contains r.name done) (has_edge r j) step fits)
    ]

pub names-release : (j : Bytes) (rows : List Row) → names (map (release j) rows) ≡ names rows
names-release j [] = refl
names-release j (r ∷ rest) = rw (release-name, names-release j rest) refl
