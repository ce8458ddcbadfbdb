-- ===== src/Containers/Set.antt =====
-- `std::set`: its members in ascending order, each once.
use white_board_server.Prelude.{
  ◌≡◌, refl, Bool, true, false, ◌||◌, List, [], ◌∷◌, arith, if◌then◌else◌, All,
}
use white_board_server.Containers.Ord.{Ord, eq_refl}

module _ {ℓ} {K : Type ℓ} ⦃o : Ord K⦄ where
  unfoldable pub contains : K → List K → Bool
  contains k [] = false
  contains k (j ∷ s) = o.eq j k || contains k s

  unfoldable pub add : K → List K → List K
  add k [] = k ∷ []
  add k (j ∷ s) = if o.eq j k then j ∷ s else if o.lt k j then k ∷ j ∷ s else j ∷ add k s

  unfoldable pub discard : K → List K → List K
  discard k [] = []
  discard k (j ∷ s) = let rest = discard k s in if o.eq j k then rest else j ∷ rest

  pub contains-add : (k j : K) (s : List K) → contains j (add k s) ≡ (o.eq k j || contains j s)
  unfolding contains add
  contains-add k j [] = refl
  contains-add k j (i ∷ s) =
      ground (arith, o.eq_iff i k, o.eq_iff i j, o.eq_iff k j, contains-add k j s)

  pub contains-discard :
      (k j : K) (s : List K) → contains j (discard k s) ≡ (if o.eq k j then false else contains j s)
  unfolding contains discard
  contains-discard k j [] = ground arith
  contains-discard k j (i ∷ s) =
      ground (arith, o.eq_iff i k, o.eq_iff i j, o.eq_iff k j, contains-discard k j s)

  -- Each member lies below all that follow it, so the list is in order and has none twice.
  abbrev pub IsAscending : List K → Type 0
  IsAscending [] = Unit
  IsAscending (k ∷ s) = All (λ j. o.lt k j ≡ true) s × IsAscending s

  All-add :
      (i k : K) (s : List K)
      → o.lt i k ≡ true
      → All (λ j. o.lt i j ≡ true) s
      → All (λ j. o.lt i j ≡ true) (add k s)
  unfolding add
  All-add i k [] h a = (h, tt)
  All-add i k (j ∷ s) h a = ground (arith, All-add i k s h a.1)

  All-trans :
      (k j : K) (s : List K)
      → o.lt k j ≡ true
      → All (λ i. o.lt j i ≡ true) s
      → All (λ i. o.lt k i ≡ true) s
  All-trans k j [] h a = tt
  All-trans k j (i ∷ s) h a = (o.lt_trans k j i h a.0, All-trans k j s h a.1)

  pub add-IsAscending : (k : K) (s : List K) → IsAscending s → IsAscending (add k s)
  unfolding add
  add-IsAscending k [] a = (tt, tt)
  add-IsAscending k (j ∷ s) a = ground (
    arith,
    add-IsAscending k s a.1,
    All-add j k s,
    All-trans k j s,
    o.lt_connex k j,
    o.eq_iff j k,
    o.eq_iff k j,
  )

  All-discard {κ} : (P : K → Type κ) (k : K) (s : List K) → All P s → All P (discard k s)
  unfolding discard
  All-discard P k [] a = a
  All-discard P k (j ∷ s) a = ground (arith, All-discard P k s a.1)

  pub discard-IsAscending : (k : K) (s : List K) → IsAscending s → IsAscending (discard k s)
  unfolding discard
  discard-IsAscending k [] a = a
  discard-IsAscending k (j ∷ s) a =
      ground (arith, discard-IsAscending k s a.1, All-discard (λ i. o.lt j i ≡ true) k s a.0)

module _ {A : Type 0} ⦃o : Ord A⦄ where
  pub contains-one : (x : A) → contains x (x ∷ []) ≡ true
  unfolding contains
  contains-one x = ground (arith, eq_refl x)

  pub discard-one : (x : A) → discard x (x ∷ []) ≡ []
  unfolding discard
  discard-one x = ground (arith, eq_refl x)
