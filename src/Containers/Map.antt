-- ===== src/Containers/Map.antt =====
-- `std::map`, and `std::set` as a map to the unit type: the entries in the order of their keys.
use white_board_server.Prelude.{
  ◌≡◌, refl, true, List, [], ◌∷◌, Option, none, some, arith, if◌then◌else◌, All,
}
use white_board_server.Containers.Ord.{Ord, eq_refl}
use white_board_server.Containers.Set.{add, discard, IsAscending}

abbrev pub Map {ℓ κ} : Type ℓ → Type κ → Type (ℓ ⊔ κ)
Map K V = List (K × V)

abbrev pub keys {ℓ κ} : {K : Type ℓ} {V : Type κ} → Map K V → List K
keys [] = []
keys ((k, v) ∷ m) = k ∷ keys m

module _ {ℓ κ} {K : Type ℓ} {V : Type κ} ⦃o : Ord K⦄ where
  unfoldable pub find : K → Map K V → Option V
  find k [] = none
  find k ((j, v) ∷ m) = if o.eq j k then some v else find k m

  -- m[k] = v
  unfoldable pub put : K → V → Map K V → Map K V
  put k v [] = (k, v) ∷ []
  put k v ((j, w) ∷ m) =
      if o.eq j k then (k, v) ∷ m else if o.lt k j then (k, v) ∷ (j, w) ∷ m else (j, w) ∷ put k v m

  -- m.insert({k, v}) leaves an entry that is there alone.
  unfoldable pub insert : K → V → Map K V → Map K V
  insert k v m = elim (find k m) [ none ↦ put k v m | some w ↦ m ]

  unfoldable pub erase : K → Map K V → Map K V
  erase k [] = []
  erase k ((j, v) ∷ m) = let rest = erase k m in if o.eq j k then rest else (j, v) ∷ rest

  pub find-put :
      (k j : K) (v : V) (m : Map K V) → find j (put k v m) ≡ (if o.eq k j then some v else find j m)
  unfolding find put
  find-put k j v [] = refl
  find-put k j v ((i, w) ∷ m) =
      ground (arith, o.eq_iff i k, o.eq_iff i j, o.eq_iff k j, find-put k j v m)

  pub find-put_self : (k : K) (v : V) (m : Map K V) → find k (put k v m) ≡ some v
  find-put_self k v m = rw (find-put, eq_refl k)

  pub find-insert_fresh :
      (k j : K) (v : V) (m : Map K V)
      → find k m ≡ none
      → find j (insert k v m) ≡ (if o.eq k j then some v else find j m)
  unfolding insert
  find-insert_fresh k j v m h = rw (h, insert) (find-put k j v m)

  pub insert_present : (k : K) (v w : V) (m : Map K V) → find k m ≡ some w → insert k v m ≡ m
  unfolding insert
  insert_present k v w m h = rw (h, insert)

  pub find-erase :
      (k j : K) (m : Map K V) → find j (erase k m) ≡ (if o.eq k j then none else find j m)
  unfolding find erase
  find-erase k j [] = ground arith
  find-erase k j ((i, w) ∷ m) =
      ground (arith, o.eq_iff i k, o.eq_iff i j, o.eq_iff k j, find-erase k j m)

  -- What holds of every entry holds after an update by an entry of which it holds.
  pub All-put {μ} :
      (P : K × V → Type μ) (k : K) (v : V) (m : Map K V) → P (k, v) → All P m → All P (put k v m)
  unfolding put
  All-put P k v [] h a = (h, tt)
  All-put P k v ((j, w) ∷ m) h a = ground (arith, All-put P k v m h a.1)

  pub All-insert {μ} :
      (P : K × V → Type μ) (k : K) (v : V) (m : Map K V) → P (k, v) → All P m → All P (insert k v m)
  unfolding insert
  All-insert P k v m h a = ground (arith, All-put P k v m h a)

  pub All-erase {μ} : (P : K × V → Type μ) (k : K) (m : Map K V) → All P m → All P (erase k m)
  unfolding erase
  All-erase P k [] a = a
  All-erase P k ((j, w) ∷ m) a = ground (arith, All-erase P k m a.1)

  pub keys-put : (k : K) (v : V) (m : Map K V) → keys (put k v m) ≡ add k (keys m)
  unfolding put add
  keys-put k v [] = refl
  keys-put k v ((j, w) ∷ m) = ground (arith, o.eq_iff j k, keys-put k v m)

  pub keys-erase : (k : K) (m : Map K V) → keys (erase k m) ≡ discard k (keys m)
  unfolding erase discard
  keys-erase k [] = refl
  keys-erase k ((j, w) ∷ m) = ground (arith, keys-erase k m)

  -- In a map whose keys ascend each entry is the one that its key finds.
  abbrev pub Finds : Map K V → K × V → Type κ
  Finds m (k, v) = find k m ≡ some v

  Finds-cons :
      (k : K) (v : V) (m rest : Map K V)
      → All (λ j. o.lt k j ≡ true) (keys rest)
      → All (Finds m) rest
      → All (Finds ((k, v) ∷ m)) rest
  unfolding find
  Finds-cons k v m [] above a = tt
  Finds-cons k v m ((j, w) ∷ rest) above a =
      (ground (arith, above.0, a.0, o.eq_iff k j, o.lt_irrefl k), Finds-cons k v m rest above.1 a.1)

  pub All-Finds : (m : Map K V) → IsAscending (keys m) → All (Finds m) m
  unfolding find
  All-Finds [] s = tt
  All-Finds ((k, v) ∷ m) s = (ground (arith, eq_refl k), Finds-cons k v m m s.0 (All-Finds m s.1))
