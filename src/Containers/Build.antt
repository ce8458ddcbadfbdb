-- ===== src/Containers/Build.antt =====
-- A map that gets the entries of another one in their order.
use white_board_server.Prelude.{
  ◌≡◌, refl, true, List, [], ◌∷◌, ◌++◌, arith, All, append_assoc, append-nil, sym, ap, ◌∙◌,
}
use white_board_server.Containers.Ord.{Ord}
use white_board_server.Containers.Set.{IsAscending}
use white_board_server.Containers.Map.{Map, keys, put}

module _ {ℓ κ} {K : Type ℓ} {V : Type κ} ⦃o : Ord K⦄ where
  -- m[k] = v for the entries of a list in turn.
  abbrev pub put_all : Map K V → Map K V → Map K V
  put_all m [] = m
  put_all m ((k, v) ∷ rest) = put_all (put k v m) rest

  -- Each key of the map is below k.
  abbrev Below : Map K V → K → Type 0
  Below m k = All (λ e. o.lt e.0 k ≡ true) m

  put-last : (k : K) (v : V) (m : Map K V) → Below m k → put k v m ≡ m ++ (k, v) ∷ []
  unfolding put
  put-last k v [] h = refl
  put-last k v ((j, w) ∷ m) h =
      ground (arith, h.0, o.eq_iff j k, o.lt_irrefl k, o.lt_trans k j k, put-last k v m h.1)

  Below-snoc :
      (j k : K) (v : V) (m : Map K V) → Below m j → o.lt k j ≡ true → Below (m ++ (k, v) ∷ []) j
  Below-snoc j k v [] h l = (l, tt)
  Below-snoc j k v (e ∷ m) h l = (h.0, Below-snoc j k v m h.1 l)

  Below-each :
      (k : K) (v : V) (m : Map K V) (js : List K)
      → All (Below m) js
      → All (λ j. o.lt k j ≡ true) js
      → All (Below (m ++ (k, v) ∷ [])) js
  Below-each k v m [] h l = tt
  Below-each k v m (j ∷ js) h l = (Below-snoc j k v m h.0 l.0, Below-each k v m js h.1 l.1)

  put_all-append :
      (m rest : Map K V)
      → All (Below m) (keys rest)
      → IsAscending (keys rest)
      → put_all m rest ≡ m ++ rest
  put_all-append m [] h s = sym (append-nil m)
  put_all-append m ((k, v) ∷ rest) h s =
      let here = put-last k v m h.0 in
      ap (λ (n : Map K V). put_all n rest) here
      ∙ put_all-append (m ++ (k, v) ∷ []) rest (Below-each k v m (keys rest) h.1 s.0) s.1
      ∙ append_assoc m ((k, v) ∷ []) rest

  pub put_all-rebuilds : (m : Map K V) → IsAscending (keys m) → put_all [] m ≡ m
  put_all-rebuilds m s = put_all-append [] m (empty (keys m)) s
    where
      empty : (js : List K) → All (Below []) js
      empty [] = tt
      empty (j ∷ js) = (tt, empty js)
