-- ===== src/Poker/Cow/Finding.antt =====
-- What the loop of findCow for four of a kind stores.
use mathlib.Core.List.{Permᴰ}
use white_board_server.Prelude.{
  ℕ, ◌+◌, ◌≡◌, ◌<◌, refl, Bool, true, false, List, [], ◌∷◌, leb, ◌==◌, set, zero, suc, arith, All,
  Bool-cases, inl, inr, subst, sym,
}
use white_board_server.Prelude.Int.{ℤ, pos, minus_one}
use white_board_server.Poker.Card.{OnePoker}
use white_board_server.Poker.Group.{Five}
use white_board_server.Poker.Cow.{value_at, value_index_pairs, si_zha_loop, si_zha_start}

pub All-Permᴰ : {A : Type 0} (P : A → Type 0) {l l' : List A} → Permᴰ l l' → All P l' → All P l
All-Permᴰ P Permᴰ.nil h = tt
All-Permᴰ P (Permᴰ.cons e d) h = (subst P (sym e) h.0, All-Permᴰ P d h.1)
All-Permᴰ P (Permᴰ.swap e f) h = (subst P (sym e) h.1.0, (subst P (sym f) h.0, h.1.1))
All-Permᴰ P (Permᴰ.trans d d') h = All-Permᴰ P d (All-Permᴰ P d' h)

module _ (f : Five OnePoker) where
  -- A place of the hand with the value there.
  abbrev pub IsPlace : ℕ → ℕ → Type 0
  IsPlace v a = (value_at f a ≡ v) × (a < 5)

  -- What the loop for four of a kind has stored before a round.
  unfoldable pub Stored : ℕ → ℕ → List ℤ → Type 0
  Stored zero v niu = (x : ℤ) × (y : ℤ) × (z : ℤ) × (niu ≡ x ∷ y ∷ z ∷ minus_one ∷ minus_one ∷ [])
  Stored (suc zero) v niu =
      (a : ℕ) × (y : ℤ) × (z : ℤ) × (niu ≡ pos a ∷ y ∷ z ∷ minus_one ∷ minus_one ∷ []) × IsPlace v a
  Stored (suc (suc n)) v niu =
      (a : ℕ) × (b : ℕ) × (z : ℤ) × (niu ≡ pos a ∷ pos b ∷ z ∷ minus_one ∷ minus_one ∷ [])
      × IsPlace v a
      × IsPlace v b
      × (n ≡ 0)

  -- Four places of one value.
  unfoldable pub IsFour : List ℤ → Type 0
  IsFour niu =
      (v : ℕ) × (a : ℕ) × (b : ℕ) × (k : ℕ) × (d : ℕ) × (niu
        ≡ pos a ∷ pos b ∷ pos k ∷ pos d ∷ minus_one ∷ [])
      × IsPlace v a
      × IsPlace v b
      × IsPlace v k
      × IsPlace v d

  unfoldable pub Outcome : Bool × List ℤ × List ℤ → Type 0
  Outcome (true, niu, other) = IsFour niu
  Outcome (false, niu, other) = Stored 0 0 niu

  forget : (n v : ℕ) (niu : List ℤ) → Stored n v niu → Stored 0 0 niu
  unfolding Stored
  forget zero v niu s = s
  forget (suc zero) v niu (a, y, z, e, h) = (pos a, y, z, e)
  forget (suc (suc n)) v niu (a, b, z, e, h, k, m) = (pos a, pos b, z, e)

  -- The loop stores four places of one value if it finds them, and leaves the last two entries of
  -- the array alone if it does not.
  si_zha_loop-Outcome :
      (v a : ℕ) (rest : List (ℕ × ℕ)) (i n : ℕ) (niu other : List ℤ)
      → IsPlace v a
      → All (λ (w, b). IsPlace w b) rest
      → Stored n v niu
      → Outcome (si_zha_loop (v, a) rest i n niu other)
  unfolding si_zha_loop Outcome Stored IsFour
  si_zha_loop-Outcome v a [] i n niu other here later s = forget n v niu s
  si_zha_loop-Outcome v a ((w, b) ∷ rest) i n niu other here later s = elim (Bool-cases (v == w)) [
    | inl same ↦
        again n s same (λ m l. si_zha_loop-Outcome w b rest (i + 1) m l other later.0 later.1)
    | inr apart ↦ elim (Bool-cases (leb 2 i)) [
      | inl late ↦ subst Outcome (stop apart late) (forget n v niu s)
      | inr early ↦ subst Outcome (restart apart early) (
          si_zha_loop-Outcome w b rest (i + 1) 0 niu (set other 0 (pos a)) later.0 later.1
            (forget n v niu s))
    ]
  ]
    where
      stop :
          (v == w) ≡ false
          → leb 2 i ≡ true
          → (false, niu, other) ≡ si_zha_loop (v, a) ((w, b) ∷ rest) i n niu other
      stop h k = ground (arith, h, k)

      restart :
          (v == w) ≡ false
          → leb 2 i ≡ false
          → si_zha_loop (w, b) rest (i + 1) 0 niu (set other 0 (pos a))
            ≡ si_zha_loop (v, a) ((w, b) ∷ rest) i n niu other
      restart h k = ground (arith, h, k)

      moved : (v == w) ≡ true → IsPlace w a
      moved h = (ground (arith, h, here), here.1)

      the_four :
          (d k : ℕ)
          → IsPlace v d
          → IsPlace v k
          → (v == w) ≡ true
          → Outcome (true, pos d ∷ pos k ∷ pos a ∷ pos b ∷ minus_one ∷ [], other)
      the_four d k at_d at_k h =
          (v, d, k, a, b, refl, at_d, at_k, here, (ground (arith, h, later.0), later.0.1))

      full :
          (m d k : ℕ) (z : ℤ)
          → (v == w) ≡ true
          → niu ≡ pos d ∷ pos k ∷ z ∷ minus_one ∷ minus_one ∷ []
          → m ≡ 0
          → (true, pos d ∷ pos k ∷ pos a ∷ pos b ∷ minus_one ∷ [], other)
            ≡ si_zha_loop (v, a) ((w, b) ∷ rest) i (suc (suc m)) niu other
      full m d k z h e none_more = ground (arith, h, e, none_more)

      again :
          (n : ℕ)
          → Stored n v niu
          → (v == w) ≡ true
          → ((n : ℕ) (l : List ℤ)
              → Stored n w l
              → Outcome (si_zha_loop (w, b) rest (i + 1) n l other))
          → Outcome (si_zha_loop (v, a) ((w, b) ∷ rest) i n niu other)
      again zero (x, y, z, e) h ih =
          subst Outcome (ground (arith, h, e))
            (ih 1 (pos a ∷ y ∷ z ∷ minus_one ∷ minus_one ∷ []) (a, y, z, refl, moved h))
      again (suc zero) (d, y, z, e, at_d) h ih = subst Outcome (ground (arith, h, e)) (
          ih 2 (pos d ∷ pos a ∷ z ∷ minus_one ∷ minus_one ∷ [])
            (d, a, z, refl, (ground (arith, h, at_d), at_d.1), moved h, refl))
      again (suc (suc m)) (d, k, z, e, at_d, at_k, none_more) h ih =
          subst Outcome (full m d k z h e none_more) (the_four d k at_d at_k h)

  pub si_zha_start-Outcome :
      (pairs : List (ℕ × ℕ)) (x y z : ℤ) (other : List ℤ)
      → All (λ (w, b). IsPlace w b) pairs
      → Outcome (si_zha_start pairs (x ∷ y ∷ z ∷ minus_one ∷ minus_one ∷ []) other)
  unfolding si_zha_start Outcome Stored
  si_zha_start-Outcome [] x y z other places = (x, y, z, refl)
  si_zha_start-Outcome ((v, a) ∷ rest) x y z other places =
      si_zha_loop-Outcome v a rest 1 0 (x ∷ y ∷ z ∷ minus_one ∷ minus_one ∷ []) other places.0
        places.1 (x, y, z, refl)

  pub pairs_are_places : All (λ (w, b). IsPlace w b) (value_index_pairs f)
  unfolding value_at
  pairs_are_places = ground arith
