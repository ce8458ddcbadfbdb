-- ===== src/Poker/Cow/Claim/Verifying.antt =====
-- hasCow, which verifies the places that a player names, on those that findCow finds.
use white_board_server.Prelude.{
  ℕ, ◌+◌, ◌%◌, ◌≡◌, ◌<◌, refl, Bool, true, false, ◌&&◌, Option, none, some, List, [], ◌∷◌, leb,
  ◌==◌, if◌then◌else◌, arith, All, Bool-cases, inl, inr, subst, ◌∙◌,
}
use white_board_server.Prelude.Int.{ℤ, pos, minus_one}
use white_board_server.Poker.Card.{OnePoker}
use white_board_server.Poker.Group.{
  Five, five_cards, no_five, all_five, si_zha, wu_hua_niu, wu_xiao_niu,
}
use white_board_server.Poker.Cow.{
  Sorter, no_tally, tally, value_at, value_index_pairs, si_zha_start, triples, points_at,
  find_triple, niu_type, find_niu, find_by_kind, find_cow, niu_result,
}
use white_board_server.Poker.Cow.Claim.{
  index_count, total_loop, index_at, has_special, has_four, has_three, has_cow,
}
use white_board_server.Poker.Cow.Finding.{
  All-Permᴰ, IsPlace, Stored, IsFour, Outcome, si_zha_start-Outcome, pairs_are_places,
}
use white_board_server.Poker.Cow.Claim.Sums.{tally-xiao, tally-hua, tally-total}

module _ (f : Five OnePoker) where
  index_count-four :
      (a b k d : ℕ)
      → a < 5
      → b < 5
      → k < 5
      → d < 5
      → index_count (pos a ∷ pos b ∷ pos k ∷ pos d ∷ minus_one ∷ []) ≡ 4
  unfolding index_count
  index_count-four a b k d ha hb hk hd = ground arith

  has_four-same :
      (v a b k d : ℕ)
      → value_at f a ≡ v
      → value_at f b ≡ v
      → value_at f k ≡ v
      → value_at f d ≡ v
      → has_four f (pos a ∷ pos b ∷ pos k ∷ pos d ∷ minus_one ∷ []) ≡ si_zha
  unfolding has_four index_at
  has_four-same v a b k d ha hb hk hd = ground (arith, ha, hb, hk, hd)

  has_cow_by_four : (index : List ℤ) → index_count index ≡ 4 → has_cow f index ≡ has_four f index
  unfolding has_cow
  has_cow_by_four index h = ground (arith, h)

  has_cow_by_three : (index : List ℤ) → index_count index ≡ 3 → has_cow f index ≡ has_three f index
  unfolding has_cow
  has_cow_by_three index h = ground (arith, h)

  -- Four places of one value verify as four of a kind.
  has_cow-four : (niu : List ℤ) → IsFour f niu → has_cow f niu ≡ si_zha
  unfolding IsFour
  has_cow-four niu (v, a, b, k, d, e, at_a, at_b, at_k, at_d) = rw e (
      has_cow_by_four (pos a ∷ pos b ∷ pos k ∷ pos d ∷ minus_one ∷ [])
        (index_count-four a b k d at_a.1 at_b.1 at_k.1 at_d.1)
      ∙ has_four-same v a b k d at_a.0 at_b.0 at_k.0 at_d.0)

  IsGood : ℕ × ℕ × ℕ → Type 0
  IsGood (i, j, k) =
      (i < 5) × (j < 5) × (k < 5) × ((points_at f i + points_at f j + points_at f k) % 10 ≡ 0)

  find_triple-IsGood :
      (ts : List (ℕ × ℕ × ℕ)) (t : ℕ × ℕ × ℕ)
      → All (λ (i, j, k). (i < 5) × (j < 5) × (k < 5)) ts
      → find_triple f ts ≡ some t
      → IsGood t
  unfolding find_triple IsGood
  find_triple-IsGood [] t small h = ground (arith, h)
  find_triple-IsGood ((i, j, k) ∷ ts) t small h =
      elim (Bool-cases ((points_at f i + points_at f j + points_at f k) % 10 == 0)) [
        | inl found ↦
            subst IsGood (ground (arith, found, h))
              (small.0.0, small.0.1, small.0.2, ground (arith, found))
        | inr not_here ↦ find_triple-IsGood ts t small.1 (ground (arith, not_here, h))
      ]

  index_count-three :
      (i j k : ℕ)
      → i < 5
      → j < 5
      → k < 5
      → index_count (pos i ∷ pos j ∷ pos k ∷ minus_one ∷ minus_one ∷ []) ≡ 3
  unfolding index_count
  index_count-three i j k hi hj hk = ground arith

  has_three-good :
      (i j k sum : ℕ)
      → (points_at f i + points_at f j + points_at f k) % 10 ≡ 0
      → total_loop (five_cards f) 0 ≡ sum
      → has_three f (pos i ∷ pos j ∷ pos k ∷ minus_one ∷ minus_one ∷ []) ≡ niu_type sum
  unfolding has_three index_at
  has_three-good i j k sum h total = rw (h, total) refl

  has_cow-niu_result :
      (o : Option (ℕ × ℕ × ℕ)) (sum : ℕ) (x y z : ℤ) (other : List ℤ)
      → ((t : ℕ × ℕ × ℕ) → o ≡ some t → IsGood t)
      → total_loop (five_cards f) 0 ≡ sum
      → let (kind, niu, other') = niu_result o sum (x ∷ y ∷ z ∷ minus_one ∷ minus_one ∷ []) other in
        has_cow f niu ≡ kind
  unfolding niu_result has_cow index_count IsGood
  has_cow-niu_result none sum x y z other good total = refl
  has_cow-niu_result (some (i, j, k)) sum x y z other good total =
      let (hi, hj, hk, ten) = good (i, j, k) refl in
      has_cow_by_three (pos i ∷ pos j ∷ pos k ∷ minus_one ∷ minus_one ∷ [])
        (index_count-three i j k hi hj hk)
      ∙ has_three-good i j k sum ten total

  has_cow-niu :
      (sum : ℕ) (x y z : ℤ) (other : List ℤ)
      → total_loop (five_cards f) 0 ≡ sum
      → let (kind, niu, other') = find_niu f sum (x ∷ y ∷ z ∷ minus_one ∷ minus_one ∷ []) other in
        has_cow f niu ≡ kind
  unfolding find_niu
  has_cow-niu sum x y z other =
      has_cow-niu_result (find_triple f triples) sum x y z other
        (λ t. find_triple-IsGood triples t (ground arith))

  has_cow-special :
      (kind : ℕ) → index_count all_five ≡ 5 → has_special f ≡ kind → has_cow f all_five ≡ kind
  unfolding has_cow
  has_cow-special kind h k = ground (arith, h, k)

  index_count-all : index_count all_five ≡ 5
  unfolding index_count
  index_count-all = refl

  has_special-xiao :
      ((tally (five_cards f) no_tally).wuxiao_num == 5)
          && leb (tally (five_cards f) no_tally).wuxiao_sum 10
        ≡ true
      → has_special f ≡ wu_xiao_niu
  unfolding has_special
  has_special-xiao h = ground (arith, h, tally-xiao (five_cards f) no_tally)

  has_special-hua :
      ((tally (five_cards f) no_tally).wuxiao_num == 5)
          && leb (tally (five_cards f) no_tally).wuxiao_sum 10
        ≡ false
      → ((tally (five_cards f) no_tally).wuhua_num == 5) ≡ true
      → has_special f ≡ wu_hua_niu
  unfolding has_special
  has_special-hua h k =
      ground (arith, h, k, tally-xiao (five_cards f) no_tally, tally-hua (five_cards f) no_tally)

  module _ ⦃s : Sorter⦄ where
    has_cow-find_by_kind :
        (sum : ℕ) (other : List ℤ)
        → total_loop (five_cards f) 0 ≡ sum
        → let (kind, niu, other') = find_by_kind f sum no_five other in has_cow f niu ≡ kind
    unfolding find_by_kind Outcome Stored
    has_cow-find_by_kind sum other total =
        by_result (si_zha_start (s.sort (value_index_pairs f)) no_five other) (
          si_zha_start-Outcome f (s.sort (value_index_pairs f)) minus_one minus_one minus_one other
            (All-Permᴰ (λ (w, b). IsPlace f w b) (s.sort-Permᴰ (value_index_pairs f))
              (pairs_are_places f)))
      where
        by_result :
            (r : Bool × List ℤ × List ℤ)
            → Outcome f r
            → let (found, niu', other') = r in
              let (kind, niu, other'') =
                if found then (si_zha, niu', other') else find_niu f sum niu' other' in
              has_cow f niu ≡ kind
        by_result (true, niu', other') four = has_cow-four niu' four
        by_result (false, niu', other') (x, y, z, e) = rw e (has_cow-niu sum x y z other' total)

    -- For every hand, the places that findCow stores verify with hasCow as the type that findCow
    -- returns, when the array of places holds -1 at first, as in a group that was reset.
    pub has_cow-find_cow :
        (other : List ℤ)
        → let (kind, niu, other') = find_cow f no_five other in has_cow f niu ≡ kind
    unfolding find_cow
    has_cow-find_cow other =
        let t = tally (five_cards f) no_tally in
        elim (Bool-cases ((t.wuxiao_num == 5) && leb t.wuxiao_sum 10)) [
          | inl xiao ↦ rw xiao (has_cow-special wu_xiao_niu index_count-all (has_special-xiao xiao))
          | inr plain ↦ elim (Bool-cases (t.wuhua_num == 5)) [
            | inl hua ↦
                rw (plain, hua)
                  (has_cow-special wu_hua_niu index_count-all (has_special-hua plain hua))
            | inr other_kind ↦
                rw (plain, other_kind)
                  (has_cow-find_by_kind t.all_poker_sum other (tally-total (five_cards f) no_tally))
          ]
        ]
