-- ===== src/Poker/Cow/Kinds.antt =====
-- What type findCow gives a hand, by the rules of the game.
use mathlib.Core.List.{Permᴰ}
use white_board_server.Prelude.{
  ℕ, ◌+◌, ◌%◌, ◌≡◌, ◌≤◌, refl, Bool, true, false, ◌&&◌, ◌||◌, Option, none, some, List, [], ◌∷◌,
  leb, ◌==◌, if◌then◌else◌, arith, Bool-cases, inl, inr, subst, sym, ap, ◌∙◌, length, map, ◌++◌,
}
use white_board_server.Prelude.Int.{ℤ}
use white_board_server.Poker.Card.{OnePoker, change_jqk}
use white_board_server.Poker.Group.{Five, five_cards}
use white_board_server.Poker.Cow.{
  IsSorted, value_at, si_zha_loop, si_zha_start, triples, points_at, find_triple,
}

-- How many of the pairs have a value.
abbrev pub count_value : ℕ → List (ℕ × ℕ) → ℕ
count_value v [] = 0
count_value v (p ∷ rest) = (if p.0 == v then 1 else 0) + count_value v rest

pub count_value-Permᴰ :
    (v : ℕ) {l l' : List (ℕ × ℕ)} → Permᴰ l l' → count_value v l ≡ count_value v l'
count_value-Permᴰ v Permᴰ.nil = refl
count_value-Permᴰ v (Permᴰ.cons e d) = ground (arith, ap (λ p. p.0) e, count_value-Permᴰ v d)
count_value-Permᴰ v (Permᴰ.swap e f) = ground (arith, ap (λ p. p.0) e, ap (λ p. p.0) f)
count_value-Permᴰ v (Permᴰ.trans d d') = count_value-Permᴰ v d ∙ count_value-Permᴰ v d'

pub length-Permᴰ : {l l' : List (ℕ × ℕ)} → Permᴰ l l' → length l ≡ length l'
length-Permᴰ Permᴰ.nil = refl
length-Permᴰ (Permᴰ.cons e d) = ground (arith, length-Permᴰ d)
length-Permᴰ (Permᴰ.swap e f) = refl
length-Permᴰ (Permᴰ.trans d d') = length-Permᴰ d ∙ length-Permᴰ d'

-- In a sorted hand the loop finds four of a kind exactly if some value is there four times.
si_zha_start-five :
    (p q r s t : ℕ × ℕ) (niu other : List ℤ)
    → (si_zha_start (p ∷ q ∷ r ∷ s ∷ t ∷ []) niu other).0
      ≡ ((q.0 == r.0) && (r.0 == s.0) && ((p.0 == q.0) || (s.0 == t.0)))
unfolding si_zha_start si_zha_loop
si_zha_start-five p q r s t niu other = ground arith

found_of_count :
    (v : ℕ) (p q r s t : ℕ × ℕ) (niu other : List ℤ)
    → IsSorted (p ∷ q ∷ r ∷ s ∷ t ∷ [])
    → 4 ≤ count_value v (p ∷ q ∷ r ∷ s ∷ t ∷ [])
    → (si_zha_start (p ∷ q ∷ r ∷ s ∷ t ∷ []) niu other).0 ≡ true
found_of_count v p q r s t niu other sorted h =
    ground (arith, si_zha_start-five p q r s t niu other, sorted, h)

count_of_found :
    (p q r s t : ℕ × ℕ) (niu other : List ℤ)
    → (si_zha_start (p ∷ q ∷ r ∷ s ∷ t ∷ []) niu other).0 ≡ true
    → 4 ≤ count_value q.0 (p ∷ q ∷ r ∷ s ∷ t ∷ [])
count_of_found p q r s t niu other h = ground (arith, si_zha_start-five p q r s t niu other, h)

unfoldable pub any_four : List (ℕ × ℕ) → List (ℕ × ℕ) → Bool
any_four hand [] = false
any_four hand (p ∷ rest) = leb 4 (count_value p.0 hand) || any_four hand rest

any_four_of_count :
    (v : ℕ) (hand l : List (ℕ × ℕ))
    → 4 ≤ count_value v hand
    → 1 ≤ count_value v l
    → any_four hand l ≡ true
unfolding any_four
any_four_of_count v hand [] h k = ground (arith, k)
any_four_of_count v hand (p ∷ rest) h k = elim (Bool-cases (p.0 == v)) [
  | inl e ↦ ground (arith, h, ap (λ n. count_value n hand) (the_value e))
  | inr e ↦ ground (arith, any_four_of_count v hand rest h (ground (arith, k, e)))
]
  where
    the_value : (p.0 == v) ≡ true → p.0 ≡ v
    the_value e = ground (arith, e)

count_of_any_four :
    (hand l : List (ℕ × ℕ)) → any_four hand l ≡ true → (v : ℕ) × (4 ≤ count_value v hand)
unfolding any_four
count_of_any_four hand [] h = absurd (ground (arith, h))
count_of_any_four hand (p ∷ rest) h = elim (Bool-cases (leb 4 (count_value p.0 hand))) [
  | inl e ↦ (p.0, ground (arith, e))
  | inr e ↦ count_of_any_four hand rest (ground (arith, h, e))
]

pub found-any_four :
    (hand l : List (ℕ × ℕ)) (niu other : List ℤ)
    → length l ≡ 5
    → IsSorted l
    → ((v : ℕ) → count_value v l ≡ count_value v hand)
    → (si_zha_start l niu other).0 ≡ any_four hand hand
found-any_four hand [] niu other h sorted same = absurd (ground (arith, h))
found-any_four hand (p ∷ []) niu other h sorted same = absurd (ground (arith, h))
found-any_four hand (p ∷ q ∷ []) niu other h sorted same = absurd (ground (arith, h))
found-any_four hand (p ∷ q ∷ r ∷ []) niu other h sorted same = absurd (ground (arith, h))
found-any_four hand (p ∷ q ∷ r ∷ s ∷ []) niu other h sorted same = absurd (ground (arith, h))
found-any_four hand (p ∷ q ∷ r ∷ s ∷ t ∷ u ∷ rest) niu other h sorted same =
    absurd (omega (arith, h))
found-any_four hand (p ∷ q ∷ r ∷ s ∷ t ∷ []) niu other h sorted same =
    elim (Bool-cases (si_zha_start (p ∷ q ∷ r ∷ s ∷ t ∷ []) niu other).0) [
      | inl found ↦
          let enough : 4 ≤ count_value q.0 hand =
            subst (λ n. 4 ≤ n) (same q.0) (count_of_found p q r s t niu other found) in
          found ∙ sym (any_four_of_count q.0 hand hand enough (omega (arith, enough)))
      | inr lost ↦ elim (Bool-cases (any_four hand hand)) [
        | inr none_there ↦ lost ∙ sym none_there
        | inl there ↦
            let (v, enough) = count_of_any_four hand hand there in
            found_of_count v p q r s t niu other sorted (subst (λ n. 4 ≤ n) (sym (same v)) enough)
            ∙ sym there
      ]
    ]

-- Sums of two and of three different entries of a list.
unfoldable pub two_sums : List ℕ → List ℕ
two_sums [] = []
two_sums (a ∷ rest) = map (λ b. a + b) rest ++ two_sums rest

unfoldable pub three_sums : List ℕ → List ℕ
three_sums [] = []
three_sums (a ∷ rest) = map (λ s. a + s) (two_sums rest) ++ three_sums rest

unfoldable pub any_ten : List ℕ → Bool
any_ten [] = false
any_ten (s ∷ rest) = (s % 10 == 0) || any_ten rest

abbrev pub points_of : Five OnePoker → List ℕ
points_of f = map (λ p. change_jqk p.poker_value) (five_cards f)

abbrev pub is_some : Option (ℕ × ℕ × ℕ) → Bool
is_some none = false
is_some (some t) = true

pub find_triple-any_ten :
    (f : Five OnePoker) (ts : List (ℕ × ℕ × ℕ))
    → is_some (find_triple f ts)
      ≡ any_ten (map (λ (i, j, k). points_at f i + points_at f j + points_at f k) ts)
unfolding find_triple any_ten
find_triple-any_ten f [] = refl
find_triple-any_ten f ((i, j, k) ∷ ts) = ground (arith, find_triple-any_ten f ts)

pub triples-three_sums :
    (f : Five OnePoker)
    → map (λ (i, j, k). points_at f i + points_at f j + points_at f k) triples
      ≡ three_sums (points_of f)
unfolding three_sums two_sums points_at value_at
triples-three_sums f = ground arith
