-- ===== src/Poker/Draw/Confusing.antt =====
-- Confuse: what it keeps of a hand, and when it ends.
use white_board_server.Prelude.{
  ℕ, ◌+◌, ◌*◌, ◌%◌, ◌≡◌, ◌≤◌, refl, false, some, List, [], ◌∷◌, ◌++◌, arith, zero, suc, Bool-cases,
  inl, inr, length, map, sym, ap, subst, ◌∙◌, All, append-nil,
}
use white_board_server.Poker.Card.{OnePoker, find_max_poker, is_null_poker, same_poker}
use white_board_server.Poker.Group.{
  Five, GroupPoker, five_cards, same_as_one, has_same, has_same_poker,
}
use white_board_server.Poker.Draw.{clashes, confuse_loop, five_of, confuse, all_same}
use white_board_server.Poker.Draw.Colours.{IsFair, same_value, confuse_loop-ends}

abbrev pub values : List OnePoker → List ℕ
values cards = map (λ p. p.poker_value) cards

abbrev pub IsColoured : OnePoker → Type 0
IsColoured p = (1 ≤ p.poker_color) × (p.poker_color ≤ 4)

IsVaried : List OnePoker → Type 0
IsVaried [] = Unit
IsVaried (p ∷ rest) = (clashes p rest ≡ false) × IsVaried rest

clashes-snoc :
    (p q : OnePoker) (cards : List OnePoker)
    → clashes p cards ≡ false
    → clashes q (p ∷ []) ≡ false
    → clashes p (cards ++ q ∷ []) ≡ false
unfolding clashes
clashes-snoc p q [] h k = ground (arith, k)
clashes-snoc p q (r ∷ cards) h k = ground (arith, h, clashes-snoc p q cards)

snoc-IsVaried :
    (cards : List OnePoker) (q : OnePoker)
    → IsVaried cards
    → clashes q cards ≡ false
    → IsVaried (cards ++ q ∷ [])
unfolding IsVaried clashes
snoc-IsVaried [] q v h = (refl, tt)
snoc-IsVaried (p ∷ cards) q v h =
    (clashes-snoc p q cards v.0 (ground (arith, h)), snoc-IsVaried cards q v.1 (ground (arith, h)))

snoc-IsColoured :
    (cards : List OnePoker) (q : OnePoker)
    → All IsColoured cards
    → IsColoured q
    → All IsColoured (cards ++ q ∷ [])
snoc-IsColoured [] q a h = (h, tt)
snoc-IsColoured (p ∷ cards) q a h = (a.0, snoc-IsColoured cards q a.1 h)

values-snoc :
    (before rest : List OnePoker) (q p : OnePoker)
    → q.poker_value ≡ p.poker_value
    → values ((before ++ q ∷ []) ++ rest) ≡ values (before ++ p ∷ rest)
values-snoc [] rest q p e = ap (λ v. v ∷ values rest) e
values-snoc (r ∷ before) rest q p e = ap (λ l. r.poker_value ∷ l) (values-snoc before rest q p e)

same_values :
    (before rest : List OnePoker) (q p : OnePoker)
    → q.poker_value ≡ p.poker_value
    → values (before ++ q ∷ rest) ≡ values (before ++ p ∷ rest)
same_values [] rest q p e = ap (λ v. v ∷ values rest) e
same_values (r ∷ before) rest q p e = ap (λ l. r.poker_value ∷ l) (same_values before rest q p e)

-- What the loop returns: cards of the same values, each in one of the four colours, all different.
confuse_loop_lem :
    (rand : ℕ → ℕ) (fuel k k' : ℕ) (before rest cards : List OnePoker)
    → IsVaried before
    → All IsColoured before
    → confuse_loop rand fuel k before rest ≡ some (cards, k')
    → (values cards ≡ values (before ++ rest)) × All IsColoured cards × IsVaried cards
unfolding confuse_loop
confuse_loop_lem rand fuel k k' before [] cards v c e =
    let same : before ≡ cards = ground (arith, e) in
    (
      ap values (sym same ∙ sym (append-nil before)),
      subst (All IsColoured) same c,
      subst IsVaried same v,
    )
confuse_loop_lem rand zero k k' before (p ∷ rest) cards v c e = absurd (ground (arith, e))
confuse_loop_lem rand (suc fuel) k k' before (p ∷ rest) cards v c e =
    let card : OnePoker = record p { poker_color = rand k % 4 + 1 } in
    elim (Bool-cases (clashes card before)) [
      | inl clash ↦
          let (w, d, x) =
            confuse_loop_lem rand fuel (k + 1) k' before (card ∷ rest) cards v c
              (ground (arith, clash, e)) in
          (w ∙ same_values before rest card p refl, d, x)
      | inr free ↦
          let (w, d, x) =
            confuse_loop_lem rand fuel (k + 1) k' (before ++ card ∷ []) rest cards
              (snoc-IsVaried before card v free)
              (snoc-IsColoured before card c (omega arith, omega arith))
              (ground (arith, free, e)) in
          (w ∙ values-snoc before rest card p refl, d, x)
    ]

five_of-cards :
    (cards : List OnePoker) (f : Five OnePoker)
    → values cards ≡ values (five_cards f)
    → five_cards (five_of cards f) ≡ cards
unfolding five_of
five_of-cards [] f h = absurd (omega (arith, ap length h))
five_of-cards (a ∷ []) f h = absurd (omega (arith, ap length h))
five_of-cards (a ∷ b ∷ []) f h = absurd (omega (arith, ap length h))
five_of-cards (a ∷ b ∷ c ∷ []) f h = absurd (omega (arith, ap length h))
five_of-cards (a ∷ b ∷ c ∷ d ∷ []) f h = absurd (omega (arith, ap length h))
five_of-cards (a ∷ b ∷ c ∷ d ∷ e ∷ []) f h = refl
five_of-cards (a ∷ b ∷ c ∷ d ∷ e ∷ g ∷ rest) f h = absurd (omega (arith, ap length h))

same_as_one-varied :
    (p : OnePoker) (cards : List OnePoker)
    → IsColoured p
    → 1 ≤ p.poker_value
    → clashes p cards ≡ false
    → same_as_one p cards ≡ false
unfolding same_as_one same_poker is_null_poker clashes
same_as_one-varied p [] c v h = refl
same_as_one-varied p (q ∷ cards) c v h =
    ground (arith, h, same_as_one-varied p cards c v (ground (arith, h)))

has_same-varied :
    (cards : List OnePoker)
    → All IsColoured cards
    → All (λ v. 1 ≤ v) (values cards)
    → IsVaried cards
    → has_same cards ≡ false
unfolding has_same IsVaried
has_same-varied [] c v d = refl
has_same-varied (p ∷ cards) c v d =
    ground (arith, same_as_one-varied p cards c.0 v.0 d.0, has_same-varied cards c.1 v.1 d.1)

-- What Confuse makes of a hand: the same values at the same places, each card in one of the four
-- colours, no two cards alike, the greatest card found again, and all else as it was.
unfoldable pub Confused : GroupPoker → GroupPoker → Type 0
Confused g g' =
    (values (five_cards g'.poker) ≡ values (five_cards g.poker))
    × All IsColoured (five_cards g'.poker)
    × (has_same_poker g' ≡ false)
    × (g'.max_poker ≡ some (find_max_poker (five_cards g'.poker)))
    × (g'.dn_type ≡ g.dn_type)

Confused-made :
    (g : GroupPoker) (cards : List OnePoker)
    → All (λ v. 1 ≤ v) (values (five_cards g.poker))
    → values cards ≡ values (five_cards g.poker)
    → All IsColoured cards
    → IsVaried cards
    → Confused g
        (record g { poker = five_of cards g.poker; max_poker = some (find_max_poker cards) })
unfolding Confused has_same_poker
Confused-made g cards real w c v =
    let back = five_of-cards cards g.poker w in
    (
      ap values back ∙ w,
      subst (All IsColoured) (sym back) c,
      ap has_same back ∙ has_same-varied cards c (subst (All (λ n. 1 ≤ n)) (sym w) real) v,
      ap (λ l. some (find_max_poker l)) (sym back),
      refl,
    )

few_of_one_value :
    (f : Five OnePoker) (v : ℕ)
    → all_same f.at0.poker_value f.at1.poker_value f.at2.poker_value f.at3.poker_value
        f.at4.poker_value
      ≡ false
    → same_value v [] + same_value v (five_cards f) ≤ 4
few_of_one_value f v h = ground (arith, h)

-- If each colour comes in any `gap` results of rand() in a row, the loop of Confuse ends within
-- five times as many calls on every hand of real cards whose values are not all the same, and it
-- gives the cards different colours and keeps their values.
pub confuse-Confused :
    (rand : ℕ → ℕ) (gap fuel k : ℕ) (g : GroupPoker)
    → IsFair gap rand
    → all_same g.poker.at0.poker_value g.poker.at1.poker_value g.poker.at2.poker_value
        g.poker.at3.poker_value g.poker.at4.poker_value
      ≡ false
    → All (λ v. 1 ≤ v) (values (five_cards g.poker))
    → 5 * gap ≤ fuel
    → (g' : GroupPoker) × (k' : ℕ) × (confuse rand fuel k g ≡ some (g', k')) × Confused g g'
unfolding confuse IsVaried
confuse-Confused rand gap fuel k g fair mixed real enough =
    let ((cards, k'), e) =
      confuse_loop-ends rand gap k fuel [] (five_cards g.poker) fair
        (λ v. few_of_one_value g.poker v mixed) enough in
    let (w, c, v) = confuse_loop_lem rand fuel k k' [] (five_cards g.poker) cards tt tt e in
    (
      record g { poker = five_of cards g.poker; max_poker = some (find_max_poker cards) },
      k',
      ground (arith, e),
      Confused-made g cards real w c v,
    )
