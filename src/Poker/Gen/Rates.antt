-- ===== src/Poker/Gen/Rates.antt =====
-- Where the stock keeps hands, and the range of the number that is drawn.
use native.Mathlib.Nat.{mod-lt}
use white_board_server.Prelude.{
  ℕ, ◌+◌, ◌-◌, ◌%◌, ◌≡◌, ◌≤◌, ◌<◌, ◌⊎◌, refl, true, false, none, some, List, [], ◌∷◌, ◌++◌, arith,
  ◌==◌, if◌then◌else◌, All, Bool-cases, Option-cases, inl, inr, get_elem?, zero, suc,
}
use white_board_server.Containers.Ord.{nat_ord}
use white_board_server.Containers.Map.{find, put, find-put}
use white_board_server.Poker.Group.{GroupPoker}
use white_board_server.Poker.Gen.{
  PokerTypeRateConfig, PokerSet, PokerGen, add_group_poker, add_to_set, type_of_rate, is_in_rate,
  get_config_by_poker_type, rate_between, rate_of_range,
}

-- The hands that the stock has of a type.
abbrev pub groups_of : ℕ → PokerGen → List GroupPoker
groups_of kind gen = elim (find kind gen.poker_maps) [ none ↦ [] | some s ↦ s.group_pokers ]

-- A hand of a type that exists is added at the end of the hands of its type, and no other type's
-- hands change.
pub add_group_poker-groups_of :
    (g : GroupPoker) (gen : PokerGen) (kind : ℕ)
    → g.dn_type < 14
    → (gen' : PokerGen) × (add_group_poker g gen ≡ some gen')
      × (groups_of kind gen'
          ≡ (if g.dn_type == kind then groups_of kind gen ++ g ∷ [] else groups_of kind gen))
unfolding add_group_poker add_to_set
add_group_poker-groups_of g gen kind h =
    let set_now : PokerSet = elim (find g.dn_type gen.poker_maps) [
      | none ↦ record { card_type = g.dn_type; group_pokers = [] }
      | some s ↦ s
    ] in
    (
      record gen { poker_maps = put g.dn_type (add_to_set set_now g) gen.poker_maps },
      ground (arith, h),
      elim (Bool-cases (g.dn_type == kind)) [
        | inr apart ↦
            ground (arith, apart, find-put g.dn_type kind (add_to_set set_now g) gen.poker_maps)
        | inl same ↦ elim (Option-cases (find g.dn_type gen.poker_maps)) [
          | inl e ↦
              ground (arith, same, e, find-put g.dn_type kind (add_to_set set_now g) gen.poker_maps)
          | inr (s, e) ↦
              ground (arith, same, e, find-put g.dn_type kind (add_to_set set_now g) gen.poker_maps)
        ]
      ],
    )

-- For every number, the type that is chosen is that of a configured range that has the number, or
-- it is 0 and no configured range has the number.
pub type_of_rate-cases :
    (configs : List PokerTypeRateConfig) (n : ℕ)
    → ((i : ℕ) × (config : PokerTypeRateConfig) × (get_elem? configs i ≡ some config)
        × (is_in_rate config n ≡ true)
        × (type_of_rate configs n ≡ config.dn_poker_type))
      ⊎ ((type_of_rate configs n ≡ 0) × All (λ config. is_in_rate config n ≡ false) configs)
unfolding type_of_rate
type_of_rate-cases [] n = inr (refl, tt)
type_of_rate-cases (config ∷ rest) n = elim (Bool-cases (is_in_rate config n)) [
  | inl here ↦ inl (0, config, refl, here, ground (arith, here))
  | inr out ↦ elim (type_of_rate-cases rest n) [
    | inl (i, chosen, at_i, inn, e) ↦ inl (suc i, chosen, at_i, inn, ground (arith, out, e))
    | inr (e, none_has) ↦ inr (ground (arith, out, e), (out, none_has))
  ]
]

-- The number that is drawn for a range of types lies between the begin of the first type's range
-- and the end of the last type's.
pub rate_of_range-between :
    (gen : PokerGen) (begin_type end_type r n : ℕ) (p q : PokerTypeRateConfig)
    → get_config_by_poker_type gen begin_type ≡ some p
    → get_config_by_poker_type gen end_type ≡ some q
    → rate_of_range gen begin_type end_type r ≡ some (some n)
    → (p.begin_rate ≤ n) × (n < q.end_rate)
unfolding rate_of_range rate_between
rate_of_range-between gen begin_type end_type r n p q hp hq h =
    by_width (q.end_rate - p.begin_rate) refl
  where
    by_width :
        (width : ℕ) → q.end_rate - p.begin_rate ≡ width → (p.begin_rate ≤ n) × (n < q.end_rate)
    by_width zero e = absurd (ground (arith, hp, hq, h, e))
    by_width (suc width) e =
        let drawn : n ≡ p.begin_rate + r % (q.end_rate - p.begin_rate) =
          ground (arith, hp, hq, h, e) in
        let small : r % suc width < suc width = mod-lt r (omega arith) in
        let drawn' : n ≡ p.begin_rate + r % suc width = rw e at drawn in
        (omega (arith, drawn'), omega (arith, drawn', small, e))
