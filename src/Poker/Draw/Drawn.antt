-- ===== src/Poker/Draw/Drawn.antt =====
-- What a draw of a type gives.
use white_board_server.Prelude.{
  ℕ, ◌+◌, ◌*◌, ◌-◌, ◌%◌, ◌≡◌, ◌≤◌, ◌<◌, refl, false, some, List, [], ◌∷◌, arith, zero, suc, length,
  sym, subst, ◌∙◌, All, get_elem?, set,
}
use white_board_server.Prelude.Int.{ℤ}
use white_board_server.Containers.Ord.{nat_ord}
use white_board_server.Containers.Map.{find, put}
use white_board_server.Poker.Group.{GroupPoker, has_same_poker}
use white_board_server.Poker.Cow.{Sorter, find_cow}
use white_board_server.Poker.Cow.Rules.{find_cow-rule}
use white_board_server.Poker.Gen.{PokerSet, PokerGen, get_poker_group_count}
use white_board_server.Poker.Draw.{random_of_set, get_assign_group_poker}
use white_board_server.Poker.Draw.Colours.{IsFair}
use white_board_server.Poker.Draw.Confusing.{Confused, confuse-Confused}
use white_board_server.Poker.Draw.Stock.{
  IsStocked, Stocked, rule-values, same_five-values, put-Stocked,
}

elem_of {ℓ κ} :
    {A : Type ℓ} (P : A → Type κ) (l : List A) (i : ℕ)
    → All P l
    → i < length l
    → (a : A) × (get_elem? l i ≡ some a) × P a
elem_of P [] i h small = absurd (omega (arith, small))
elem_of P (a ∷ l) zero h small = (a, refl, h.0)
elem_of P (a ∷ l) (suc i) h small = elem_of P l i h.1 (omega (arith, small))

All-set {ℓ κ} :
    {A : Type ℓ} (P : A → Type κ) (l : List A) (i : ℕ) (a : A) → All P l → P a → All P (set l i a)
All-set P [] i a h p = tt
All-set P (b ∷ l) zero a h p = (p, h.1)
All-set P (b ∷ l) (suc i) a h p = (h.0, All-set P l i a h.1 p)

-- Other colours keep a hand in its set.
Confused-IsStocked :
    (kind : ℕ) (g g' : GroupPoker) → IsStocked kind g → Confused g g' → IsStocked kind g'
unfolding Confused
Confused-IsStocked kind g g' (mixed, real, same, ruled) (w, c, d, m, t) = (
  same_five-values g'.poker g.poker w ∙ mixed,
  subst (All (λ n. 1 ≤ n)) (sym w) real,
  t ∙ same,
  rule-values g'.poker g.poker w ∙ ruled,
)

module _ (rand : ℕ → ℕ) (gap fuel k kind : ℕ) (fair : IsFair gap rand)
    (enough : 5 * gap ≤ fuel) where
  random_of_set-drawn :
      (s : PokerSet)
      → All (IsStocked kind) s.group_pokers
      → 1 ≤ get_poker_group_count s
      → (g : GroupPoker) × (s' : PokerSet) × (k' : ℕ) × (random_of_set rand fuel k s
          ≡ some (some g, s', k'))
        × IsStocked kind g
        × (has_same_poker g ≡ false)
        × All (IsStocked kind) s'.group_pokers
  unfolding random_of_set get_poker_group_count Confused
  random_of_set-drawn s fits some_hand =
      let index = length s.group_pokers - 1 - rand k % length s.group_pokers in
      let (g, e, f) =
        elem_of (IsStocked kind) s.group_pokers index fits (omega (arith, some_hand)) in
      let (g', k', drawn, c) = confuse-Confused rand gap fuel (k + 1) g fair f.0 f.1 enough in
      let kept = Confused-IsStocked kind g g' f c in
      (
        g',
        record s { group_pokers = set s.group_pokers index g' },
        k',
        ground (arith, some_hand, e, drawn),
        kept,
        c.2,
        All-set (IsStocked kind) s.group_pokers index g' fits kept,
      )

  -- A draw by type from a stock whose sets hold hands of their types only, where the set of the
  -- type has a hand, under rand() that gives each colour in any `gap` calls in a row: it ends within
  -- five times as many calls, and returns a hand of five different cards to which findCow gives this
  -- type, whatever its arrays held and however its sort orders equal values; and the stock stays so.
  pub get_assign_group_poker-drawn :
      ⦃sorter : Sorter⦄ (gen : PokerGen) (s : PokerSet)
      → Stocked gen
      → find kind gen.poker_maps ≡ some s
      → 1 ≤ get_poker_group_count s
      → (g : GroupPoker) × (gen' : PokerGen) × (k' : ℕ) × (get_assign_group_poker rand fuel k kind
            gen
          ≡ some (some g, gen', k'))
        × ((niu other : List ℤ) → (find_cow g.poker niu other).0 ≡ kind)
        × (has_same_poker g ≡ false)
        × Stocked gen'
  unfolding get_assign_group_poker Stocked
  get_assign_group_poker-drawn gen s stocked there some_hand =
      let (g, s', k', drawn, (mixed, real, same, ruled), varied, kept) =
        random_of_set-drawn s (stocked kind s there) some_hand in
      (
        g,
        record gen { poker_maps = put kind s' gen.poker_maps },
        k',
        ground (arith, there, drawn),
        (λ niu other. find_cow-rule g.poker niu other ∙ ruled),
        varied,
        put-Stocked kind s' gen kept stocked,
      )
