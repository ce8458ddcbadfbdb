-- ===== src/Poker/Draw/Stock.antt =====
-- The hands that Init stocks under their types.
use white_board_server.Prelude.{
  ℕ, ◌≡◌, ◌≤◌, refl, Bool, true, false, ◌&&◌, Option, none, some, List, [], ◌∷◌, ◌++◌, ◌==◌, leb,
  arith, if◌then◌else◌, Bool-cases, inl, inr, sym, ap, subst, ◌∙◌, All,
}
use white_board_server.Containers.Ord.{nat_ord}
use white_board_server.Containers.Map.{find, put, find-put}
use white_board_server.Poker.Card.{OnePoker}
use white_board_server.Poker.Group.{
  Five, GroupPoker, reset_group, five_cards, wu_xiao_niu, wu_hua_niu, si_zha, mei_niu, no_five,
  no_two,
}
use white_board_server.Poker.Cow.{Sorter, niu_type, value_index_pairs}
use white_board_server.Poker.Cow.Compare.{calc_cow_data}
use white_board_server.Poker.Cow.Rules.{
  rule, find_cow-rule, number, is_small, small_total, is_picture, total,
}
use white_board_server.Poker.Cow.Kinds.{any_four, any_ten, three_sums, points_of}
use white_board_server.Poker.Gen.{PokerSet, PokerGen, new_set, add_to_set, add_group_poker}
use white_board_server.Poker.Draw.{
  for_values, all_values, diamonds, all_same, add_diamonds, init_gen,
}
use white_board_server.Poker.Draw.Confusing.{values}

abbrev pub same_five : Five OnePoker → Bool
same_five f =
    all_same f.at0.poker_value f.at1.poker_value f.at2.poker_value f.at3.poker_value
      f.at4.poker_value

-- A hand that a set of a type may hold.
abbrev pub IsStocked : ℕ → GroupPoker → Type 0
IsStocked kind g =
    (same_five g.poker ≡ false)
    × All (λ v. 1 ≤ v) (values (five_cards g.poker))
    × (g.dn_type ≡ kind)
    × (rule g.poker ≡ kind)

-- A hand of the values, all in one colour.
abbrev plain : ℕ → ℕ → ℕ → ℕ → ℕ → Five OnePoker
plain i j m n o = (diamonds i j m n o).poker

-- The values that decide a type.
abbrev of_values : (Five OnePoker → ℕ) → List ℕ → ℕ
of_values f (i ∷ j ∷ m ∷ n ∷ o ∷ []) = f (plain i j m n o)
of_values f _ = 0

rule-plain : (f : Five OnePoker) → rule f ≡ of_values rule (values (five_cards f))
rule-plain f = refl

-- The type of a hand depends on its values only.
pub rule-values :
    (f f' : Five OnePoker) → values (five_cards f) ≡ values (five_cards f') → rule f ≡ rule f'
rule-values f f' e = rule-plain f ∙ ap (of_values rule) e ∙ sym (rule-plain f')

abbrev same_of : List ℕ → Bool
same_of (i ∷ j ∷ m ∷ n ∷ o ∷ []) = all_same i j m n o
same_of _ = false

pub same_five-values :
    (f f' : Five OnePoker)
    → values (five_cards f) ≡ values (five_cards f')
    → same_five f ≡ same_five f'
same_five-values f f' e = ap same_of e

niu_type-le : (sum : ℕ) → niu_type sum ≤ 13
unfolding niu_type
niu_type-le sum = ground arith

rule-le : (f : Five OnePoker) → rule f ≤ 13
rule-le f =
    choices ((number is_small (five_cards f) == 5) && leb (small_total (five_cards f)) 10)
      (number is_picture (five_cards f) == 5) (any_four (value_index_pairs f) (value_index_pairs f))
      (any_ten (three_sums (points_of f))) (niu_type (total (points_of f)))
      (niu_type-le (total (points_of f)))
  where
    choices :
        (a b c d : Bool) (n : ℕ)
        → n ≤ 13
        → (if a
            then wu_xiao_niu
            else if b
            then wu_hua_niu
            else if c
            then si_zha
            else if d
            then n
            else mei_niu)
          ≤ 13
    choices a b c d n h = ground (arith, h)

-- Every hand in the set of a type is one that this set may hold.
unfoldable pub Stocked : PokerGen → Type 0
Stocked gen =
    (kind : ℕ) (s : PokerSet)
    → find kind gen.poker_maps ≡ some s
    → All (IsStocked kind) s.group_pokers

All-snoc {ℓ κ} :
    {A : Type ℓ} (P : A → Type κ) (l : List A) (a : A) → All P l → P a → All P (l ++ a ∷ [])
All-snoc P [] a h p = (p, tt)
All-snoc P (b ∷ l) a h p = (h.0, All-snoc P l a h.1 p)

-- A set of hands of its type may take the place of what the map holds.
pub put-Stocked :
    (kind : ℕ) (s : PokerSet) (gen : PokerGen)
    → All (IsStocked kind) s.group_pokers
    → Stocked gen
    → Stocked (record gen { poker_maps = put kind s gen.poker_maps })
unfolding Stocked
put-Stocked kind s gen fits h j t e =
    let found = sym (find-put kind j s gen.poker_maps) ∙ e in
    let stored : s ≡ t → All (IsStocked kind) t.group_pokers =
      λ same. subst (λ (u : PokerSet). All (IsStocked kind) u.group_pokers) same fits in
    elim (Bool-cases (kind == j)) [
      | inl same ↦
          subst (λ n. All (IsStocked n) t.group_pokers) (ground (arith, same))
            (stored (ground (arith, same, found)))
      | inr other ↦ h j t (ground (arith, other, found))
    ]

abbrev set_or_new : Option PokerSet → ℕ → PokerSet
set_or_new none kind = new_set kind
set_or_new (some s) kind = s

set_or_new-IsStocked :
    (o : Option PokerSet) (kind : ℕ)
    → ((s : PokerSet) → o ≡ some s → All (IsStocked kind) s.group_pokers)
    → All (IsStocked kind) (set_or_new o kind).group_pokers
set_or_new-IsStocked none kind h = tt
set_or_new-IsStocked (some s) kind h = h s refl

add_group_poker-put :
    (g : GroupPoker) (gen : PokerGen) (o : Option PokerSet)
    → find g.dn_type gen.poker_maps ≡ o
    → g.dn_type ≤ 13
    → add_group_poker g gen
      ≡ some (record gen {
        poker_maps = put g.dn_type (add_to_set (set_or_new o g.dn_type) g) gen.poker_maps;
      })
unfolding add_group_poker
add_group_poker-put g gen none e small = ground (arith, e, small)
add_group_poker-put g gen (some s) e small = ground (arith, e, small)

add_group_poker-Stocked :
    (g : GroupPoker) (gen : PokerGen)
    → IsStocked g.dn_type g
    → g.dn_type ≤ 13
    → Stocked gen
    → (gen' : PokerGen) × (add_group_poker g gen ≡ some gen') × Stocked gen'
unfolding add_to_set Stocked
add_group_poker-Stocked g gen fits small h =
    let old = set_or_new (find g.dn_type gen.poker_maps) g.dn_type in
    (
      record gen { poker_maps = put g.dn_type (add_to_set old g) gen.poker_maps },
      add_group_poker-put g gen (find g.dn_type gen.poker_maps) refl small,
      put-Stocked g.dn_type (add_to_set old g) gen
          (All-snoc (IsStocked g.dn_type) old.group_pokers g
            (set_or_new-IsStocked (find g.dn_type gen.poker_maps) g.dn_type (h g.dn_type)) fits)
          h,
    )

-- A loop over values whose body succeeds and keeps a property does so too.
for_values-keeps :
    (P : PokerGen → Type 0) (vs : List ℕ) (body : ℕ → PokerGen → Option PokerGen)
    → All (λ v. 1 ≤ v) vs
    → ((v : ℕ) (gen : PokerGen)
        → 1 ≤ v
        → P gen
        → (gen' : PokerGen) × (body v gen ≡ some gen') × P gen')
    → (gen : PokerGen) → P gen
    → (gen' : PokerGen) × (for_values vs body gen ≡ some gen') × P gen'
unfolding for_values
for_values-keeps P [] body real keeps gen h = (gen, refl, h)
for_values-keeps P (v ∷ rest) body real keeps gen h =
    let (mid, e, p) = keeps v gen real.0 h in
    let (gen', f, q) = for_values-keeps P rest body real.1 keeps mid p in
    (gen', rw (for_values, e) f, q)

module _ ⦃s : Sorter⦄ where
  add_diamonds-Stocked :
      (i j m n o : ℕ) (gen : PokerGen)
      → All (λ v. 1 ≤ v) (i ∷ j ∷ m ∷ n ∷ o ∷ [])
      → Stocked gen
      → (gen' : PokerGen) × (add_diamonds i j m n o gen ≡ some gen') × Stocked gen'
  unfolding add_diamonds calc_cow_data reset_group
  add_diamonds-Stocked i j m n o gen real h =
      let g = calc_cow_data (diamonds i j m n o) true in
      elim (Bool-cases (all_same i j m n o)) [
        | inl same ↦ (gen, rw same refl, h)
        | inr mixed ↦
            let kind : g.dn_type ≡ rule g.poker = find_cow-rule g.poker no_five no_two in
            let (gen', e, q) =
              add_group_poker-Stocked g gen (mixed, real, refl, sym kind)
                (subst (λ t. t ≤ 13) (sym kind) (rule-le g.poker)) h in
            (gen', rw mixed e, q)
      ]

  -- Init does not fail on a stock whose sets hold hands of their types only, and so leaves it: each
  -- hand in the set of a type has real cards whose values are not all the same, and the type that
  -- the rules give it is the type of the set.
  pub init_gen-Stocked :
      (gen : PokerGen) → Stocked gen → (gen' : PokerGen) × (init_gen gen ≡ some gen') × Stocked gen'
  unfolding init_gen
  init_gen-Stocked gen h =
      let real : All (λ v. 1 ≤ v) all_values = ground arith in
      for_values-keeps Stocked all_values _ real
        (λ i g1 a.
          for_values-keeps Stocked all_values _ real
            (λ j g2 b.
              for_values-keeps Stocked all_values _ real
                (λ m g3 c.
                  for_values-keeps Stocked all_values _ real
                    (λ n g4 d.
                      for_values-keeps Stocked all_values _ real
                        (λ o g5 e. add_diamonds-Stocked i j m n o g5 (a, (b, (c, (d, (e, tt))))))
                        g4)
                    g3)
                g2)
            g1)
        gen h
