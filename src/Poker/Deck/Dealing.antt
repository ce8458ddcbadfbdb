-- ===== src/Poker/Deck/Dealing.antt =====
-- Dealing: which cards dealPokers gives to which player.
use white_board_server.Prelude.{
  ◌==◌, ℕ, ◌+◌, ◌*◌, ◌<◌, if◌then◌else◌, ◌≡◌, ◌≤◌, refl, Bool, true, Option, none, some, List, [],
  ◌∷◌, ◌++◌, length, zero, suc, arith, take, drop, All, Bool-cases, inl, inr, leb, append_assoc,
  sym, ◌∙◌, ap,
}
use white_board_server.Poker.Card.{OnePoker}
use white_board_server.Poker.Deck.{Deck, deal_poker, deal_pokers}

-- The cards of the hands, one after the other.
abbrev pub dealt : List (Option (List OnePoker)) → List OnePoker
dealt [] = []
dealt (none ∷ hands) = dealt hands
dealt (some hand ∷ hands) = hand ++ dealt hands

take-append-drop {ℓ} : {A : Type ℓ} (n : ℕ) (xs : List A) → take n xs ++ drop n xs ≡ xs
take-append-drop zero xs = refl
take-append-drop (suc n) [] = refl
take-append-drop (suc n) (x ∷ xs) = ap (◌∷◌ x) (take-append-drop n xs)

drop-nil {ℓ} : {A : Type ℓ} (n : ℕ) → drop {A = A} n [] ≡ []
drop-nil zero = refl
drop-nil (suc n) = refl

drop-drop {ℓ} : {A : Type ℓ} (n m : ℕ) (xs : List A) → drop m (drop n xs) ≡ drop (n + m) xs
drop-drop zero m xs = ground arith
drop-drop (suc n) m [] = drop-nil m ∙ sym (drop-nil (suc n + m))
drop-drop (suc n) m (x ∷ xs) = drop-drop n m xs ∙ ap (λ k. drop k (x ∷ xs)) (suc_add n m)
  where
    suc_add : (n m : ℕ) → suc (n + m) ≡ suc n + m
    suc_add n m = omega arith

length-take-drop {ℓ} :
    {A : Type ℓ} (p n : ℕ) (xs : List A) → p + n ≤ length xs → length (take n (drop p xs)) ≡ n
length-take-drop p zero xs h = refl
length-take-drop zero (suc n) [] h = ground (arith, h)
length-take-drop zero (suc n) (x ∷ xs) h =
    ground (arith, length-take-drop 0 n xs (omega (arith, h)))
length-take-drop (suc p) (suc n) [] h = ground (arith, h)
length-take-drop (suc p) (suc n) (x ∷ xs) h = length-take-drop p (suc n) xs (omega (arith, h))

-- A hand that was dealt has five cards.
abbrev pub is_five : Option (List OnePoker) → Bool
is_five none = true
is_five (some hand) = length hand == 5

deal_pokers-keeps :
    (players : ℕ) (d : Deck)
    → let (hands, d') = deal_pokers players d in
      (dealt hands ++ drop d'.deal_position d'.cards ≡ drop d.deal_position d.cards)
      × All (λ hand. is_five hand ≡ true) hands
      × (d'.cards ≡ d.cards)
unfolding deal_pokers deal_poker
deal_pokers-keeps zero d = (refl, tt, refl)
deal_pokers-keeps (suc players) d =
    let p = d.deal_position in
    let d1 : Deck = record d { deal_position = p + 5 } in
    elim (Bool-cases (leb (p + 5) (length d.cards))) [
      | inl enough ↦
          let (same, five, kept) = deal_pokers-keeps players d1 in
          (
            ground (
              arith,
              enough,
              append_assoc (take 5 (drop p d.cards)) (dealt (deal_pokers players d1).0)
                  (drop (deal_pokers players d1).1.deal_position (deal_pokers players d1).1.cards),
              same,
              drop-drop p 5 d.cards,
              take-append-drop 5 (drop p d.cards),
            ),
            ground (arith, enough, five, length-take-drop p 5 d.cards),
            ground (arith, enough, kept),
          )
      | inr few ↦
          let (same, five, kept) = deal_pokers-keeps players d in
          (ground (arith, few, same), ground (arith, few, five), ground (arith, few, kept))
    ]

-- What the player of a number was given.
abbrev pub hand_of : ℕ → List (Option (List OnePoker)) → Option (List OnePoker)
hand_of i [] = none
hand_of zero (hand ∷ hands) = hand
hand_of (suc i) (hand ∷ hands) = hand_of i hands

deal_pokers-hand :
    (players : ℕ) (d : Deck) (i : ℕ)
    → i < players
    → let p = d.deal_position in
      hand_of i (deal_pokers players d).0 ≡ (
        if leb (p + 5 * i + 5) (length d.cards)
        then some (take 5 (drop (p + 5 * i) d.cards))
        else none)
unfolding deal_pokers deal_poker
deal_pokers-hand zero d i h = absurd (omega (arith, h))
deal_pokers-hand (suc players) d zero h =
    let here : d.deal_position + 5 * 0 ≡ d.deal_position = omega arith in ground (arith, here)
deal_pokers-hand (suc players) d (suc i) h =
    let p = d.deal_position in
    let d1 : Deck = record d { deal_position = p + 5 } in
    let next : p + 5 + 5 * i ≡ p + 5 * suc i = omega arith in
    elim (Bool-cases (leb (p + 5) (length d.cards))) [
      | inl enough ↦ ground (arith, enough, next, deal_pokers-hand players d1 i (omega (arith, h)))
      | inr few ↦ ground (arith, few, deal_pokers-hand players d i (omega (arith, h)))
    ]

-- Whatever the number of players, the first one gets the five cards at the deck's position, the next
-- one the five cards after them and so on, and a player gets none exactly if his five cards would
-- reach beyond the last card. The hands that were dealt, one after the other, and the cards that the
-- deck has then left are the cards that it had left, in order; so no card is dealt twice or lost. Each
-- hand has five cards, and the cards stay in the deck's array.
pub deal_pokers-dealt :
    (players : ℕ) (d : Deck) (i : ℕ)
    → i < players
    → let (hands, d') = deal_pokers players d in
      let p = d.deal_position in
      (hand_of i hands ≡ (
        if leb (p + 5 * i + 5) (length d.cards)
        then some (take 5 (drop (p + 5 * i) d.cards))
        else none))
      × (dealt hands ++ drop d'.deal_position d'.cards ≡ drop p d.cards)
      × All (λ hand. is_five hand ≡ true) hands
      × (d'.cards ≡ d.cards)
deal_pokers-dealt players d i h =
    let (same, five, kept) = deal_pokers-keeps players d in
    (deal_pokers-hand players d i h, same, five, kept)
