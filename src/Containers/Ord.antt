-- ===== src/Containers/Ord.antt =====
-- What `std::map` and `std::set` ask of a key: `operator<`, and the equality that it induces.
-- Pointers and integers are compared as numbers, `std::string` byte by byte.
use white_board_server.Prelude.{
  ℕ, ◌≡◌, refl, ◌↔◌, Bool, true, false, ◌&&◌, ◌||◌, List, [], ◌∷◌, arith, ltb, ◌==◌,
}
use white_board_server.Prelude.Int.{ℤ, int_lt, int_eq}

pub record IsLawful {ℓ} {K : Type ℓ} (lt eq : K → K → Bool) : Type ℓ where
  pub eq_iff : (a b : K) → (eq a b ≡ true) ↔ (a ≡ b)
  pub lt_irrefl : (a : K) → lt a a ≡ false
  pub lt_trans : (a b c : K) → lt a b ≡ true → lt b c ≡ true → lt a c ≡ true
  pub lt_connex : (a b : K) → lt a b ≡ false → eq a b ≡ false → lt b a ≡ true

pub record Ord {ℓ} (K : Type ℓ) : Type ℓ where
  pub lt : K → K → Bool
  pub eq : K → K → Bool
  pub lawful : IsLawful lt eq
  pub open lawful use *

pub nat-IsLawful : IsLawful ltb ◌==◌
nat-IsLawful = ground arith

instance abbrev pub nat_ord : Ord ℕ
nat_ord = record { lt = ltb; eq = ◌==◌; lawful = nat-IsLawful }

pub eq_refl {ℓ} : {K : Type ℓ} ⦃o : Ord K⦄ (k : K) → o.eq k k ≡ true
eq_refl ⦃o⦄ k = (o.eq_iff k k).1 refl

pub eq_symm {ℓ} : {K : Type ℓ} ⦃o : Ord K⦄ (j k : K) → o.eq j k ≡ o.eq k j
eq_symm ⦃o⦄ j k = ground (arith, o.eq_iff j k, o.eq_iff k j)

-- A `std::string` is its bytes.
abbrev pub Bytes : Type 0
Bytes = List ℕ

unfoldable pub bytes_eq : Bytes → Bytes → Bool
bytes_eq [] [] = true
bytes_eq (a ∷ s) (b ∷ t) = (a == b) && bytes_eq s t
bytes_eq _ _ = false

unfoldable pub bytes_lt : Bytes → Bytes → Bool
bytes_lt _ [] = false
bytes_lt [] (b ∷ t) = true
bytes_lt (a ∷ s) (b ∷ t) = ltb a b || (a == b) && bytes_lt s t

bytes_eq_refl : (s : Bytes) → bytes_eq s s ≡ true
unfolding bytes_eq
bytes_eq_refl [] = refl
bytes_eq_refl (a ∷ s) = ground (arith, bytes_eq_refl s)

eq_of_bytes_eq : (s t : Bytes) → bytes_eq s t ≡ true → s ≡ t
unfolding bytes_eq
eq_of_bytes_eq [] [] h = refl
eq_of_bytes_eq [] (b ∷ t) h = cc
eq_of_bytes_eq (a ∷ s) [] h = cc
eq_of_bytes_eq (a ∷ s) (b ∷ t) h = ground (arith, eq_of_bytes_eq s t)

bytes_eq_iff : (s t : Bytes) → (bytes_eq s t ≡ true) ↔ (s ≡ t)
bytes_eq_iff s t = (eq_of_bytes_eq s t, λ e. rw e (bytes_eq_refl t))

bytes_lt_irrefl : (s : Bytes) → bytes_lt s s ≡ false
unfolding bytes_lt
bytes_lt_irrefl [] = refl
bytes_lt_irrefl (a ∷ s) = ground (arith, bytes_lt_irrefl s)

bytes_lt_trans : (r s t : Bytes) → bytes_lt r s ≡ true → bytes_lt s t ≡ true → bytes_lt r t ≡ true
unfolding bytes_lt
bytes_lt_trans r s [] h k = ground arith
bytes_lt_trans r [] (c ∷ t) h k = ground arith
bytes_lt_trans [] (b ∷ s) (c ∷ t) h k = refl
bytes_lt_trans (a ∷ r) (b ∷ s) (c ∷ t) h k = ground (arith, bytes_lt_trans r s t)

bytes_lt_connex : (s t : Bytes) → bytes_lt s t ≡ false → bytes_eq s t ≡ false → bytes_lt t s ≡ true
unfolding bytes_lt bytes_eq
bytes_lt_connex [] [] h k = ground arith
bytes_lt_connex [] (b ∷ t) h k = ground arith
bytes_lt_connex (a ∷ s) [] h k = refl
bytes_lt_connex (a ∷ s) (b ∷ t) h k = ground (arith, bytes_lt_connex s t)

pub bytes-IsLawful : IsLawful bytes_lt bytes_eq
bytes-IsLawful = record {
  eq_iff = bytes_eq_iff;
  lt_irrefl = bytes_lt_irrefl;
  lt_trans = bytes_lt_trans;
  lt_connex = bytes_lt_connex;
}

instance abbrev pub bytes_ord : Ord Bytes
bytes_ord = record { lt = bytes_lt; eq = bytes_eq; lawful = bytes-IsLawful }

pub int-IsLawful : IsLawful int_lt int_eq
int-IsLawful = ground arith

instance abbrev pub int_ord : Ord ℤ
int_ord = record { lt = int_lt; eq = int_eq; lawful = int-IsLawful }
