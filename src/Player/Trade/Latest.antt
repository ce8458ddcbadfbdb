-- ===== src/Player/Trade/Latest.antt =====
-- What the cache of a property's trades holds after a sequence of trades.
use white_board_server.Prelude.{
  ℕ, zero, suc, ◌≡◌, ◌≤◌, refl, Bool, true, false, Option, some, List, [], ◌∷◌, ◌++◌, ltb, arith,
  if◌then◌else◌, length, take, sym, ap, ◌∙◌, append_assoc, Bool-cases, inl, inr,
}
use white_board_server.Prelude.Int.{ℤ, int_eq}
use white_board_server.Player.Trade.{
  TradeRecordInfo, MultiTradeRecordInfo, TradeRecordsCache, Caches, pop_back, update_records_list,
  get_cache, change_cache, update_trade_records_list,
}

module _ {A : Type 0} where
  take_all : (n : ℕ) (l : List A) → length l ≤ n → take n l ≡ l
  take_all zero [] h = refl
  take_all zero (x ∷ l) h = absurd (omega (arith, h))
  take_all (suc n) [] h = refl
  take_all (suc n) (x ∷ l) h = ap (λ t. x ∷ t) (take_all n l (omega (arith, h)))

  take-take : (n m : ℕ) (l : List A) → n ≤ m → take n (take m l) ≡ take n l
  take-take zero m l h = refl
  take-take (suc n) zero l h = absurd (omega (arith, h))
  take-take (suc n) (suc m) [] h = refl
  take-take (suc n) (suc m) (x ∷ l) h = ap (λ t. x ∷ t) (take-take n m l (omega (arith, h)))

  take-append-take : (n m : ℕ) (l l' : List A) → n ≤ m → take n (l ++ take m l') ≡ take n (l ++ l')
  take-append-take n m [] l' h = take-take n m l' h
  take-append-take zero m (x ∷ l) l' h = refl
  take-append-take (suc n) m (x ∷ l) l' h =
      ap (λ t. x ∷ t) (take-append-take n m l l' (omega (arith, h)))

  length-take-le : (n : ℕ) (l : List A) → length (take n l) ≤ n
  length-take-le zero l = omega arith
  length-take-le (suc n) [] = omega arith
  length-take-le (suc n) (x ∷ l) = omega (arith, length-take-le n l)

pop_back-take : (n : ℕ) (l : List TradeRecordInfo) → length l ≡ suc n → pop_back l ≡ take n l
unfolding pop_back
pop_back-take n [] h = absurd (omega (arith, h))
pop_back-take zero (r ∷ []) h = refl
pop_back-take (suc n) (r ∷ []) h = absurd (omega (arith, h))
pop_back-take zero (r ∷ s ∷ l) h = absurd (omega (arith, h))
pop_back-take (suc n) (r ∷ s ∷ l) h = ap (λ t. r ∷ t) (pop_back-take n (s ∷ l) (omega (arith, h)))

update_records_list-take :
    (r : TradeRecordInfo) (m : MultiTradeRecordInfo)
    → length m.trade_record_lst ≤ 50
    → update_records_list r m ≡ record m { trade_record_lst = take 50 (r ∷ m.trade_record_lst) }
unfolding update_records_list
update_records_list-take r m h = elim (Bool-cases (ltb (length m.trade_record_lst) 50)) [
  | inl room ↦ ground (arith, room, h, take_all 49 m.trade_record_lst (ground (arith, room)))
  | inr full ↦
      ground (arith, full, h, pop_back-take 49 m.trade_record_lst (ground (arith, full, h)))
]

-- The trades of one property among those that were recorded, the newest first.
abbrev pub newest : ℤ → List (ℤ × TradeRecordInfo) → List TradeRecordInfo
newest p [] = []
newest p ((q, r) ∷ rest) = newest p rest ++ (if int_eq q p then r ∷ [] else [])

-- The trades are recorded one after the other.
pub record_trades : List (ℤ × TradeRecordInfo) → Caches → Caches
record_trades [] m = m
record_trades ((q, r) ∷ rest) m = record_trades rest (update_trade_records_list q r m)

abbrev pub with_records : List TradeRecordInfo → TradeRecordsCache → TradeRecordsCache
with_records l c = record c {
  trade_records = record { trade_record_lst = l; acc_id_request = c.trade_records.acc_id_request };
}

int_eq_join : (a b c : ℤ) → int_eq a b ≡ true → int_eq a c ≡ true → int_eq b c ≡ true
int_eq_join a b c h k = ground arith

int_eq_split : (a b c : ℤ) → int_eq a b ≡ false → int_eq a c ≡ true → int_eq b c ≡ false
int_eq_split a b c h k = ground arith

int_eq_apart : (a b c : ℤ) → int_eq a b ≡ true → int_eq a c ≡ false → int_eq b c ≡ false
int_eq_apart a b c h k = ground arith

get_cache-change :
    (p q : ℤ) (f : TradeRecordsCache → TradeRecordsCache) (m : Caches) (c : TradeRecordsCache)
    → ((d : TradeRecordsCache) → (f d).property_type ≡ d.property_type)
    → get_cache p m ≡ some c
    → get_cache p (change_cache q f m) ≡ some (if int_eq q p then f c else c)
unfolding get_cache change_cache
get_cache-change p q f [] c keeps e = absurd (ground (arith, e))
get_cache-change p q f (d ∷ rest) c keeps e = elim (Bool-cases (int_eq d.property_type p)) [
  | inl here ↦
      let kept : int_eq (f d).property_type p ≡ true = ap (λ t. int_eq t p) (keeps d) ∙ here in
      let same : d ≡ c = ground (arith, e, here) in
      elim (Bool-cases (int_eq d.property_type q)) [
        | inl hit ↦
            rw (hit, kept, int_eq_join d.property_type q p hit here)
              (ap (λ (x : TradeRecordsCache). some (f x)) same)
        | inr miss ↦
            rw (miss, here, int_eq_split d.property_type q p miss here)
              (ap (λ (x : TradeRecordsCache). some x) same)
      ]
  | inr later ↦ elim (Bool-cases (int_eq d.property_type q)) [
    | inl hit ↦
        let kept : int_eq (f d).property_type p ≡ false = ap (λ t. int_eq t p) (keeps d) ∙ later in
        rw (hit, kept, int_eq_apart d.property_type q p hit later) (ground (arith, later, e))
    | inr miss ↦
        ground (arith, later, miss, get_cache-change p q f rest c keeps (ground (arith, later, e)))
  ]
]

get_cache-update :
    (p q : ℤ) (r : TradeRecordInfo) (m : Caches) (c : TradeRecordsCache)
    → get_cache p m ≡ some c
    → length c.trade_records.trade_record_lst ≤ 50
    → get_cache p (update_trade_records_list q r m)
      ≡ some (
          with_records
            (take 50 ((if int_eq q p then r ∷ [] else []) ++ c.trade_records.trade_record_lst))
            c)
unfolding update_trade_records_list
get_cache-update p q r m c e h =
    get_cache-change p q (λ d. record d { trade_records = update_records_list r d.trade_records }) m
      c (λ d. refl) e
    ∙ by_test (int_eq q p)
  where
    by_test :
        (b : Bool)
        → ◌≡◌ {A = Option TradeRecordsCache}
            (some
              (if b then record c { trade_records = update_records_list r c.trade_records } else c))
            (some (
              with_records
                (take 50 ((if b then r ∷ [] else []) ++ c.trade_records.trade_record_lst))
                c))
    by_test true =
        ap (λ t. some (record c { trade_records = t }))
          (update_records_list-take r c.trade_records h)
    by_test false =
        ap (λ t. some (with_records t c)) (sym (take_all 50 c.trade_records.trade_record_lst h))

-- A manager has a cache for a property, with at most fifty trades. After any trades, of this and
-- of other properties, its cache holds the latest fifty of this property's trades, the newest
-- first, and is otherwise as it was.
pub record_trades-latest :
    (p : ℤ) (ops : List (ℤ × TradeRecordInfo)) (m : Caches) (c : TradeRecordsCache)
    → get_cache p m ≡ some c
    → length c.trade_records.trade_record_lst ≤ 50
    → get_cache p (record_trades ops m)
      ≡ some (with_records (take 50 (newest p ops ++ c.trade_records.trade_record_lst)) c)
unfolding record_trades
record_trades-latest p [] m c e h = rw (take_all 50 c.trade_records.trade_record_lst h) e
record_trades-latest p ((q, r) ∷ rest) m c e h =
    let l = c.trade_records.trade_record_lst in
    let one : List TradeRecordInfo = if int_eq q p then r ∷ [] else [] in
    record_trades-latest p rest (update_trade_records_list q r m)
      (with_records (take 50 (one ++ l)) c) (get_cache-update p q r m c e h)
      (length-take-le 50 (one ++ l))
    ∙ ap (λ t. some (with_records t c))
        (take-append-take 50 50 (newest p rest) (one ++ l) (omega arith)
          ∙ ap (take 50) (sym (append_assoc (newest p rest) one l)))
