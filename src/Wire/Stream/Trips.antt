-- ===== src/Wire/Stream/Trips.antt =====
-- Writers and readers that fit together: what one appends to a packet the other reads back.
use white_board_server.Prelude.{
  ℕ, ◌^◌, ◌≡◌, refl, [], ◌<◌, ◌++◌, length, sym, ap, subst, ◌∙◌, append_assoc, append-nil,
}
use white_board_server.Containers.Ord.{Bytes}
use white_board_server.Wire.{PacketTranscode, bytes_of, write, read_string}
use white_board_server.Wire.Stream.{append, write_uint32, write_string, read_uint32}
use white_board_server.Wire.Stream.Reading.{Ahead, read_uint32_lem, read_string_lem}

abbrev pub Writer : Type 0
Writer = PacketTranscode → PacketTranscode

abbrev pub Reader {ℓ} : Type ℓ → Type ℓ
Reader A = PacketTranscode → A × PacketTranscode

-- The writer appends some bytes to a packet, the same to each; and from a packet in which these
-- bytes are the next the reader reads the value, and stops behind them with the packet still good.
pub record Trip {ℓ} {A : Type ℓ} (w : Writer) (r : Reader A) (a : A) : Type ℓ where
  pub bytes : Bytes
  pub writes : (p : PacketTranscode) → (w p).buf.written ≡ p.buf.written ++ bytes
  pub reads :
      (q : PacketTranscode) (rest : Bytes)
      → Ahead q (bytes ++ rest)
      → ((r q).0 ≡ a) × Ahead (r q).1 rest

pub uint32-Trip : (n : ℕ) → n < 2 ^ 32 → Trip (write_uint32 n) read_uint32 n
unfolding write_uint32 append write bytes_of
uint32-Trip n small = record {
  bytes = bytes_of n;
  writes = λ p. refl;
  reads = λ q rest h. read_uint32_lem n q rest small h;
}

-- A string is read into one that holds nothing.
pub string-Trip : (s : Bytes) → length s < 2 ^ 32 → Trip (write_string s) (λ q. read_string q []) s
unfolding write_string append write bytes_of
string-Trip s small = record {
  bytes = bytes_of (length s) ++ s;
  writes = λ p. append_assoc p.buf.written (bytes_of (length s)) s;
  reads = λ q rest h. read_string_lem s [] q rest small h;
}

abbrev pub both {ℓ κ} :
    {A : Type ℓ} {B : Type κ} → Reader A → Reader B → PacketTranscode → (A × B) × PacketTranscode
both r s q = (((r q).0, (s (r q).1).0), (s (r q).1).1)

module _ {ℓ κ} {A : Type ℓ} {B : Type κ} where
  pub both-Trip :
      {w v : Writer} {r : Reader A} {s : Reader B} {a : A} {b : B}
      → Trip w r a
      → Trip v s b
      → Trip (λ p. v (w p)) (both r s) (a, b)
  both-Trip {w} {v} {r} {s} t t' = record {
    bytes = t.bytes ++ t'.bytes;
    writes = λ p.
        t'.writes (w p)
        ∙ ap (λ l. l ++ t'.bytes) (t.writes p)
        ∙ append_assoc p.buf.written t.bytes t'.bytes;
    reads = λ q rest h.
        let (e, ahead) =
          t.reads q (t'.bytes ++ rest) (subst (Ahead q) (append_assoc t.bytes t'.bytes rest) h) in
        let (e', ahead') = t'.reads (r q).1 rest ahead in ((λ i. (e i, e' i)), ahead');
  }

  pub map-Trip :
      {w : Writer} {r : Reader A} {a : A} (f : A → B)
      → Trip w r a
      → Trip w (λ q. (f (r q).0, (r q).1)) (f a)
  map-Trip f t = record {
    bytes = t.bytes;
    writes = t.writes;
    reads = λ q rest h. let (e, ahead) = t.reads q rest h in (ap f e, ahead);
  }

-- Nothing is written and nothing is read.
pub done-Trip {ℓ} : {A : Type ℓ} (a : A) → Trip (λ p. p) (λ q. (a, q)) a
done-Trip a = record {
  bytes = [];
  writes = λ p. sym (append-nil p.buf.written);
  reads = λ q rest h. (refl, h);
}

-- What is read next may depend on what was read.
pub bind-Trip {ℓ κ} :
    {A : Type ℓ} {B : Type κ} {w v : Writer} {r : Reader A} {a : A} {b : B} (s : A → Reader B)
    → Trip w r a
    → Trip v (s a) b
    → Trip (λ p. v (w p)) (λ q. s (r q).0 (r q).1) b
bind-Trip {w} {v} {r} {a} {b} s t t' = record {
  bytes = t.bytes ++ t'.bytes;
  writes = λ p.
      t'.writes (w p)
      ∙ ap (λ l. l ++ t'.bytes) (t.writes p)
      ∙ append_assoc p.buf.written t.bytes t'.bytes;
  reads = λ q rest h.
      let (e, ahead) =
        t.reads q (t'.bytes ++ rest) (subst (Ahead q) (append_assoc t.bytes t'.bytes rest) h) in
      subst (λ x. ((s x (r q).1).0 ≡ b) × Ahead (s x (r q).1).1 rest) (sym e)
        (t'.reads (r q).1 rest ahead);
}
