-- ===== src/Dispatch/Routing.antt =====
-- Which service an opcode goes to after registering and deregistering opcodes.
use white_board_server.Prelude.{
  ℕ, ◌≡◌, refl, true, none, some, List, [], ◌∷◌, arith, if◌then◌else◌, ◌==◌, Bool-cases,
  Option-cases, inl, inr,
}
use white_board_server.Containers.Ord.{nat_ord}
use white_board_server.Containers.Map.{Map, find, put, erase, find-put, find-erase}
use white_board_server.Containers.Set.{contains}
use white_board_server.Dispatch.{
  Dispatcher, register_from, register_opcode, deregister_from, deregister_opcode, route,
}

register_from-find :
    (opcodes : List ℕ) (service : ℕ) (rules : Map ℕ ℕ) (o : ℕ)
    → (register_from opcodes service rules).0 ≡ true
    → find o (register_from opcodes service rules).1
      ≡ (if contains o opcodes then some service else find o rules)
unfolding register_from contains
register_from-find [] service rules o h = refl
register_from-find (p ∷ rest) service rules o h = elim (Option-cases (find p rules)) [
  | inr (t, e) ↦ absurd (ground (arith, h, e))
  | inl e ↦ ground (
    arith,
    e,
    register_from-find rest service (put p service rules) o (ground (arith, h, e)),
    find-put p o service rules,
  )
]

register_from-keeps :
    (opcodes : List ℕ) (service : ℕ) (rules : Map ℕ ℕ) (o t : ℕ)
    → find o rules ≡ some t
    → find o (register_from opcodes service rules).1 ≡ some t
unfolding register_from
register_from-keeps [] service rules o t h = h
register_from-keeps (p ∷ rest) service rules o t h = elim (Option-cases (find p rules)) [
  | inr (u, e) ↦ ground (arith, h, e)
  | inl e ↦ ground (
    arith,
    e,
    register_from-keeps rest service (put p service rules) o t
        (ground (arith, h, e, find-put p o service rules)),
  )
]

register_from-fresh :
    (opcodes : List ℕ) (service : ℕ) (rules : Map ℕ ℕ) (o : ℕ)
    → (register_from opcodes service rules).0 ≡ true
    → contains o opcodes ≡ true
    → find o rules ≡ none
unfolding register_from contains
register_from-fresh [] service rules o h k = absurd (ground (arith, k))
register_from-fresh (p ∷ rest) service rules o h k = elim (Option-cases (find p rules)) [
  | inr (t, e) ↦ absurd (ground (arith, h, e))
  | inl e ↦ elim (Bool-cases (p == o)) [
    | inl same ↦ ground (arith, same, e)
    | inr apart ↦ ground (
      arith,
      apart,
      register_from-fresh rest service (put p service rules) o (ground (arith, h, e))
          (ground (arith, k, apart)),
      find-put p o service rules,
    )
  ]
]

deregister_from-find :
    (opcodes : List ℕ) (rules : Map ℕ ℕ) (o : ℕ)
    → find o (deregister_from opcodes rules) ≡ (if contains o opcodes then none else find o rules)
unfolding deregister_from contains
deregister_from-find [] rules o = refl
deregister_from-find (p ∷ rest) rules o = elim (Option-cases (find p rules)) [
  | inl e ↦ ground (arith, e, deregister_from-find rest rules o)
  | inr (t, e) ↦
      ground (arith, e, deregister_from-find rest (erase p rules) o, find-erase p o rules)
]

-- Whatever RegisterOpcode returns, an opcode that went to a service still goes to that service.
pub register_opcode-keeps :
    (opcodes : List ℕ) (service o t : ℕ) (d : Dispatcher)
    → route o d ≡ some t
    → route o (register_opcode opcodes (some service) d).1 ≡ some t
unfolding register_opcode
register_opcode-keeps opcodes service o t d h =
    register_from-keeps opcodes service d.dispatch_rules o t h

-- When RegisterOpcode returns true, deregistering the same opcodes brings back where every opcode
-- went before.
pub deregister_opcode-register :
    (opcodes : List ℕ) (service o : ℕ) (d : Dispatcher)
    → (register_opcode opcodes (some service) d).0 ≡ true
    → route o (deregister_opcode opcodes (register_opcode opcodes (some service) d).1).1 ≡ route o d
unfolding register_opcode deregister_opcode
deregister_opcode-register opcodes service o d h = ground (
  arith,
  deregister_from-find opcodes (register_from opcodes service d.dispatch_rules).1 o,
  register_from-find opcodes service d.dispatch_rules o h,
  register_from-fresh opcodes service d.dispatch_rules o h,
)
