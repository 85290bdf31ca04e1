-- ===== src/Bootstrap/Scopes.antt =====
-- The symbol scopes of bootstrap/sem.c: a stack of hash tables of chained entries.
pub mod Names
use native_pascal.Prelude.{
  ℕ, zero, suc, ◌+◌, ◌*◌, ◌%◌, ◌^◌, List, [], ◌∷◌, Option, none, some, ◌==◌, if◌then◌else◌, true,
  false, bit_xor,
}
use native_pascal.Prelude.Memory.{Bytes, ◌>>=◌}
use native_pascal.Bootstrap.Chars.{same_text}

abbrev pub hash_size : ℕ
hash_size = 4096

-- The loop of `hash` (FNV-1a, on 32 bits) over a name without a 0.
hash_loop : ℕ → Bytes → ℕ
hash_loop h [] = h
hash_loop h (c ∷ cs) = hash_loop ((bit_xor h c * 16777619) % 2 ^ 32) cs

unfoldable pub hash : Bytes → ℕ
unfolding hash_loop
hash name = hash_loop 2166136261 name % hash_size

-- A symbol: its name, and the rest of the struct.
pub record Sym (V : Type 0) : Type 0 where
  pub name : Bytes
  pub info : V

-- A chain of entries, the newest first.
abbrev pub Chain : Type 0 → Type 0
Chain V = List (Sym V)

-- A scope is its table: a chain for each hash.
abbrev pub Scope : Type 0 → Type 0
Scope V = ℕ → Chain V

-- The stack of scopes, the innermost first. `depth` is its length.
abbrev pub Scopes : Type 0 → Type 0
Scopes V = List (Scope V)

module _ {V : Type 0} where
  -- The loop of `find_in`: the first entry of the name.
  find_entry : Chain V → Bytes → Option (Sym V)
  find_entry [] name = none
  find_entry (e ∷ es) name = if same_text e.name name then some e else find_entry es name

  unfoldable pub find_in : Scope V → Bytes → Option (Sym V)
  unfolding find_entry hash
  find_in sc name = find_entry (sc (hash name)) name

  -- The loop of `define`: the chain with the first entry of the symbol's name replaced, if it has one.
  replace_entry : Sym V → Chain V → Option (Chain V)
  replace_entry s [] = none
  replace_entry s (e ∷ es) =
      if same_text e.name s.name
      then some (s ∷ es)
      else replace_entry s es >>= λ rest. some (e ∷ rest)

  define_entry : Sym V → Chain V → Chain V
  unfolding replace_entry
  define_entry s es = elim (replace_entry s es) [ some replaced ↦ replaced | none ↦ s ∷ es ]

  unfoldable pub define_in : Sym V → Scope V → Scope V
  unfolding define_entry hash
  define_in s sc h = if h == hash s.name then define_entry s (sc h) else sc h

  unfoldable pub scope_push : Scopes V → Scopes V
  scope_push st = (λ _. []) ∷ st

  -- `none` is a read through the null pointer.
  unfoldable pub scope_pop : Scopes V → Option (Scopes V)
  scope_pop [] = none
  scope_pop (sc ∷ st) = some st

  unfoldable pub define : Sym V → Scopes V → Option (Scopes V)
  unfolding define_in
  define s [] = none
  define s (sc ∷ st) = some (define_in s sc ∷ st)

  unfoldable pub lookup : Scopes V → Bytes → Option (Sym V)
  unfolding find_in
  lookup [] name = none
  lookup (sc ∷ st) name = elim (find_in sc name) [ some s ↦ some s | none ↦ lookup st name ]

  unfoldable pub lookup_innermost : Scopes V → Bytes → Option (Option (Sym V))
  unfolding find_in
  lookup_innermost [] name = none
  lookup_innermost (sc ∷ st) name = some (find_in sc name)
