-- ===== src/Bootstrap/Scopes/Names.antt =====
-- The scopes of bootstrap/sem.c are a stack of maps from names to symbols.
use native_pascal.Prelude.{
  ◌≡◌, refl, ap, true, false, List, [], ◌∷◌, Option, none, some, ◌==◌, if◌then◌else◌, arith,
  Bool-cases, inl, inr,
}
use native_pascal.Prelude.Memory.{Bytes, ◌>>=◌}
use native_pascal.Bootstrap.Chars.{same_text, same_text-eq}
use native_pascal.Bootstrap.Scopes.{
  hash, Sym, Chain, Scope, Scopes, find_entry, find_in, replace_entry, define_entry, define_in,
  scope_push, scope_pop, define, lookup,
}

module _ {V : Type 0} (s : Sym V) where
  -- A map from names, changed at the symbol's.
  abbrev pub updated : (Bytes → Option (Sym V)) → Bytes → Option (Sym V)
  updated f name = if same_text s.name name then some s else f name

  -- Two entries of one name are told apart from it alike.
  same_name :
      (x : Sym V) (name : Bytes)
      → same_text x.name s.name ≡ true
      → same_text x.name name ≡ same_text s.name name
  same_name x name e = ap (λ n. same_text n name) (same_text-eq x.name s.name e)

  other_name :
      (x : Sym V) (name : Bytes)
      → same_text x.name s.name ≡ false
      → same_text x.name name ≡ true
      → same_text s.name name ≡ false
  other_name x name n y = elim (Bool-cases (same_text s.name name)) [
    | inr f ↦ f
    | inl t ↦
        let here = same_text-eq x.name name y in
        let there = same_text-eq s.name name t in absurd (cc (n, y, t, here, there))
  ]

  find_entry-replace_entry :
      (es : Chain V) (name : Bytes) (replaced : Chain V)
      → replace_entry s es ≡ some replaced
      → find_entry replaced name ≡ updated (find_entry es) name
  unfolding find_entry replace_entry
  find_entry-replace_entry [] name replaced e = absurd (cc)
  find_entry-replace_entry (x ∷ es) name replaced e = elim (Bool-cases (same_text x.name s.name)) [
    | inl y ↦
        let same : s ∷ es ≡ replaced = cc (rw y at e) in
        rw (← same, same_name x name y) (ground arith)
    | inr n ↦ behind n (find_entry-replace_entry es name) (replace_entry s es) refl (rw n at e)
  ]
    where
      behind :
          same_text x.name s.name ≡ false
          → ((rest : Chain V)
              → replace_entry s es ≡ some rest
              → find_entry rest name ≡ updated (find_entry es) name)
          → (r : Option (Chain V)) → replace_entry s es ≡ r
          → (r >>= λ rest. some (x ∷ rest)) ≡ some replaced
          → find_entry replaced name ≡ updated (find_entry (x ∷ es)) name
      behind n later none e' h = absurd (cc)
      behind n later (some rest) e' h =
          let same : x ∷ rest ≡ replaced = cc in
          rw (← same, later rest e')
            (elim (Bool-cases (same_text x.name name)) [
              | inl y ↦ rw (y, other_name x name n y) refl
              | inr f ↦ rw f refl
            ])

  find_entry-define_entry :
      (es : Chain V) (name : Bytes)
      → find_entry (define_entry s es) name ≡ updated (find_entry es) name
  unfolding define_entry find_entry
  find_entry-define_entry es name = go (replace_entry s es) refl
    where
      go :
          (r : Option (Chain V))
          → replace_entry s es ≡ r
          → find_entry (define_entry s es) name ≡ updated (find_entry es) name
      go none e = rw (e, define_entry) refl
      go (some replaced) e = rw (e, define_entry) (find_entry-replace_entry es name replaced e)

  find_in-define_in :
      (sc : Scope V) (name : Bytes) → find_in (define_in s sc) name ≡ updated (find_in sc) name
  unfolding find_in define_in
  find_in-define_in sc name = elim (Bool-cases (hash name == hash s.name)) [
    | inl y ↦ rw y (find_entry-define_entry (sc (hash name)) name)
    | inr n ↦ elim (Bool-cases (same_text s.name name)) [
      | inl t ↦ let e = ap hash (same_text-eq s.name name t) in absurd (ground arith)
      | inr f ↦ rw (n, f) refl
    ]
  ]

-- A use of the stack by the translator, and what it does. `none` is a read through the null pointer.
pub data Op (V : Type 0) : Type 0 where
  push pop : Op V
  def : Sym V → Op V

-- The abstract stack: a map from names for each scope.
abbrev pub Env : Type 0 → Type 0
Env V = List (Bytes → Option (Sym V))

module _ {V : Type 0} where
  abbrev pub denote : Scopes V → Env V
  denote [] = []
  denote (sc ∷ st) = find_in sc ∷ denote st

  abbrev pub apply : Op V → Scopes V → Option (Scopes V)
  apply push st = some (scope_push st)
  apply pop st = scope_pop st
  apply (def s) st = define s st

  abbrev pub run : List (Op V) → Scopes V → Option (Scopes V)
  run [] st = some st
  run (o ∷ os) st = apply o st >>= run os

  abbrev pub env_apply : Op V → Env V → Option (Env V)
  env_apply push fs = some ((λ _. none) ∷ fs)
  env_apply pop [] = none
  env_apply pop (f ∷ fs) = some fs
  env_apply (def s) [] = none
  env_apply (def s) (f ∷ fs) = some (updated s f ∷ fs)

  abbrev pub env_run : List (Op V) → Env V → Option (Env V)
  env_run [] fs = some fs
  env_run (o ∷ os) fs = env_apply o fs >>= env_run os

  -- The innermost scope that has the name decides.
  abbrev pub env_lookup : Env V → Bytes → Option (Sym V)
  env_lookup [] name = none
  env_lookup (f ∷ fs) name = elim (f name) [ some s ↦ some s | none ↦ env_lookup fs name ]

  lookup-denote : (st : Scopes V) (name : Bytes) → lookup st name ≡ env_lookup (denote st) name
  unfolding lookup
  lookup-denote [] name = refl
  lookup-denote (sc ∷ st) name =
      λ i. elim (find_in sc name) [ some s ↦ some s | none ↦ lookup-denote st name i ]

  apply-denote :
      (o : Op V) (st : Scopes V)
      → (apply o st >>= λ st'. some (denote st')) ≡ env_apply o (denote st)
  unfolding scope_push scope_pop define find_in
  apply-denote push st = refl
  apply-denote pop [] = refl
  apply-denote pop (sc ∷ st) = refl
  apply-denote (def s) [] = refl
  apply-denote (def s) (sc ∷ st) = λ i. some ((λ name. find_in-define_in s sc name i) ∷ denote st)

  run-denote :
      (os : List (Op V)) (st : Scopes V)
      → (run os st >>= λ st'. some (denote st')) ≡ env_run os (denote st)
  run-denote [] st = refl
  run-denote (o ∷ os) st = go (run-denote os) (apply o st) (apply-denote o st)
    where
      go :
          ((st : Scopes V) → (run os st >>= λ st'. some (denote st')) ≡ env_run os (denote st))
          → (r : Option (Scopes V)) → (r >>= λ st'. some (denote st')) ≡ env_apply o (denote st)
          → ((r >>= run os) >>= λ st'. some (denote st')) ≡ env_run (o ∷ os) (denote st)
      go later none e = rw (← e) refl
      go later (some st') e = rw (← e) (later st')

  -- A sequence of scope_push, scope_pop and define on the hash tables fails at the null pointer
  -- where the abstract stack of maps is empty, and else leaves a stack in which lookup finds, for
  -- each name, the symbol that the abstract stack has for it, whatever the hashes.
  pub run-lookup :
      (os : List (Op V)) (name : Bytes)
      → (run os [] >>= λ st. some (lookup st name))
        ≡ (env_run os [] >>= λ fs. some (env_lookup fs name))
  run-lookup os name = go (run os []) (run-denote os [])
    where
      go :
          (r : Option (Scopes V))
          → (r >>= λ st. some (denote st)) ≡ env_run os []
          → (r >>= λ st. some (lookup st name))
            ≡ (env_run os [] >>= λ fs. some (env_lookup fs name))
      go none e = rw (← e) refl
      go (some st) e = rw (← e) (ap some (lookup-denote st name))
