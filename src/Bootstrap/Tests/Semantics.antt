-- ===== src/Bootstrap/Tests/Semantics.antt =====
-- Runs of bootstrap/sem.c at concrete inputs, and instances of its theorems.
use native_pascal.Prelude.{ℕ, ◌-◌, ◌^◌, ◌≡◌, refl, List, [], ◌∷◌, none, some}
use native_pascal.Prelude.Int.{pos, ◌-ℤ◌}
use native_pascal.Prelude.Memory.{◌>>=◌}
use native_pascal.Bootstrap.Token.{Loc}
use native_pascal.Bootstrap.Ast.{Expr, int, bin, un, neg, sub, idiv}
use native_pascal.Bootstrap.Scopes.{Sym, lookup, hash}
use native_pascal.Bootstrap.Scopes.Names.{Op, push, def, run, env_run, env_lookup, run-lookup}
use native_pascal.Bootstrap.Constants.{const_eval}
use native_pascal.Bootstrap.Constants.Value.{value, NamesFit}
use native_pascal.Bootstrap.Constants.Exact.{int_of, const_eval-exact}

-- FNV-1a of "a" is 0xe40c292c.
hash_runs : hash (b'a' ∷ []) ≡ 0x92c
unfolding hash
hash_runs = refl

abbrev outer_x : Sym ℕ
outer_x = record { name = b'x' ∷ []; info = 1 }

abbrev inner_x : Sym ℕ
inner_x = record { name = b'x' ∷ []; info = 2 }

abbrev nested : List (Op ℕ)
nested = push ∷ def outer_x ∷ push ∷ def inner_x ∷ []

run-lookup_example :
    (run nested [] >>= λ st. some (lookup st (b'x' ∷ [])))
    ≡ (env_run nested [] >>= λ fs. some (env_lookup fs (b'x' ∷ [])))
run-lookup_example = run-lookup nested (b'x' ∷ [])

abbrev here : Loc
here = record { file = []; line = 1 }

-- The least INTEGER64, divided by -1.
abbrev overflowing : Expr ℕ
overflowing =
    bin here idiv (bin here sub (un here neg (int here (pos (2 ^ 63 - 1)))) (int here (pos 1)))
      (un here neg (int here (pos 1)))

no_names : NamesFit {R = ℕ} []
unfolding lookup
no_names n v e = absurd (cc)

const_eval_runs : int_of 0 (λ r. r) (const_eval 0 (λ r. r) [] overflowing) ≡ none
unfolding const_eval ◌-ℤ◌
const_eval_runs = refl

const_eval-exact_example :
    int_of 0 (λ r. r) (const_eval 0 (λ r. r) [] overflowing) ≡ value [] overflowing
const_eval-exact_example = const_eval-exact 0 (λ r. r) [] no_names overflowing ((refl, refl), refl)
