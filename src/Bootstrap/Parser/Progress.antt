-- ===== src/Bootstrap/Parser/Progress.antt =====
-- bootstrap/parse.c: what a parser leaves of the tokens.
pub mod Operators
pub mod Expressions
pub mod Conditions
pub mod TypeExprs
pub mod Statements
pub mod Declarations
pub mod Routines
pub mod Compilands
use native_pascal.Prelude.{
  ℕ, zero, suc, ◌+◌, ◌<◌, ◌≤◌, Bool, true, false, ◌≡◌, refl, sym, subst, arith, if◌then◌else◌,
  Bool-cases, inl, inr, Option, none, some, List,
}
use native_pascal.Prelude.Memory.{Bytes}
use native_pascal.Bootstrap.Token.{Loc, Token, Punct, Tok, eof, ident, int, real, str, char, punct}
use native_pascal.Bootstrap.Parser.{
  Tokens, end, token, Message, Parsed, ok, fatal, exhausted, Parser, Test, pure, when_some, ◌>>=◌,
  ◌>>◌, cur, advance, here, take_token, test, at_word, at_punct, Construct, Wanted, accept_word,
  accept_punct, expect_word, expect_punct, expected, unsupported, unsupported_at, reject_if,
  reject_at, ident_text, ident_list, is_word, punct_tok, text_of, reserved_or_other,
}
use native_pascal.Bootstrap.Parser

module _ {R : Type 0} where
  -- The tokens in front of the T_EOF.
  unfoldable pub size : Tokens R → ℕ
  size (end _) = 0
  size (token _ ts) = suc (size ts)

  -- A result that is not `exhausted`, and whose value and rest are as stated if it is a success.
  pub data Gives {A : Type 0} (Q : A → Tokens R → Type 0) : Parsed R A → Type 0 where
    success : {a : A} {rest : Tokens R} → Q a rest → Gives Q (ok a rest)
    failure : {loc : Loc} {m : Message} → Gives Q (fatal loc m)

  -- It leaves fewer than `n` tokens.
  abbrev pub Leaves : {A : Type 0} → ℕ → Parsed R A → Type 0
  Leaves n r = Gives (λ _ rest. size rest < n) r

  module _ {A : Type 0} (Q : A → Tokens R → Type 0) where
    pub pure-Gives : (a : A) (ts : Tokens R) → Q a ts → Gives Q (pure a ts)
    unfolding pure
    pure-Gives a ts h = success h

    pub expected-Gives : (what : Wanted) (ts : Tokens R) → Gives Q (expected what ts)
    unfolding expected
    expected-Gives what ts = failure

    pub unsupported_at-Gives :
        (loc : Loc) (what : Construct) (ts : Tokens R) → Gives Q (unsupported_at loc what ts)
    unfolding unsupported_at
    unsupported_at-Gives loc what ts = failure

    pub unsupported-Gives : (what : Construct) (ts : Tokens R) → Gives Q (unsupported what ts)
    unfolding unsupported unsupported_at ◌>>=◌ here
    unsupported-Gives what ts = failure

  pub Leaves-le : {A : Type 0} {m n : ℕ} {r : Parsed R A} → Leaves m r → m ≤ n → Leaves n r
  Leaves-le (success h) le = success (omega arith)
  Leaves-le failure le = failure

  pub Leaves-runs : {A : Type 0} {n : ℕ} {r : Parsed R A} → Leaves n r → r ≡ exhausted → ⊥
  Leaves-runs (success h) e = absurd (cc)
  Leaves-runs failure e = absurd (cc)

  pub token-Nonempty : {ts rest : Tokens R} {t : Token R} → ts ≡ token t rest → 0 < size ts
  unfolding size
  token-Nonempty {rest = rest} {t = t} e = subst (λ x. 0 < size x) (sym e) (omega arith)

  module _ {A B : Type 0} {P : A → Tokens R → Type 0} (Q : B → Tokens R → Type 0) where
    bound-Gives :
        {r : Parsed R A} (f : A → Parser R B)
        → Gives P r
        → ((a : A) (rest : Tokens R) → P a rest → Gives Q (f a rest))
        → Gives Q
            (elim r [ ok a rest ↦ f a rest | fatal loc m ↦ fatal loc m | exhausted ↦ exhausted ])
    bound-Gives f (success {a} {rest} h) k = k a rest h
    bound-Gives f failure k = failure

    pub >>=-Gives :
        (p : Parser R A) (f : A → Parser R B) (ts : Tokens R)
        → Gives P (p ts)
        → ((a : A) (rest : Tokens R) → P a rest → Gives Q (f a rest))
        → Gives Q ((p >>= f) ts)
    unfolding ◌>>=◌
    >>=-Gives p f ts h k = bound-Gives f h k

  module _ {B : Type 0} (Q : B → Tokens R → Type 0) where
    pub if-Gives :
        (b : Bool) (p q : Parser R B) (ts : Tokens R)
        → Gives Q (p ts)
        → Gives Q (q ts)
        → Gives Q ((if b then p else q) ts)
    if-Gives true p q ts t e = t
    if-Gives false p q ts t e = e

    pub option-Gives :
        {A : Type 0} (F : Option A → Type 0) (o : Option A) (p : Parser R B) (q : A → Parser R B)
        (ts : Tokens R)
        → F o
        → (F none → Gives Q (p ts))
        → ((a : A) → F (some a) → Gives Q (q a ts))
        → Gives Q (when_some o p q ts)
    option-Gives F none p q ts h n s = n h
    option-Gives F (some a) p q ts h n s = s a h

    pub here-Gives :
        (f : Loc → Parser R B) (ts : Tokens R)
        → ((loc : Loc) → Gives Q (f loc ts))
        → Gives Q ((here >>= f) ts)
    unfolding ◌>>=◌ here
    here-Gives f ts k = k (cur ts).loc

    pub take_token-Gives :
        (f : Token R → Parser R B) (ts : Tokens R)
        → ((t : Token R) (rest : Tokens R) → ts ≡ token t rest → Gives Q (f t ts))
        → ((loc : Loc) → Gives Q (f (record { tok = eof; loc = loc }) ts))
        → Gives Q ((take_token >>= f) ts)
    unfolding ◌>>=◌ take_token
    take_token-Gives f (end loc) k e = e loc
    take_token-Gives f (token t rest) k e = k t rest refl

  module _ {B : Type 0} (Q : B → Tokens R → Type 0) (f : Bool → Parser R B) where
    pub test-Gives :
        (ts : Tokens R) (holds : Test R)
        → Gives Q (f true ts)
        → Gives Q (f false ts)
        → Gives Q ((test holds >>= f) ts)
    unfolding ◌>>=◌ test
    test-Gives ts holds t e = elim (Bool-cases (holds ts)) [ inl b ↦ rw b t | inr b ↦ rw b e ]

    pub test-cases :
        (ts : Tokens R) (holds : Test R)
        → (holds ts ≡ true → Gives Q (f true ts))
        → (holds ts ≡ false → Gives Q (f false ts))
        → Gives Q ((test holds >>= f) ts)
    unfolding ◌>>=◌ test
    test-cases ts holds t e = elim (Bool-cases (holds ts)) [
      | inl b ↦ rw b (t b)
      | inr b ↦ rw b (e b)
    ]

    pub bool-Gives :
        (b : Bool) (ts : Tokens R) → Gives Q (f true ts) → Gives Q (f false ts) → Gives Q (f b ts)
    bool-Gives true ts t e = t
    bool-Gives false ts t e = e

    pub at_word-Gives :
        (ts : Tokens R) (w : Bytes)
        → (0 < size ts → Gives Q (f true ts))
        → Gives Q (f false ts)
        → Gives Q ((at_word w >>= f) ts)
    unfolding ◌>>=◌ test at_word size
    at_word-Gives (end _) w t e = e
    at_word-Gives (token x rest) w t e = elim (Bool-cases (is_word x w)) [
      | inl b ↦ rw b (t (omega arith))
      | inr b ↦ rw b e
    ]

    pub at_punct-Gives :
        (ts : Tokens R) (p : Punct)
        → (0 < size ts → Gives Q (f true ts))
        → Gives Q (f false ts)
        → Gives Q ((at_punct p >>= f) ts)
    unfolding ◌>>=◌ test at_punct size
    at_punct-Gives (end _) p t e = e
    at_punct-Gives (token x rest) p t e = elim (Bool-cases (punct_tok x.tok p)) [
      | inl b ↦ rw b (t (omega arith))
      | inr b ↦ rw b e
    ]

    accepted-Gives :
        (b : Bool) (x : Token R) (rest : Tokens R)
        → ((rest2 : Tokens R) → size rest2 < size (token x rest) → Gives Q (f true rest2))
        → Gives Q (f false (token x rest))
        → Gives Q (((if b then advance >> pure true else pure false) >>= f) (token x rest))
    unfolding ◌>>=◌ advance pure size
    accepted-Gives true x rest t e = t rest (omega arith)
    accepted-Gives false x rest t e = e

    pub accept_word-Gives :
        (ts : Tokens R) (w : Bytes)
        → ((rest : Tokens R) → size rest < size ts → Gives Q (f true rest))
        → Gives Q (f false ts)
        → Gives Q ((accept_word w >>= f) ts)
    unfolding ◌>>=◌ test at_word accept_word advance pure size
    accept_word-Gives (end _) w t e = e
    accept_word-Gives (token x rest) w t e = accepted-Gives (is_word x w) x rest t e

    pub passes_word-Gives :
        (x : Token R) (rest : Tokens R) (w : Bytes)
        → is_word x w ≡ true
        → Gives Q (f true rest)
        → Gives Q ((accept_word w >>= f) (token x rest))
    unfolding ◌>>=◌ test at_word accept_word advance pure
    passes_word-Gives x rest w h g =
        subst
          (λ b. Gives Q (((if b then advance >> pure true else pure false) >>= f) (token x rest)))
          (sym h) g

    pub at_word-cases :
        (ts : Tokens R) (w : Bytes)
        → (is_word (cur ts) w ≡ true → Gives Q (f true ts))
        → Gives Q (f false ts)
        → Gives Q ((at_word w >>= f) ts)
    unfolding at_word
    at_word-cases ts w t e = test-cases ts _ t (λ _. e)

    pub accept_punct-Gives :
        (ts : Tokens R) (p : Punct)
        → ((rest : Tokens R) → size rest < size ts → Gives Q (f true rest))
        → Gives Q (f false ts)
        → Gives Q ((accept_punct p >>= f) ts)
    unfolding ◌>>=◌ test at_punct accept_punct advance pure size
    accept_punct-Gives (end _) p t e = e
    accept_punct-Gives (token x rest) p t e = accepted-Gives (punct_tok x.tok p) x rest t e

  -- Parsers that pass a token or fail.
  pub expect_word-Leaves : (w : Bytes) (ts : Tokens R) → Leaves (size ts) (expect_word w ts)
  unfolding ◌>>=◌ test at_word expect_word advance expected size
  expect_word-Leaves w (end _) = failure
  expect_word-Leaves w (token x rest) = elim (Bool-cases (is_word x w)) [
    | inl b ↦ rw b (success (omega arith))
    | inr b ↦ rw b failure
  ]

  pub expect_punct-Leaves : (p : Punct) (ts : Tokens R) → Leaves (size ts) (expect_punct p ts)
  unfolding ◌>>=◌ test at_punct expect_punct advance expected size
  expect_punct-Leaves p (end _) = failure
  expect_punct-Leaves p (token x rest) = elim (Bool-cases (punct_tok x.tok p)) [
    | inl b ↦ rw b (success (omega arith))
    | inr b ↦ rw b failure
  ]

  pub ident-Leaves : (ts : Tokens R) → Leaves (size ts) (Parser.ident ts)
  unfolding ◌>>=◌ test take_token Parser.ident advance expected pure size
  ident-Leaves (end _) = failure
  ident-Leaves (token x rest) = elim (Bool-cases (reserved_or_other (token x rest))) [
    | inl b ↦ rw b failure
    | inr b ↦ rw b (success (omega arith))
  ]

  pub advance-Leaves : (ts : Tokens R) → 0 < size ts → Leaves (size ts) (advance ts)
  unfolding advance size
  advance-Leaves (end _) h = absurd (omega arith)
  advance-Leaves (token _ rest) h = success (omega arith)

  -- A test that does not hold, or the end.
  pub reject_if-Leaves :
      (n : ℕ) (holds : Parser R Bool) (what : Construct) (ts : Tokens R)
      → Leaves n (holds ts)
      → Leaves n (reject_if holds what ts)
  unfolding reject_if
  reject_if-Leaves n holds what ts h =
      >>=-Gives _ _ _ ts h
        λ b rest l. if-Gives _ b _ _ rest (unsupported-Gives _ what rest) (pure-Gives _ tt rest l)

  -- Tests keep the tokens, and so what holds of them.
  module _ (P : Tokens R → Type 0) where
    pub at_word-keeps : (w : Bytes) (ts : Tokens R) → P ts → Gives (λ _ r. P r) (at_word w ts)
    unfolding at_word test
    at_word-keeps w ts h = success h

    pub reject_at-keeps :
        (loc : Loc) (holds : Parser R Bool) (what : Construct) (ts : Tokens R)
        → Gives (λ _ r. P r) (holds ts)
        → Gives (λ _ r. P r) (reject_at loc holds what ts)
    unfolding reject_at
    reject_at-keeps loc holds what ts h = >>=-Gives _ _ _ ts h λ b rest l.
        if-Gives _ b _ _ rest (unsupported_at-Gives _ loc what rest) (pure-Gives _ tt rest l)

    pub reject_word-keeps :
        (loc : Loc) (w : Bytes) (what : Construct) (ts : Tokens R)
        → P ts
        → Gives (λ _ r. P r) (reject_at loc (at_word w) what ts)
    reject_word-keeps loc w what ts h = reject_at-keeps loc _ what ts (at_word-keeps w ts h)

  pub test-keeps : (n : ℕ) (holds : Test R) (ts : Tokens R) → size ts < n → Leaves n (test holds ts)
  unfolding test
  test-keeps n holds ts h = success h

  pub at_word-Leaves : (n : ℕ) (w : Bytes) (ts : Tokens R) → size ts < n → Leaves n (at_word w ts)
  unfolding at_word test
  at_word-Leaves n w ts h = success h

  pub at_punct-Leaves : (n : ℕ) (p : Punct) (ts : Tokens R) → size ts < n → Leaves n (at_punct p ts)
  unfolding at_punct test
  at_punct-Leaves n p ts h = success h

  pub advance-stays : (ts : Tokens R) → Leaves (suc (size ts)) (advance ts)
  unfolding advance size
  advance-stays (end _) = success (omega arith)
  advance-stays (token _ rest) = success (omega arith)

  pub accept_word-Leaves : (w : Bytes) (ts : Tokens R) → Leaves (suc (size ts)) (accept_word w ts)
  unfolding accept_word
  accept_word-Leaves w ts =
      at_word-Gives _ _ ts _
        (λ p. >>=-Gives _ _ _ ts (advance-Leaves ts p) λ _ r l. pure-Gives _ _ r (omega arith))
        (pure-Gives _ _ ts (omega arith))

  pub advance-exact :
      (ts : Tokens R) → 0 < size ts → Gives (λ _ rest. suc (size rest) ≡ size ts) (advance ts)
  unfolding advance size
  advance-exact (end _) h = absurd (omega arith)
  advance-exact (token _ rest) h = success refl

  pub ident_text-Leaves : (ts : Tokens R) → Leaves (size ts) (ident_text ts)
  unfolding ident_text
  ident_text-Leaves ts =
      >>=-Gives _ _ _ ts (ident-Leaves ts) λ t rest h. pure-Gives _ (text_of t.tok) rest h

  pub ident_list-Leaves :
      (fuel : ℕ) (ts : Tokens R) → size ts < fuel → Leaves (size ts) (ident_list fuel ts)
  unfolding ident_list
  ident_list-Leaves zero ts h = absurd (omega arith)
  ident_list-Leaves (suc fuel) ts h = >>=-Gives _ _ _ ts (ident_text-Leaves ts) λ name rest l.
      accept_punct-Gives _ _ rest _
        (λ rest2 l2.
          >>=-Gives _ _ _ rest2 (ident_list-Leaves fuel rest2 (omega arith))
            λ names rest3 l3. pure-Gives _ _ rest3 (omega arith))
        (pure-Gives _ _ rest l)
