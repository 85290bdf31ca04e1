-- ===== src/Bootstrap/Parser/RoundTrip.antt =====
-- bootstrap/parse.c reads what it should: results up to fuel, and the tests of the next token.
pub mod Levels
pub mod Opens
pub mod Operators
pub mod Atoms
pub mod Expressions
use native_pascal.Prelude.{ℕ, zero, suc, Bool, true, false, ◌≡◌, refl, subst, sym, if◌then◌else◌}
use native_pascal.Prelude.Memory.{Bytes}
use native_pascal.Bootstrap.Token.{Loc, Token, Punct}
use native_pascal.Bootstrap.Parser.{
  Tokens, end, token, Parsed, ok, exhausted, fatal, Parser, Test, pure, ◌>>=◌, ◌>>◌, cur, advance,
  here, take_token, test, at_word, at_punct, is_word, punct_tok, accept_word, accept_punct,
  expect_word, expect_punct, reject_if, Construct,
}

module _ {R : Type 0} where
  -- The result is this success, unless the fuel was too little.
  pub data Only {A : Type 0} (a : A) (rest : Tokens R) : Parsed R A → Type 0 where
    done : Only a rest (ok a rest)
    out : Only a rest exhausted

  pub Only-ok :
      {A : Type 0} {a : A} {rest : Tokens R} {r : Parsed R A}
      → Only a rest r
      → (r ≡ exhausted → ⊥)
      → r ≡ ok a rest
  Only-ok done h = refl
  Only-ok out h = absurd (h refl)

  pub pure-Only : {A : Type 0} (a : A) (ts : Tokens R) → Only a ts (pure a ts)
  unfolding pure
  pure-Only a ts = done

  module _ {A B : Type 0} {b : B} {rest : Tokens R} where
    bound-Only :
        {a : A} {mid : Tokens R} {r : Parsed R A} (f : A → Parser R B)
        → Only a mid r
        → Only b rest (f a mid)
        → Only b rest
            (elim r [ ok a rest ↦ f a rest | fatal loc m ↦ fatal loc m | exhausted ↦ exhausted ])
    bound-Only f done k = k
    bound-Only f out k = out

    pub >>=-Only :
        {a : A} {mid : Tokens R} (p : Parser R A) (f : A → Parser R B) (ts : Tokens R)
        → Only a mid (p ts)
        → Only b rest (f a mid)
        → Only b rest ((p >>= f) ts)
    unfolding ◌>>=◌
    >>=-Only p f ts h k = bound-Only f h k

  module _ {B : Type 0} {b : B} {rest : Tokens R} where
    pub if-Only :
        (t : Bool) (p q : Parser R B) (ts : Tokens R)
        → t ≡ false
        → Only b rest (q ts)
        → Only b rest ((if t then p else q) ts)
    if-Only t p q ts h k = subst (λ x. Only b rest ((if x then p else q) ts)) (sym h) k

    pub here-Only :
        (f : Loc → Parser R B) (ts : Tokens R)
        → Only b rest (f (cur ts).loc ts)
        → Only b rest ((here >>= f) ts)
    unfolding ◌>>=◌ here
    here-Only f ts k = k

    pub take_token-Only :
        (f : Token R → Parser R B) (ts : Tokens R)
        → Only b rest (f (cur ts) ts)
        → Only b rest ((take_token >>= f) ts)
    unfolding ◌>>=◌ take_token
    take_token-Only f ts k = k

    pub advance-Only :
        (f : Unit {0} → Parser R B) (x : Token R) (ts : Tokens R)
        → Only b rest (f tt ts)
        → Only b rest ((advance >>= f) (token x ts))
    unfolding ◌>>=◌ advance
    advance-Only f x ts k = k

  module _ {B : Type 0} {b : B} {rest : Tokens R} (f : Bool → Parser R B) where
    pub test-Only :
        (ts : Tokens R) (holds : Test R) {t : Bool}
        → holds ts ≡ t
        → Only b rest (f t ts)
        → Only b rest ((test holds >>= f) ts)
    unfolding ◌>>=◌ test
    test-Only ts holds h k = subst (λ x. Only b rest (f x ts)) (sym h) k

    pub at_word-Only :
        (ts : Tokens R) (w : Bytes) {t : Bool}
        → is_word (cur ts) w ≡ t
        → Only b rest (f t ts)
        → Only b rest ((at_word w >>= f) ts)
    unfolding at_word
    at_word-Only ts w h k = test-Only ts _ h k

    pub at_punct-Only :
        (ts : Tokens R) (p : Punct) {t : Bool}
        → punct_tok (cur ts).tok p ≡ t
        → Only b rest (f t ts)
        → Only b rest ((at_punct p >>= f) ts)
    unfolding at_punct
    at_punct-Only ts p h k = test-Only ts _ h k

    pub passes_word-Only :
        (x : Token R) (ts : Tokens R) (w : Bytes)
        → is_word x w ≡ true
        → Only b rest (f true ts)
        → Only b rest ((accept_word w >>= f) (token x ts))
    unfolding ◌>>=◌ test at_word accept_word advance pure
    passes_word-Only x ts w h k =
        subst
          (λ t. Only b rest (((if t then advance >> pure true else pure false) >>= f) (token x ts)))
          (sym h) k

    pub no_word-Only :
        (ts : Tokens R) (w : Bytes)
        → is_word (cur ts) w ≡ false
        → Only b rest (f false ts)
        → Only b rest ((accept_word w >>= f) ts)
    unfolding ◌>>=◌ test at_word accept_word advance pure
    no_word-Only ts w h k =
        subst (λ t. Only b rest (((if t then advance >> pure true else pure false) >>= f) ts))
          (sym h) k

    pub passes_punct-Only :
        (x : Token R) (ts : Tokens R) (p : Punct)
        → punct_tok x.tok p ≡ true
        → Only b rest (f true ts)
        → Only b rest ((accept_punct p >>= f) (token x ts))
    unfolding ◌>>=◌ test at_punct accept_punct advance pure
    passes_punct-Only x ts p h k =
        subst
          (λ t. Only b rest (((if t then advance >> pure true else pure false) >>= f) (token x ts)))
          (sym h) k

    pub no_punct-Only :
        (ts : Tokens R) (p : Punct)
        → punct_tok (cur ts).tok p ≡ false
        → Only b rest (f false ts)
        → Only b rest ((accept_punct p >>= f) ts)
    unfolding ◌>>=◌ test at_punct accept_punct advance pure
    no_punct-Only ts p h k =
        subst (λ t. Only b rest (((if t then advance >> pure true else pure false) >>= f) ts))
          (sym h) k

  pub at_word-false :
      (ts : Tokens R) (w : Bytes) → is_word (cur ts) w ≡ false → Only false ts (at_word w ts)
  unfolding at_word test
  at_word-false ts w h = subst (λ t. Only false ts (ok t ts)) (sym h) done

  pub at_punct-false :
      (ts : Tokens R) (p : Punct) → punct_tok (cur ts).tok p ≡ false → Only false ts (at_punct p ts)
  unfolding at_punct test
  at_punct-false ts p h = subst (λ t. Only false ts (ok t ts)) (sym h) done

  advanced-Only : (x : Token R) (ts : Tokens R) → Only tt ts (advance (token x ts))
  unfolding advance
  advanced-Only x ts = done

  pub expect_punct-Only :
      (x : Token R) (ts : Tokens R) (p : Punct)
      → punct_tok x.tok p ≡ true
      → Only tt ts (expect_punct p (token x ts))
  unfolding expect_punct
  expect_punct-Only x ts p h = at_punct-Only _ (token x ts) p h (advanced-Only x ts)

  pub reject_if-Only :
      (holds : Parser R Bool) (what : Construct) (ts : Tokens R)
      → Only false ts (holds ts)
      → Only tt ts (reject_if holds what ts)
  unfolding reject_if
  reject_if-Only holds what ts h = >>=-Only _ _ ts h (pure-Only tt ts)
