-- ===== src/Bootstrap/Token.antt =====
-- bootstrap/pasboot.h: tokens, locations and errors. bootstrap/lex.c: `punct_text`.
use native_pascal.Prelude.{ℕ, [], ◌∷◌, ◌≡◌, refl}
use native_pascal.Prelude.Memory.{Bytes}

pub record Loc : Type 0 where
  pub file : Bytes
  pub line : ℕ

pub data Punct : Type 0 where
  lparen rparen lbrack rbrack comma semi colon : Punct
  becomes dot dotdot caret plus minus star slash : Punct
  eq ne lt le gt ge : Punct

-- A token's kind with what it carries. A real constant has the value that `strtod` gives it.
pub data Tok (R : Type 0) : Type 0 where
  eof : Tok R
  ident : (text orig : Bytes) → Tok R
  int : ℕ → Tok R
  real : R → Tok R
  str : Bytes → Tok R
  char : ℕ → Tok R
  punct : Punct → Tok R

pub record Token (R : Type 0) : Type 0 where
  pub tok : Tok R
  pub loc : Loc

-- The messages of `fatal` and `unsupported` in lex.c.
pub data Reason : Type 0 where
  unterminated_comment malformed_mathck malformed_include include_too_deep : Reason
  bad_radix exceeds_integer64 unterminated_string : Reason
  unsupported_metacommand : Bytes → Reason
  unexpected_character : ℕ → Reason
  cannot_open : Bytes → Reason

abbrev pub punct_text : Punct → Bytes
punct_text lparen = b'(' ∷ []
punct_text rparen = b')' ∷ []
punct_text lbrack = b'[' ∷ []
punct_text rbrack = b']' ∷ []
punct_text comma = b',' ∷ []
punct_text semi = b';' ∷ []
punct_text colon = b':' ∷ []
punct_text becomes = b':' ∷ b'=' ∷ []
punct_text dot = b'.' ∷ []
punct_text dotdot = b'.' ∷ b'.' ∷ []
punct_text caret = b'^' ∷ []
punct_text plus = b'+' ∷ []
punct_text minus = b'-' ∷ []
punct_text star = b'*' ∷ []
punct_text slash = b'/' ∷ []
punct_text eq = b'=' ∷ []
punct_text ne = b'<' ∷ b'>' ∷ []
punct_text lt = b'<' ∷ []
punct_text le = b'<' ∷ b'=' ∷ []
punct_text gt = b'>' ∷ []
punct_text ge = b'>' ∷ b'=' ∷ []

pub data Result {ℓ} (A : Type ℓ) : Type ℓ where
  ok : A → Result A
  err : Reason → Result A

infixl 5 ◌>>=◌
abbrev pub ◌>>=◌ : {A B : Type 0} → Result A → (A → Result B) → Result B
err reason >>= second = err reason
ok between >>= second = second between

-- A chain that succeeds has a first part that does, with a value from which the second succeeds.
pub >>=-eq-ok :
    {A B : Type 0} (first : Result A) (second : A → Result B) {last : B}
    → first >>= second ≡ ok last
    → (between : A) × (first ≡ ok between) × (second between ≡ ok last)
>>=-eq-ok (err reason) second failed = absurd (cc)
>>=-eq-ok (ok between) second succeeds = (between, refl, succeeds)
