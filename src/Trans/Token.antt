-- ===== src/Trans/Token.antt =====
-- Token kinds and the token record (trans/src/token.rs), and positioned errors (trans/src/error.rs).
-- A text is the bytes of its UTF-8 form.
use u_flux.Prelude.{ℕ, Bool, true, false, ◌&&◌, List, [], ◌∷◌, Text, codes, text_eq}

pub data Kind : Type 0 where
  int ident str char punct eof : Kind

abbrev pub kind_eq : Kind → Kind → Bool
kind_eq int int = true
kind_eq ident ident = true
kind_eq str str = true
kind_eq char char = true
kind_eq punct punct = true
kind_eq eof eof = true
kind_eq _ _ = false

pub record Token : Type 0 where
  pub kind : Kind
  pub text : Text
  pub line : ℕ
  pub col : ℕ

unfoldable pub is_punct : Token → Text → Bool
unfolding text_eq
is_punct t s = kind_eq t.kind punct && text_eq t.text s

unfoldable pub is_ident : Token → Text → Bool
unfolding text_eq
is_ident t s = kind_eq t.kind ident && text_eq t.text s

-- `matches!(text, a | b | ...)`
unfoldable pub one_of : List Text → Text → Bool
unfolding text_eq
one_of [] s = false
one_of (w ∷ ws) s = elim (text_eq s w) [ true ↦ true | false ↦ one_of ws s ]

abbrev pub type_words : List Text
type_words =
    codes "int"
    ∷ codes "char"
    ∷ codes "void"
    ∷ codes "long"
    ∷ codes "short"
    ∷ codes "unsigned"
    ∷ codes "signed"
    ∷ codes "const"
    ∷ codes "static"
    ∷ []

unfoldable pub is_type_word : Token → Bool
unfolding one_of
is_type_word t = kind_eq t.kind ident && one_of type_words t.text

abbrev pub multi_punct : List Text
multi_punct =
    codes "<<="
    ∷ codes ">>="
    ∷ codes "=="
    ∷ codes "!="
    ∷ codes "<="
    ∷ codes ">="
    ∷ codes "&&"
    ∷ codes "||"
    ∷ codes "++"
    ∷ codes "--"
    ∷ codes "+="
    ∷ codes "-="
    ∷ codes "*="
    ∷ codes "/="
    ∷ codes "%="
    ∷ codes "<<"
    ∷ codes ">>"
    ∷ []

pub record Error : Type 0 where
  pub line : ℕ
  pub col : ℕ
  pub msg : Text

-- `fuel` is the model's own: a loop that has used up its fuel.
pub data Failure : Type 0 where
  failed : Error → Failure
  fuel : Failure

abbrev pub error_at : ℕ → ℕ → Text → Failure
error_at l c msg = failed (record { line = l; col = c; msg = msg })
