-- ===== src/Query/Syntax.antt =====
-- src/query/parser.rs and src/error.rs: query trees, tokens, errors, and the outcome of a run.
use ripindex.Common.{
  arith, ℕ, ◌+◌, ◌<◌, ◌≡◌, ◌≢◌, Bool, true, false, ◌&&◌, List, [], ◌∷◌, ◌==◌, if◌then◌else◌, refl,
  ltb,
}
use mathlib.Core.Path.{subst}

-- A string, as its code points.
abbrev pub Text : Type 0
Text = List ℕ

-- A vector of nodes is `Nodes`.
mutual
  pub data Node : Type 0 where
    term : Text → Node
    phrase : List Text → Node
    and : Nodes → Nodes → Node
    or : Nodes → Node

  pub data Nodes : Type 0 where
    nil : Nodes
    cons : Node → Nodes → Nodes

pub data Tok : Type 0 where
  word : Text → Tok
  phrase : Text → Tok
  and or minus lparen rparen : Tok

-- Tokens with their byte offsets.
abbrev pub Toks : Type 0
Toks = List (ℕ × Tok)

pub data QueryError : Type 0 where
  empty : QueryError
  unexpected : Text → ℕ → QueryError
  unterminated_phrase : ℕ → QueryError
  unbalanced_paren : ℕ → QueryError
  only_negation : QueryError

-- `out_of_fuel` has no counterpart in the program.
pub data Outcome {ℓ} (A : Type ℓ) : Type ℓ where
  ok : A → Outcome A
  err : QueryError → Outcome A
  out_of_fuel : Outcome A

infixl 5 ◌>>=◌
abbrev pub ◌>>=◌ {ℓ κ} : {A : Type ℓ} {B : Type κ} → Outcome A → (A → Outcome B) → Outcome B
ok a >>= f = f a
err e >>= f = err e
out_of_fuel >>= f = out_of_fuel

unfoldable pub text_eq : Text → Text → Bool
text_eq [] [] = true
text_eq [] (y ∷ ys) = false
text_eq (x ∷ xs) [] = false
text_eq (x ∷ xs) (y ∷ ys) = (x == y) && text_eq xs ys

pub text_eq_sound : (t u : Text) → text_eq t u ≡ true → t ≡ u
unfolding text_eq
text_eq_sound [] [] h = refl
text_eq_sound [] (y ∷ ys) h = cc
text_eq_sound (x ∷ xs) [] h = cc
text_eq_sound (x ∷ xs) (y ∷ ys) h = ground (arith, text_eq_sound xs ys)

pub text_eq_refl : (t : Text) → text_eq t t ≡ true
unfolding text_eq
text_eq_refl [] = refl
text_eq_refl (x ∷ xs) = ground (arith, text_eq_refl xs)

-- `char::len_utf8`
unfoldable pub len_utf8 : ℕ → ℕ
len_utf8 c = if ltb c 0x80 then 1 else if ltb c 0x800 then 2 else if ltb c 0x1_0000 then 3 else 4

unfoldable pub byte_len : Text → ℕ
byte_len [] = 0
byte_len (c ∷ cs) = len_utf8 c + byte_len cs

-- The offset that an error names, if it names one, is below `n`.
abbrev pub Within : ℕ → QueryError → Type 0
Within n empty = Unit
Within n (unexpected found at) = at < n
Within n (unterminated_phrase at) = at < n
Within n (unbalanced_paren at) = at < n
Within n only_negation = Unit

-- The run kept within its fuel; its value, if it has one, satisfies `P`, and else its error names
-- an offset below `n`.
pub data Ensures {ℓ κ} {A : Type ℓ} (n : ℕ) (P : A → Type κ) : Outcome A → Type (ℓ ⊔ κ) where
  holds : {a : A} → P a → Ensures n P (ok a)
  rejected : {e : QueryError} → Within n e → Ensures n P (err e)

module _ {ℓ κ} {A : Type ℓ} {n : ℕ} {P : A → Type κ} where
  pub Ensures-bind {ℓ' κ'} :
      {B : Type ℓ'} {Q : B → Type κ'} {r : Outcome A} {f : A → Outcome B}
      → Ensures n P r
      → ((a : A) → P a → Ensures n Q (f a))
      → Ensures n Q (r >>= f)
  Ensures-bind (holds {a} h) k = k a h
  Ensures-bind (rejected w) k = rejected w

  pub Ensures-ok : {r : Outcome A} {a : A} → Ensures n P r → r ≡ ok a → P a
  Ensures-ok (holds h) e = subst P (cc) h
  Ensures-ok (rejected w) e = cc

  pub Ensures-err : {r : Outcome A} {x : QueryError} → Ensures n P r → r ≡ err x → Within n x
  Ensures-err (holds h) e = cc
  Ensures-err (rejected w) e = subst (Within n) (cc) w

  pub Ensures-ends : {r : Outcome A} → Ensures n P r → r ≢ out_of_fuel
  Ensures-ends (holds h) = cc
  Ensures-ends (rejected w) = cc

  pub Ensures-if :
      (b : Bool) {x y : Outcome A}
      → (b ≡ true → Ensures n P x)
      → (b ≡ false → Ensures n P y)
      → Ensures n P (if b then x else y)
  Ensures-if true hx hy = hx refl
  Ensures-if false hx hy = hy refl
