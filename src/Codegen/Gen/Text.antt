-- ===== src/Codegen/Gen/Text.antt =====
-- The quotes of string literals, at the first generation and at the next.
use th_lang.Base.{
  zero, suc, length, Option, ℕ, ◌≡◌, refl, none, some, List, [], ◌∷◌, ◌++◌, arith, get_elem?,
  get_elem?-lt, get_elem?-set_self, set,
}
use th_lang.Llvm.{Llvm, global_string}
use th_lang.Ast.{string}
use th_lang.Codegen.Context.{Context}
use th_lang.Codegen.Expr.{strip_quotes, pop_back, string_code}
use th_lang.Codegen.Gen.{codegen}

pop_back-append : (xs : List ℕ) (x : ℕ) → pop_back (xs ++ x ∷ []) ≡ some xs
unfolding pop_back
pop_back-append [] x = refl
pop_back-append (y ∷ []) x = refl
pop_back-append (y ∷ z ∷ xs) x = ground (arith, pop_back-append (z ∷ xs) x)

pub strip_quotes-append :
    (open_ close : ℕ) (content : List ℕ)
    → strip_quotes (open_ ∷ content ++ close ∷ []) ≡ some content
unfolding strip_quotes
strip_quotes-append open_ close content = pop_back-append content close

-- The first elements.
abbrev first : ℕ → List ℕ → List ℕ
first zero xs = []
first (suc n) [] = []
first (suc n) (x ∷ xs) = x ∷ first n xs

-- A text without its first and its last byte, where it has two.
pub trimmed : List ℕ → Option (List ℕ)
trimmed [] = none
trimmed (x ∷ []) = none
trimmed (x ∷ y ∷ rest) = some (first (length rest) (y ∷ rest))

pop_back-first : (x : ℕ) (xs : List ℕ) → pop_back (x ∷ xs) ≡ some (first (length xs) (x ∷ xs))
unfolding pop_back
pop_back-first x [] = refl
pop_back-first x (y ∷ xs) = ground (arith, pop_back-first y xs)

strip_quotes-trimmed : (content : List ℕ) → strip_quotes content ≡ trimmed content
unfolding strip_quotes trimmed
strip_quotes-trimmed [] = refl
strip_quotes-trimmed (x ∷ []) = refl
strip_quotes-trimmed (x ∷ y ∷ rest) = pop_back-first y rest

-- What a literal's node makes of such a text: a crash, or a global and the new text of the node.
pub text_code : (L : Llvm) → ℕ → Context L → Option (List ℕ) → Option (Option L.Value × Context L)
text_code L p c none = none
text_code L p c (some text) =
    let made = L.create (global_string text) c.world in
    some (some made.0, record c { world = made.1; texts = set c.texts p text })

module _ (L : Llvm) where
  -- Generating a quoted literal makes a global of its content, and leaves the node without its
  -- quotes. Generating the same node again, as a `while` does with its condition, makes a global of
  -- the content without its first and last byte, and crashes where it has fewer than two bytes.
  pub codegen-string_again :
      (p open_ close : ℕ) (content : List ℕ) (c : Context L)
      → get_elem? c.texts p ≡ some (open_ ∷ content ++ close ∷ [])
      → let made = L.create (global_string content) c.world in
        let d = record c { world = made.1; texts = set c.texts p content } in
        (codegen L (string p) c ≡ some (some made.0, d))
        × (codegen L (string p) d ≡ text_code L p d (trimmed content))
  unfolding codegen string_code text_code
  codegen-string_again p open_ close content c h = ground (
    arith,
    strip_quotes-append open_ close content,
    strip_quotes-trimmed content,
    get_elem?-set_self c.texts p content,
    get_elem?-lt c.texts p h,
  )
