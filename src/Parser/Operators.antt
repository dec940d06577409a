-- ===== src/Parser/Operators.antt =====
-- The operators that the grammar accepts against those that `BinOpAst::codegen` knows.
use th_lang.Base.{◌≡◌, refl, ◌↔◌, Bool, true, false, none}
use th_lang.Codegen.Expr.{instruction}
use th_lang.Parser.Tree.{Op, equal, and, Arith, mod_}
use th_lang.Parser.Actions.{op_text, arith_text}

-- The operators of the grammar for which there is no instruction.
abbrev pub is_unknown_op : Op → Bool
is_unknown_op equal = true
is_unknown_op and = true
is_unknown_op _ = false

abbrev pub is_unknown_arith : Arith → Bool
is_unknown_arith mod_ = true
is_unknown_arith _ = false

op_instruction :
    (op : Op) (floating : Bool)
    → (instruction (op_text op) floating ≡ none) ↔ (is_unknown_op op ≡ true)
unfolding instruction op_text
op_instruction equal floating = (λ _. refl, λ _. refl)
op_instruction and floating = (λ _. refl, λ _. refl)
op_instruction _ floating = (λ h. cc, λ h. cc)

arith_instruction :
    (op : Arith) (floating : Bool)
    → (instruction (arith_text op) floating ≡ none) ↔ (is_unknown_arith op ≡ true)
unfolding instruction arith_text
arith_instruction mod_ floating = (λ _. refl, λ _. refl)
arith_instruction _ floating = (λ h. cc, λ h. cc)

-- Of the operators that the parser builds nodes for, exactly `=` (between expressions), `&&` and
-- `%` have no instruction, for integers and floating-point operands alike.
pub instruction-unknown :
    (op : Op) (a : Arith) (floating : Bool)
    → ((instruction (op_text op) floating ≡ none) ↔ (is_unknown_op op ≡ true))
      × ((instruction (arith_text a) floating ≡ none) ↔ (is_unknown_arith a ≡ true))
instruction-unknown op a floating = (op_instruction op floating, arith_instruction a floating)
