-- ===== src/Tests/Tables.antt =====
-- The type table, the scopes, the names of the blocks and the parser's operators at concrete inputs.
use th_lang.Base.{
  ℕ, zero, suc, ◌≡◌, ◌↔◌, refl, subst, true, false, none, some, List, [], ◌∷◌, ◌++◌, arith,
}
use th_lang.Base.Dict.{lookup}
use th_lang.TypeSystem.{
  ThType, base, function, class, get_type, register, new_type_system, add_member,
}
use th_lang.TypeSystem.Laws.{IsNamed, register-IsNamed, new_type_system-IsNamed}
use th_lang.TypeSystem.Lowering.{base_llvm_type, get_llvm_type}
use th_lang.TypeSystem.Lowering.Total.{IsOlder, IsOrdered, get_llvm_type-returns}
use th_lang.Sema.{Symbol, new_symbol, add_symbol, lookup_symbol}
use th_lang.Sema.Laws.{add_symbol-lookup_symbol}
use th_lang.Sema.Refinement.{
  Action, enter, exit, declare, run, Body, done, then_declare, then_block, block_restores,
  lookup_symbol-run,
}
use th_lang.Codegen.Context.{
  NamedValue, CodegenBlock, Context, find_value, set_innermost, set_outermost,
}
use th_lang.Codegen.Context.Laws.{find_value-set_innermost, find_value-set_outermost}
use th_lang.Codegen.Expr.{instruction}
use th_lang.Parser.Tree.{Types, token_int, type_id, func_list, one_type, more_types, and, mod_}
use th_lang.Parser.Actions.{build_types, ParseState, type_id_action, op_text, arith_text}
use th_lang.Parser.Operators.{is_unknown_op, is_unknown_arith, instruction-unknown}
use th_lang.Parser.Types.{type_id_action-silent}
use th_lang.TypeSystem.Lowering.Ordered.{IsSound, new_type_system-IsSound}
use th_lang.Parser.Lowered.{build_types-get_llvm_type}
use th_lang.Tests.Machine.{machine, blank}

register-IsNamed_example : IsNamed (register "字节型" 1 new_type_system)
register-IsNamed_example = register-IsNamed "字节型" 1 new_type_system new_type_system-IsNamed

-- "整数型", and a function from it to itself.
abbrev two_types : List ThType
two_types = base "整数型" true 4 ∷ function 0 (0 ∷ []) ∷ []

two_types-IsOrdered : IsOrdered machine two_types
unfolding base_llvm_type
two_types-IsOrdered zero t h =
    let e : base "整数型" true 4 ≡ t = ground (arith, h) in subst (IsOlder machine 0) e (32, refl)
two_types-IsOrdered (suc zero) t h =
    let e : function 0 (0 ∷ []) ≡ t = ground (arith, h) in
    subst (IsOlder machine 1) e (omega arith, (omega arith, tt))
two_types-IsOrdered (suc (suc p)) t h = absurd (ground (arith, h))

get_llvm_type-returns_example :
    (τ : ℕ) × (w : machine.World) × (get_llvm_type machine two_types 1 blank ≡ some (some τ, w))
get_llvm_type-returns_example =
    get_llvm_type-returns machine two_types 1 blank two_types-IsOrdered (omega arith)

abbrev answer : Symbol ℕ
answer = new_symbol "a" (base "整数型" true 4) false false

add_symbol-lookup_symbol_example :
    (((add_symbol answer ([] ∷ [])).0 ≡ true) ↔ (lookup {V = Symbol ℕ} "a" [] ≡ none))
    × (lookup_symbol "a" (add_symbol answer ([] ∷ [])).1 ≡ some answer)
unfolding add_symbol new_symbol
add_symbol-lookup_symbol_example = add_symbol-lookup_symbol answer "a" [] []

abbrev block_actions : List (Action ℕ)
block_actions = declare answer ∷ enter ∷ declare answer ∷ exit ∷ []

block_actions-Body : Body ℕ block_actions
block_actions-Body = then_declare answer (then_block (then_declare answer done) done)

block_restores_example : run (enter ∷ block_actions ++ exit ∷ []) ([] ∷ []) ≡ [] ∷ []
block_restores_example = block_restores block_actions-Body ([] ∷ [])

lookup_symbol-run_example :
    lookup_symbol "b" (run block_actions ((("b", answer) ∷ []) ∷ [])) ≡ some answer
lookup_symbol-run_example =
    lookup_symbol-run block_actions-Body "b" answer (("b", answer) ∷ []) [] refl

abbrev named : NamedValue machine
named = (1, (7, 1003))

abbrev empty_block : CodegenBlock machine
empty_block = record { block = 0; locals = [] }

find_value-set_innermost_example :
    (set_innermost machine "a" named [] ≡ none)
    × ((bs : List (CodegenBlock machine)) × (set_innermost machine "a" named (empty_block ∷ [])
          ≡ some bs)
        × (find_value machine "a" bs ≡ some named))
find_value-set_innermost_example = find_value-set_innermost machine "a" "a" named empty_block []

find_value-set_outermost_example :
    (bs : List (CodegenBlock machine)) × (set_outermost machine "a" named
        (empty_block ∷ empty_block ∷ [])
      ≡ some bs)
    × (find_value machine "a" bs ≡ some named)
unfolding find_value
find_value-set_outermost_example =
    find_value-set_outermost machine "a" "a" named (empty_block ∷ []) empty_block

instruction-unknown_example :
    ((instruction (op_text and) false ≡ none) ↔ (is_unknown_op and ≡ true))
    × ((instruction (arith_text mod_) false ≡ none) ↔ (is_unknown_arith mod_ ≡ true))
instruction-unknown_example = instruction-unknown and mod_ false

abbrev quiet : Context machine
quiet = record { world = blank; blocks = []; objects = []; texts = []; errors = [] }

abbrev parse_start : ParseState
parse_start = record { types = new_type_system; texts = []; errors = [] }

type_id_action-silent_example :
    type_id_action "无此型" parse_start ≡ some (get_type "无此型" new_type_system, parse_start)
unfolding new_type_system
type_id_action-silent_example =
    type_id_action-silent "无此型" parse_start 8 new_type_system-IsNamed refl

-- A member of four bytes makes a class of four bytes one of eight.
class_size :
    add_member 0 1 "x" (record {
      objects = class "点" false 4 [] ∷ base "整数型" true 4 ∷ [];
      type_map = [];
      empty_type_ptr = 1;
    })
    ≡ some (
      tt,
      record {
        objects = class "点" false 8 ((1, "x") ∷ []) ∷ base "整数型" true 4 ∷ [];
        type_map = [];
        empty_type_ptr = 1;
      },
    )
unfolding add_member
class_size = refl

-- (整数型)(文本型, 整数型)
abbrev pointer_type : Types
pointer_type = func_list token_int (more_types (one_type (type_id "文本型")) token_int)

build_types-get_llvm_type_example :
    (p : ℕ) × (st : ParseState) × (build_types pointer_type parse_start ≡ some (p, st))
    × IsSound machine st.types
    × ((τ : ℕ) × (w : machine.World) × (get_llvm_type machine st.types.objects p blank
          ≡ some (some τ, w)))
build_types-get_llvm_type_example =
    build_types-get_llvm_type machine pointer_type parse_start blank
      (new_type_system-IsSound machine)
