-- ===== src/Tests/Codegen.antt =====
-- Programs through the code generator, over the recording machine.
use th_lang.Base.{◌+◌, ◌≡◌, ◌≢◌, refl, true, false, Option, none, some, [], ◌∷◌, arith, length}
use th_lang.Base.Int.{pos}
use th_lang.Llvm.{global_string}
use th_lang.TypeSystem.{new_type_system, type_name}
use th_lang.Ast.{
  Node, int, string, name, binop, assign, expr_stmt, if_stmt, while_stmt, return_stmt,
  function_stmt, block, Nodes, nil, cons, null, just, no_vars,
}
use th_lang.Codegen.Context.{Context, CodegenBlock, find_value}
use th_lang.Codegen.Expr.{
  int_code, float_code, string_code, bool_code, name_code, unop_code, instruction, emit_binary,
  operate, binop_code, assign_code, call_code,
}
use th_lang.Codegen.Stmt.{
  var_code, if_code, for_body, for_code, finish_loop, while_body, while_code, return_code,
}
use th_lang.Codegen.Func.{
  declare_function, complete_function, function_code, var_types, define_function, publish_function,
}
use th_lang.Codegen.Gen.{codegen, args_code, count}
use th_lang.Codegen.Gen.Null.{codegen-else_ignored, ends_block, ends_if, last, later}
use th_lang.Codegen.Gen.Frame.{codegen-frame, expr_binop, expr_name, expr_int}
use th_lang.Codegen.Gen.Balance.{
  codegen-balanced, IsPlain, plain_expr, plain_assign, plain_binop, plain_name, plain_int,
  plain_while, plain_block, plain_cons, plain_nil, plain_return, plain_just,
}
use th_lang.Codegen.Gen.Balance.Rules.{innermost, with_innermost}
use th_lang.Codegen.Gen.Loop.{codegen-loop_closed, is_closed, is_while}
use th_lang.Codegen.Gen.Leak.{codegen-program_leak, definition, no_definitions}
use th_lang.Codegen.Gen.Text.{codegen-string_again, text_code, trimmed}
use th_lang.TypeSystem.Lowering.{get_llvm_type, base_llvm_type}
use th_lang.Tests.Machine.{machine, blank, machine-IsBuilder, toy_library}
use th_lang.Parser.Tree.{by_arith, plus, variable, num}
use th_lang.Parser.Actions.{ParseState, build_expr, arith_text}
use th_lang.Parser.Shape.{codegen-build_expr}

-- A block is open, with the variable `a` of type "整数型" at address 7.
abbrev scope : CodegenBlock machine
scope = record { block = 0; locals = ("a", (1, (7, 1003))) ∷ [] }

abbrev start : Context machine
start = record {
  world = record blank { current = some 0; blocks = 1 };
  blocks = scope ∷ [];
  objects = new_type_system.objects;
  texts = (34 ∷ 104 ∷ 105 ∷ 34 ∷ []) ∷ [];
  errors = [];
}

run_node : Node → Context machine → Option (Option machine.Value × Context machine)
unfolding codegen int_code float_code string_code bool_code name_code unop_code binop_code operate
    emit_binary instruction assign_code call_code var_code if_code for_code for_body while_code
    while_body finish_loop return_code function_code declare_function complete_function count
    args_code get_llvm_type base_llvm_type new_type_system find_value type_name var_types
    define_function publish_function
run_node n c = codegen machine n c

-- The state after a run that returned.
abbrev final : Option (Option machine.Value × Context machine) → Context machine
final none = start
final (some (v, c)) = c

abbrev sum : Node
sum = binop "+" (name "a") (int (pos 1))

abbrev bump : Node
bump = expr_stmt (assign (name "a") sum)

abbrev loop : Node
loop = while_stmt (binop "<" (name "a") (int (pos 9))) (block (cons bump nil))

abbrev inner : Node
inner = block (cons bump (cons (if_stmt (name "a") (block (cons bump nil)) null) nil))

abbrev entry : Node
entry =
    function_stmt 1 (name "f") no_vars (just (block (cons (return_stmt (just (int (pos 0)))) nil)))
      false

sum_runs : run_node sum start ≡ some (some (1, 32), final (run_node sum start))
unfolding run_node
sum_runs = refl

-- An operator without an instruction: a message, and no value.
modulo_fails :
    run_node (binop "%" (int (pos 5)) (int (pos 3))) start
    ≡ some (none, record start { errors = "符号不存在" ∷ [] })
unfolding run_node
modulo_fails = refl

-- A name without a value crashes.
unknown_name_crashes : run_node (name "b") start ≡ none
unfolding run_node
unknown_name_crashes = refl

-- An external function that comes first finds no block for its name.
external_first :
    run_node (function_stmt 1 (name "g") no_vars null true) (record start { blocks = [] }) ≡ none
unfolding run_node
external_first = refl

codegen-frame_example :
    ((final (run_node sum start)).blocks ≡ start.blocks)
    × ((final (run_node sum start)).objects ≡ start.objects)
unfolding run_node
codegen-frame_example =
    codegen-frame machine {n = sum} start (final (run_node sum start)) (some (1, 32))
      (expr_binop "+" (expr_name "a") (expr_int (pos 1))) refl

bump-IsPlain : IsPlain bump
bump-IsPlain =
    plain_expr (plain_assign (name "a") (plain_binop "+" (plain_name "a") (plain_int (pos 1))))

loop-IsPlain : IsPlain loop
loop-IsPlain =
    plain_while (plain_binop "<" (plain_name "a") (plain_int (pos 9)))
      (plain_block (plain_cons bump-IsPlain plain_nil))

codegen-balanced_example :
    let c = final (run_node loop start) in
    (c.blocks ≡ with_innermost machine (innermost machine c.blocks) start.blocks)
    × (c.objects ≡ start.objects)
unfolding run_node
codegen-balanced_example =
    codegen-balanced machine {n = loop} start (final (run_node loop start)) none loop-IsPlain refl

less-value :
    (d d' : Context machine)
    → codegen machine (binop "<" (int (pos 1)) (int (pos 9))) d ≢ some (none, d')
unfolding run_node
less-value d d' h = ground arith

abbrev spin : Node
spin = while_stmt (binop "<" (int (pos 1)) (int (pos 9))) (block (cons bump nil))

codegen-loop_closed_example : is_closed machine (final (run_node spin start)).world ≡ true
unfolding run_node
codegen-loop_closed_example =
    codegen-loop_closed machine machine-IsBuilder (binop "<" (int (pos 1)) (int (pos 9))) spin start
      (final (run_node spin start)) none (is_while (block (cons bump nil))) less-value refl

codegen-else_ignored_example :
    codegen machine (if_stmt (name "a") inner (just (block (cons bump nil)))) start
    ≡ codegen machine (if_stmt (name "a") inner null) start
codegen-else_ignored_example =
    codegen-else_ignored machine (name "a") inner (just (block (cons bump nil))) null start
      (ends_block (later (last (ends_if (name "a") (block (cons bump nil)) null))))

abbrev program : Nodes
program = cons entry (cons entry nil)

entry-IsPlain : IsPlain (block (cons (return_stmt (just (int (pos 0)))) nil))
entry-IsPlain = plain_block (plain_cons (plain_return (plain_just (plain_int (pos 0)))) plain_nil)

codegen-program_leak_example :
    length (final (run_node (block program) start)).blocks ≡ count program + 1
unfolding run_node
codegen-program_leak_example =
    codegen-program_leak machine {ns = program} start (final (run_node (block program) start))
      (some (1, 1003))
      (definition 1 (name "f") no_vars entry-IsPlain
        (definition 1 (name "f") no_vars entry-IsPlain no_definitions))
      refl

abbrev after_text : Context machine
after_text = record start {
  world = record (start.world) { log = (0, global_string (104 ∷ 105 ∷ [])) ∷ []; values = 1 };
  texts = (104 ∷ 105 ∷ []) ∷ [];
}

codegen-string_again_example :
    (codegen machine (string 0) start ≡ some (some (0, 1003), after_text))
    × (codegen machine (string 0) after_text
        ≡ text_code machine 0 after_text (trimmed (104 ∷ 105 ∷ [])))
codegen-string_again_example = codegen-string_again machine 0 34 34 (104 ∷ 105 ∷ []) start refl

abbrev parse_start : ParseState
parse_start = record { types = new_type_system; texts = []; errors = [] }

codegen-build_expr_example :
    ((final (run_node sum start)).blocks ≡ start.blocks)
    × ((final (run_node sum start)).objects ≡ start.objects)
unfolding run_node build_expr arith_text
codegen-build_expr_example =
    codegen-build_expr toy_library machine (by_arith (variable "a") plus (num "1")) parse_start
      parse_start sum start (final (run_node sum start)) (some (1, 32)) refl refl
