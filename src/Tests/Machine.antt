-- ===== src/Tests/Machine.antt =====
-- A recording instance of the LLVM interface: blocks, functions and values are numbers, and every
-- instruction is logged with the block it goes to. A type is its width, or a number from 1000 on.
use th_lang.Base.{
  ℕ, suc, ◌+◌, String, ◌≡◌, refl, ◌==◌, str_eq, Bool, true, false, ◌&&◌, ◌||◌, Option, none, some,
  List, [], ◌∷◌, ◌++◌, arith, length, if◌then◌else◌,
}
use th_lang.Base.Int.{ℤ, pos, negsuc}
use th_lang.Llvm.{
  Llvm, Binary, icmp_ult, icmp_sle, icmp_sge, icmp_sgt, icmp_eq, icmp_ne, Inst, load, binary,
  int_cast, call, br, cond_br, ret, ret_void,
}
use th_lang.Parser.Actions.{CLibrary}
use th_lang.Codegen.Gen.Loop.{IsBuilder}

-- A number for the value, and its type.
abbrev pub Val : Type 0
Val = ℕ × ℕ

abbrev pub Instruction : Type 0
Instruction = Inst Val ℕ ℕ ℕ

pub record Trace : Type 0 where
  pub log : List (ℕ × Instruction)
  pub current : Option ℕ
  pub values : ℕ
  pub blocks : ℕ
  pub functions : List String

abbrev binary_type : Binary → ℕ → ℕ
binary_type icmp_ult t = 1
binary_type icmp_sle t = 1
binary_type icmp_sge t = 1
binary_type icmp_sgt t = 1
binary_type icmp_eq t = 1
binary_type icmp_ne t = 1
binary_type _ t = t

abbrev result_type : Instruction → ℕ
result_type (load t v) = t
result_type (binary i l r s) = binary_type i l.1
result_type (int_cast v t b) = t
result_type (call f vs s) = 32
result_type _ = 1003

abbrev is_terminator : Instruction → Bool
is_terminator (br b) = true
is_terminator (cond_br v b b') = true
is_terminator (ret v) = true
is_terminator ret_void = true
is_terminator _ = false

abbrev append_to : Option ℕ → Instruction → List (ℕ × Instruction) → List (ℕ × Instruction)
append_to none i log = log
append_to (some b) i log = (b, i) ∷ log

abbrev terminated : ℕ → List (ℕ × Instruction) → Bool
terminated b [] = false
terminated b ((b', i) ∷ log) = ((b == b') && is_terminator i) || terminated b log

abbrev find_function : String → ℕ → List String → Option ℕ
find_function s n [] = none
find_function s n (f ∷ fs) = if str_eq s f then some n else find_function s (suc n) fs

abbrev constant : ℤ → ℕ
constant (pos n) = n
constant (negsuc n) = 0

abbrev pub machine : Llvm
machine = record {
  World = Trace;
  Value = Val;
  LType = ℕ;
  Block = ℕ;
  Func = ℕ;
  int_ty = λ n. n;
  float_ty = 1000;
  double_ty = 1001;
  void_ty = 1002;
  pointer_ty = λ t. 1003;
  function_ty = λ r args. 1004;
  create_struct = λ s ts w. (1005, w);
  same_type = λ a b. a == b;
  is_floating = λ t. (t == 1000) || (t == 1001);
  const_int = λ t n signed. (constant n, t);
  const_fp = λ t bits. (bits, t);
  type_of = λ v. v.1;
  takes = λ i a b. a == b;
  create = λ i w. (
    (w.values, result_type i),
    record w { log = append_to w.current i w.log; values = w.values + 1 },
  );
  insert_block = λ w. w.current;
  set_insert_point = λ b w. record w { current = some b };
  create_block = λ s f w. (w.blocks, record w { blocks = w.blocks + 1 });
  insert_into = λ b f w. w;
  parent = λ b w. some 0;
  has_terminator = λ b w. terminated b w.log;
  get_function = λ s w. find_function s 0 w.functions;
  create_function = λ t s w. (length w.functions, record w { functions = w.functions ++ s ∷ [] });
  function_value = λ f. (f, 1003);
  as_function = λ v. some v.0;
  arg_size = λ f. 0;
  function_args = λ f. [];
  set_name = λ v s w. w;
  get_name = λ v w. "";
  indeterminate = none;
}

abbrev pub blank : Trace
blank = record { log = []; current = none; values = 0; blocks = 0; functions = [] }

machine-terminator :
    (b : ℕ) (w : Trace)
    → w.current ≡ some b
    → terminated b (append_to w.current ret_void w.log) ≡ true
machine-terminator b w h = rw h (ground arith)

pub machine-IsBuilder : IsBuilder machine
machine-IsBuilder = record {
  insert_block-set = λ b w. refl;
  insert_block-create = λ i w. refl;
  terminator-ret_void = machine-terminator;
}

-- Every number is 1.
abbrev pub toy_library : CLibrary
toy_library = record { utf8 = λ s. 34 ∷ 34 ∷ []; atol = λ s. some (pos 1); stod = λ s. some 0 }
