-- ===== src/Llvm.antt =====
-- What the compiler uses of LLVM, which is not part of the repository: the library is a parameter.
-- `World` is everything that LLVM's objects and the `IRBuilder` hold; a `nullptr` is `none`.
use th_lang.Base.{ℕ, String, Bool, Option, List}
use th_lang.Base.Int.{ℤ}

-- The two-operand instructions of `IRBuilder` that the compiler calls.
pub data Binary : Type 0 where
  add fadd sub fsub mul fmul sdiv fdiv : Binary
  and_ or_ xor_ shl ashr : Binary
  icmp_ult icmp_sle icmp_sge icmp_sgt icmp_eq icmp_ne : Binary

-- One call of a `Create…` method of the `IRBuilder`, with its arguments.
pub data Inst (Value LType Block Func : Type 0) : Type 0 where
  global_string : List ℕ → Inst Value LType Block Func
  load : LType → Value → Inst Value LType Block Func
  store : Value → Value → Inst Value LType Block Func
  alloca : LType → String → Inst Value LType Block Func
  binary : Binary → Value → Value → String → Inst Value LType Block Func
  int_cast : Value → LType → Bool → Inst Value LType Block Func
  call : Func → List Value → String → Inst Value LType Block Func
  br : Block → Inst Value LType Block Func
  cond_br : Value → Block → Block → Inst Value LType Block Func
  ret : Option Value → Inst Value LType Block Func
  ret_void : Inst Value LType Block Func

pub record Llvm : Type 1 where
  pub World : Type 0
  pub Value : Type 0
  pub LType : Type 0
  pub Block : Type 0
  pub Func : Type 0
  -- `Type::getIntNTy`, `getFloatTy`, `getDoubleTy`, `getVoidTy`, `PointerType::get`,
  -- `FunctionType::get`, and `StructType::create`, which makes a new type at each call.
  pub int_ty : ℕ → LType
  pub float_ty : LType
  pub double_ty : LType
  pub void_ty : LType
  pub pointer_ty : LType → LType
  -- `FunctionType::get` of an LLVM built without assertions, which makes a type of `void` parameters
  -- too; only the verifier refuses such a type.
  pub function_ty : LType → List LType → LType
  pub create_struct : String → List LType → World → LType × World
  pub same_type : LType → LType → Bool
  pub is_floating : LType → Bool
  -- `ConstantInt::get(type, value, isSigned)`; `ConstantFP::get` of a double's bit pattern.
  pub const_int : LType → ℤ → Bool → Value
  pub const_fp : LType → ℕ → Value
  pub type_of : Value → LType
  -- The builder.
  -- Whether an instruction takes operands of these types; LLVM's behaviour is undefined otherwise.
  pub takes : Binary → LType → LType → Bool
  pub create : Inst Value LType Block Func → World → Value × World
  pub insert_block : World → Option Block
  pub set_insert_point : Block → World → World
  -- Basic blocks.
  pub create_block : String → Option Func → World → Block × World
  pub insert_into : Block → Func → World → World
  pub parent : Block → World → Option Func
  pub has_terminator : Block → World → Bool
  -- Functions; `as_function` is `dyn_cast<Function>`.
  pub get_function : String → World → Option Func
  pub create_function : LType → String → World → Func × World
  pub function_value : Func → Value
  pub as_function : Value → Option Func
  pub arg_size : Func → ℕ
  pub function_args : Func → List Value
  pub set_name : Value → String → World → World
  pub get_name : Value → World → String
  -- What an uninitialised `Value*` variable reads as.
  pub indeterminate : Option Value
