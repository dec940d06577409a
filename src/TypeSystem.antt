-- ===== src/TypeSystem.antt =====
-- include/thlang/TypeSystem.h and src/TypeSystem.cpp: the compiler's own types and their table.
-- A `Type*` is an index into the store of the objects made by `new`; two pointers are equal if
-- their indices are. The lowering to LLVM's types is TypeSystem/Lowering.antt.
pub mod Laws
pub mod Lowering
use th_lang.Base.{
  ℕ, ◌+◌, ◌%◌, ◌^◌, String, ◌≡◌, Bool, true, false, ◌||◌, Option, none, some, List, [], ◌∷◌, ◌++◌,
  length, get_elem?, set, leb, Stateful, demand, ◌>>=◌, pure,
}
use th_lang.Base.Dict.{Dict, lookup, insert}

abbrev pub Ptr : Type 0
Ptr = ℕ

-- The class hierarchy `Type`, `FunctionType`, `ClassType`, with the fields each object has.
pub data ThType : Type 0 where
  base : String → Bool → ℕ → ThType
  function : Ptr → List Ptr → ThType
  class : String → Bool → ℕ → List (Ptr × String) → ThType

-- `get_type_name`: `FunctionType` passes "函数" to its base class.
unfoldable pub type_name : ThType → String
type_name (base name copy size) = name
type_name (function ret args) = "函数"
type_name (class name copy size members) = name

unfoldable pub implicit_copy : ThType → Bool
implicit_copy (base name copy size) = copy
implicit_copy (function ret args) = false
implicit_copy (class name copy size members) = copy

unfoldable pub type_size : ThType → ℕ
type_size (base name copy size) = size
type_size (function ret args) = 0
type_size (class name copy size members) = size

abbrev pub max_implicit_copy_size : ℕ
max_implicit_copy_size = 16

abbrev pub size_mod : ℕ
size_mod = 2 ^ 64

unfoldable pub should_implicit_copy : ThType → Bool
unfolding implicit_copy type_size
should_implicit_copy t = implicit_copy t || leb (type_size t) max_implicit_copy_size

-- The store of type objects, the table, and the static `empty_type_ptr`.
pub record TypeSystem : Type 0 where
  pub objects : List ThType
  pub type_map : Dict Ptr
  pub empty_type_ptr : Ptr

-- `Type::create`, `FunctionType::get`: `new`.
unfoldable pub create : ThType → TypeSystem → Ptr × TypeSystem
create t ts = (length ts.objects, record ts { objects = ts.objects ++ t ∷ [] })

unfoldable pub add_type : String → Ptr → TypeSystem → TypeSystem
add_type name p ts = record ts { type_map = insert name p ts.type_map }

unfoldable pub get_type : String → TypeSystem → Ptr
get_type name ts = elim (lookup name ts.type_map) [ some p ↦ p | none ↦ ts.empty_type_ptr ]

-- `add_type(name, Type::create(name, true, size))`
unfoldable pub register : String → ℕ → TypeSystem → TypeSystem
unfolding create add_type
register name size ts = let (p, ts') = create (base name true size) ts in add_type name p ts'

-- `DYNAMIC_SIZE`, -1 as a `size_t`.
abbrev pub dynamic_size : ℕ
dynamic_size = 18446744073709551615

-- The static `empty_type_ptr` is made before the global `type_System`.
abbrev statics : TypeSystem
statics = record { objects = base "空类型" true 0 ∷ []; type_map = []; empty_type_ptr = 0 }

-- The constructor.
unfoldable pub new_type_system : TypeSystem
unfolding register
new_type_system = register "空类型" 0 (
    register "文本型" dynamic_size (
      register "布尔型" 1 (
        register "双精度小数型" 8
          (register "小数型" 4 (register "短整数型" 2 (register "长整数型" 8 (register "整数型" 4 statics)))))))

-- `ClassType::add_member`; the size is a `size_t`. A crash stands for a pointer to no object, and
-- for a receiver that is no class.
unfoldable pub add_member : Ptr → Ptr → String → Stateful TypeSystem (Unit {0})
unfolding type_size
add_member c p name ts = elim (get_elem? ts.objects c) [
  | some (class n copy size members) ↦ elim (get_elem? ts.objects p) [
    | some t ↦ some (
      tt,
      record ts {
        objects =
            set ts.objects c
              (class n copy ((size + type_size t) % size_mod) (members ++ (p, name) ∷ []));
      },
    )
    | none ↦ none
  ]
  | _ ↦ none
]
