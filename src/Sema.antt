-- ===== src/Sema.antt =====
-- include/thlang/sema.h: symbols, scopes, the stack of scopes, and `Sema`'s scope operations. The
-- checks that `Sema` declares have no body: src/sema.cpp has them commented out.
pub mod Laws
pub mod Refinement
use th_lang.Base.{String, Bool, true, false, Option, none, some, List, [], ◌∷◌}
use th_lang.Base.Dict.{Dict, lookup, insert}
use th_lang.TypeSystem.{ThType}

-- The value of a `Symbol` starts out null.
pub record Symbol (V : Type 0) : Type 0 where
  pub name : String
  pub type : ThType
  pub is_function_arg : Bool
  pub is_class_member : Bool
  pub value : Option V

abbrev pub Scope : Type 0 → Type 0
Scope V = Dict (Symbol V)

-- A stack of scopes, the innermost (`scopes.back()`) first.
abbrev pub ScopeStack : Type 0 → Type 0
ScopeStack V = List (Scope V)

module _ {V : Type 0} where
  -- `Symbol(name, type, isFunctionArg, isClassMember)`
  unfoldable pub new_symbol : String → ThType → Bool → Bool → Symbol V
  new_symbol n t arg member = record {
    name = n;
    type = t;
    is_function_arg = arg;
    is_class_member = member;
    value = none;
  }

  -- `Scope::addSymbol`: false, and no change, if the name is there.
  unfoldable pub scope_add_symbol : Symbol V → Scope V → Bool × Scope V
  scope_add_symbol s scope = elim (lookup s.name scope) [
    | some old ↦ (false, scope)
    | none ↦ (true, insert s.name s scope)
  ]

  -- `Scope::lookupSymbol`
  unfoldable pub scope_lookup_symbol : String → Scope V → Option (Symbol V)
  scope_lookup_symbol name scope = lookup name scope

  unfoldable pub push_scope : ScopeStack V → ScopeStack V
  push_scope scopes = [] ∷ scopes

  unfoldable pub pop_scope : ScopeStack V → ScopeStack V
  pop_scope [] = []
  pop_scope (s ∷ scopes) = scopes

  -- `ScopeStack::addSymbol`
  unfoldable pub add_symbol : Symbol V → ScopeStack V → Bool × ScopeStack V
  unfolding scope_add_symbol
  add_symbol s [] = (false, [])
  add_symbol s (scope ∷ scopes) =
      let (added, scope') = scope_add_symbol s scope in (added, scope' ∷ scopes)

  -- `ScopeStack::lookupSymbol`: from the innermost scope outwards.
  unfoldable pub lookup_symbol : String → ScopeStack V → Option (Symbol V)
  unfolding scope_lookup_symbol
  lookup_symbol name [] = none
  lookup_symbol name (scope ∷ scopes) = elim (scope_lookup_symbol name scope) [
    | some s ↦ some s
    | none ↦ lookup_symbol name scopes
  ]

  -- `Sema`: its constructor enters the global scope.
  unfoldable pub new_sema : ScopeStack V
  unfolding push_scope
  new_sema = push_scope []

  -- `enterScope`, `exitScope`, `Sema::addSymbol` and `Sema::lookupSymbol` forward to the stack.
  unfoldable pub enter_scope : ScopeStack V → ScopeStack V
  unfolding push_scope
  enter_scope scopes = push_scope scopes

  unfoldable pub exit_scope : ScopeStack V → ScopeStack V
  unfolding pop_scope
  exit_scope scopes = pop_scope scopes
