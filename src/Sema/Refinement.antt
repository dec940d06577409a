-- ===== src/Sema/Refinement.antt =====
-- Whole sequences of scope operations, as a walk over nested blocks makes them.
use th_lang.Base.{String, ◌≡◌, refl, ap, ◌∙◌, some, List, [], ◌∷◌, ◌++◌, arith, eq_iff}
use th_lang.Base.Dict.{lookup, lookup-insert}
use th_lang.Sema.{
  Symbol, Scope, ScopeStack, scope_add_symbol, add_symbol, lookup_symbol, enter_scope, exit_scope,
}

pub data Action (V : Type 0) : Type 0 where
  enter : Action V
  exit : Action V
  declare : Symbol V → Action V

module _ {V : Type 0} where
  unfoldable pub perform : Action V → ScopeStack V → ScopeStack V
  unfolding enter_scope exit_scope add_symbol
  perform enter st = enter_scope st
  perform exit st = exit_scope st
  perform (declare s) st = (add_symbol s st).1

  unfoldable pub run : List (Action V) → ScopeStack V → ScopeStack V
  run [] st = st
  run (a ∷ xs) st = run xs (perform a st)

-- What a block does in its own scope: declarations, and whole inner blocks.
pub data Body (V : Type 0) : List (Action V) → Type 0 where
  done : Body V []
  then_declare : (s : Symbol V) {xs : List (Action V)} → Body V xs → Body V (declare s ∷ xs)
  then_block : {xs ys : List (Action V)} → Body V xs → Body V ys → Body V (enter ∷ xs ++ exit ∷ ys)

module _ {V : Type 0} where
  run-append :
      (xs ys : List (Action V)) (st : ScopeStack V) → run (xs ++ ys) st ≡ run ys (run xs st)
  unfolding run
  run-append [] ys st = refl
  run-append (a ∷ xs) ys st = run-append xs ys (perform a st)

  -- The bindings of a scope are still there, unchanged.
  abbrev pub Keeps : Scope V → Scope V → Type 0
  Keeps s s' = (k : String) (v : Symbol V) → lookup k s ≡ some v → lookup k s' ≡ some v

  scope_add_symbol-Keeps : (v : Symbol V) (s : Scope V) → Keeps s (scope_add_symbol v s).1
  unfolding scope_add_symbol
  scope_add_symbol-Keeps v s k u h = ground (arith, h, lookup-insert v.name k v s, eq_iff v.name k)

  -- A body changes only the innermost scope, and there only adds names.
  pub Body-run :
      {xs : List (Action V)}
      → Body V xs
      → (s : Scope V) (outer : ScopeStack V)
      → (s' : Scope V) × (run xs (s ∷ outer) ≡ s' ∷ outer) × Keeps s s'
  unfolding run perform
  Body-run done s outer = (s, refl, λ k v h. h)
  Body-run (then_declare d b) s outer =
      let (s', e, keeps) = Body-run b (scope_add_symbol d s).1 outer in
      (s', e, λ k v h. keeps k v (scope_add_symbol-Keeps d s k v h))
  Body-run (then_block {xs} {ys} a b) s outer =
      let (i, e, _) = Body-run a [] (s ∷ outer) in
      let (s', e', keeps) = Body-run b s outer in
      (s', run-append xs (exit ∷ ys) ([] ∷ s ∷ outer) ∙ ap (run (exit ∷ ys)) e ∙ e', keeps)

  -- Entering a scope, walking a block and leaving the scope restores the stack.
  pub block_restores :
      {xs : List (Action V)}
      → Body V xs
      → (st : ScopeStack V) → run (enter ∷ xs ++ exit ∷ []) st ≡ st
  unfolding run perform
  block_restores {xs} b st =
      let (i, e, _) = Body-run b [] st in
      run-append xs (exit ∷ []) ([] ∷ st) ∙ ap (run (exit ∷ [])) e

  -- A name that the innermost scope declares keeps its symbol through the rest of the block.
  pub lookup_symbol-run :
      {xs : List (Action V)}
      → Body V xs
      → (k : String) (v : Symbol V) (s : Scope V) (outer : ScopeStack V) → lookup k s ≡ some v
      → lookup_symbol k (run xs (s ∷ outer)) ≡ some v
  unfolding lookup_symbol
  lookup_symbol-run b k v s outer h =
      let (s', e, keeps) = Body-run b s outer in rw e (ground (arith, keeps k v h))
