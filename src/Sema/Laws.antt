-- ===== src/Sema/Laws.antt =====
-- The scope operations against an environment: what a name means after each of them.
use th_lang.Base.{
  String, ◌≡◌, true, none, some, ◌∷◌, ◌&&◌, arith, str_eq, if◌then◌else◌, eq_iff, ◌↔◌,
}
use th_lang.Base.Dict.{lookup, lookup-insert}
use th_lang.Sema.{Symbol, Scope, ScopeStack, add_symbol, lookup_symbol}

module _ {V : Type 0} where
  -- A symbol is added to the innermost scope exactly when that lacks its name; then the name means
  -- that symbol, and otherwise nothing changes its meaning. No other name is touched.
  pub add_symbol-lookup_symbol :
      (s : Symbol V) (j : String) (scope : Scope V) (scopes : ScopeStack V)
      → (((add_symbol s (scope ∷ scopes)).0 ≡ true) ↔ (lookup s.name scope ≡ none))
        × (lookup_symbol j (add_symbol s (scope ∷ scopes)).1 ≡ (
            if (add_symbol s (scope ∷ scopes)).0 && str_eq s.name j
            then some s
            else lookup_symbol j (scope ∷ scopes)))
  unfolding lookup_symbol add_symbol
  add_symbol-lookup_symbol s j scope scopes = (
    ((λ h. ground arith), (λ h. ground arith)),
    ground (arith, lookup-insert s.name j s scope, eq_iff s.name j),
  )
