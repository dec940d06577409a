-- ===== src/Codegen/Context/Laws.antt =====
-- The names of the blocks as an environment: what a name means after `setvalue` and `setglobal`.
use th_lang.Base.{
  String, ◌≡◌, ◌≢◌, refl, none, some, List, [], ◌∷◌, ◌++◌, arith, length, str_eq, eq_iff,
  if◌then◌else◌, Option-cases, inl, inr,
}
use th_lang.Base.Dict.{lookup, lookup-insert}
use th_lang.Llvm.{Llvm}
use th_lang.Codegen.Context.{
  CodegenBlock, NamedValue, find_value, bind_local, set_innermost, set_outermost,
}

module _ (L : Llvm) where
  -- `setvalue` fails exactly where there is no block; else the name means the new value, and no
  -- other name changes its meaning.
  pub find_value-set_innermost :
      (k j : String) (v : NamedValue L) (b : CodegenBlock L) (blocks : List (CodegenBlock L))
      → (set_innermost L k v [] ≡ none)
        × ((bs : List (CodegenBlock L)) × (set_innermost L k v (b ∷ blocks) ≡ some bs)
            × (find_value L j bs ≡ (if str_eq k j then some v else find_value L j (b ∷ blocks))))
  unfolding set_innermost find_value
  find_value-set_innermost k j v b blocks =
      (refl, (bind_local L k v b ∷ blocks, refl, ground (arith, lookup-insert k j v b.locals)))

  find_value-bind_local :
      (s t : String) (v : NamedValue L) (b : CodegenBlock L) (bs : List (CodegenBlock L))
      → find_value L t (bind_local L s v b ∷ bs)
        ≡ (if str_eq s t then some v else find_value L t (b ∷ bs))
  unfolding bind_local find_value
  find_value-bind_local s t v b bs = ground (arith, lookup-insert s t v b.locals)

  pub find_value-bind_local_self :
      (s : String) (v : NamedValue L) (b : CodegenBlock L) (bs : List (CodegenBlock L))
      → find_value L s (bind_local L s v b ∷ bs) ≡ some v
  find_value-bind_local_self s v b bs = ground (arith, find_value-bind_local s s v b bs, eq_iff s s)

  pub find_value-bind_local_other :
      (s t : String) (v : NamedValue L) (b : CodegenBlock L) (bs : List (CodegenBlock L))
      → s ≢ t
      → find_value L t (bind_local L s v b ∷ bs) ≡ find_value L t (b ∷ bs)
  find_value-bind_local_other s t v b bs other =
      ground (arith, find_value-bind_local s t v b bs, eq_iff s t)

  -- What `setglobal` makes of a stack whose outermost block is `b`.
  set_outermost-append :
      (k : String) (v : NamedValue L) (inner : List (CodegenBlock L)) (b : CodegenBlock L)
      → set_outermost L k v (inner ++ b ∷ []) ≡ some (inner ++ bind_local L k v b ∷ [])
  unfolding set_outermost
  set_outermost-append k v [] b = refl
  set_outermost-append k v (a ∷ []) b = refl
  set_outermost-append k v (a ∷ a' ∷ inner) b =
      ground (arith, set_outermost-append k v (a' ∷ inner) b)

  find_value-append :
      (j : String) (inner : List (CodegenBlock L)) (b : CodegenBlock L)
      → find_value L j (inner ++ b ∷ [])
        ≡ (elim (find_value L j inner) [ some w ↦ some w | none ↦ lookup j b.locals ])
  unfolding find_value
  find_value-append j [] b = ground arith
  find_value-append j (a ∷ inner) b = ground (arith, find_value-append j inner b)

  -- `setglobal` binds a name in the outermost block, whatever blocks stand above it: the name
  -- means the new value unless a block above binds it too, and no other name changes.
  pub find_value-set_outermost :
      (k j : String) (v : NamedValue L) (inner : List (CodegenBlock L)) (b : CodegenBlock L)
      → (bs : List (CodegenBlock L)) × (set_outermost L k v (inner ++ b ∷ []) ≡ some bs)
        × (find_value L j bs ≡ (elim (find_value L j inner) [
          | some w ↦ some w
          | none ↦ if str_eq k j then some v else lookup j b.locals
        ]))
  unfolding bind_local
  find_value-set_outermost k j v inner b = (
    inner ++ bind_local L k v b ∷ [],
    set_outermost-append k v inner b,
    ground (arith, find_value-append j inner (bind_local L k v b), lookup-insert k j v b.locals),
  )

  pub length-set_outermost :
      (k : String) (v : NamedValue L) (blocks bs : List (CodegenBlock L))
      → set_outermost L k v blocks ≡ some bs
      → length bs ≡ length blocks
  unfolding set_outermost
  length-set_outermost k v [] bs h = absurd (ground (arith, h))
  length-set_outermost k v (b ∷ []) bs h = ground arith
  length-set_outermost k v (b ∷ b' ∷ blocks) bs h =
      elim (Option-cases (set_outermost L k v (b' ∷ blocks))) [
        | inl e ↦ absurd (ground (arith, h, e))
        | inr (rest, e) ↦ ground (arith, h, e, length-set_outermost k v (b' ∷ blocks) rest e)
      ]
