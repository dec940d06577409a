-- ===== src/Meaning/Memory.antt =====
-- What a new cell and a store to a cell do to the state that stands for a store.
use th_lang.Base.{
  ℕ, String, ◌≡◌, ◌≢◌, refl, sym, ap, ◌∙◌, subst, true, false, Option, none, some, List, ◌∷◌, arith,
  str_eq, eq_iff, Bool-cases, inl, inr, ◌⊎◌,
}
use th_lang.Base.Dict.{lookup, insert, lookup-insert}
use th_lang.Llvm.{Llvm, store, alloca}
use th_lang.TypeSystem.{Ptr, ThType}
use th_lang.Codegen.Context.{CodegenBlock, Context, find_value, bind_local}
use th_lang.Codegen.Context.Laws.{find_value-bind_local_self, find_value-bind_local_other}
use th_lang.Meaning.Source.{Store}
use th_lang.Meaning.Semantics.{Semantics, Evolves-alloca}
use th_lang.Meaning.Represents.{Represents}

inserted {ℓ} :
    {V : Type ℓ} (k j : String) (v : V) (m : List (String × V)) (u : V)
    → lookup j (insert k v m) ≡ some u
    → str_eq k j ≡ true
    → v ≡ u
inserted k j v m u h same = ground (arith, lookup-insert k j v m)

not_inserted {ℓ} :
    {V : Type ℓ} (k j : String) (v : V) (m : List (String × V)) (u : V)
    → lookup j (insert k v m) ≡ some u
    → str_eq k j ≡ false
    → lookup j m ≡ some u
not_inserted k j v m u h other = ground (arith, lookup-insert k j v m)

-- A name after an `insert` is the one inserted or another one.
lookup-insert-cases {ℓ} :
    {V : Type ℓ} (k j : String) (v : V) (m : List (String × V)) (u : V)
    → lookup j (insert k v m) ≡ some u
    → ((k ≡ j) × (v ≡ u)) ⊎ ((k ≢ j) × (lookup j m ≡ some u))
lookup-insert-cases k j v m u h = elim (Bool-cases (str_eq k j)) [
  | inl same ↦ inl ((eq_iff k j).0 same, inserted k j v m u h same)
  | inr other ↦ inr (ground (arith, eq_iff k j), not_inserted k j v m u h other)
]

module _ {L : Llvm} (S : Semantics L) (objects : List ThType) (int_ptr : Ptr) where
  -- An assignment declares no name.
  known :
      (σ : Store) (s t : String) (n old o : Option ℕ)
      → lookup s σ ≡ some old
      → lookup t (insert s n σ) ≡ some o
      → (o' : Option ℕ) × (lookup t σ ≡ some o')
  known σ s t n old o h k = elim (lookup-insert-cases s t n σ o k) [
    | inl (same, _) ↦ (old, subst (λ j. lookup j σ ≡ some old) same h)
    | inr (_, other) ↦ (o, other)
  ]

  -- The name's slot holds the word that is stored to it, and the other slots what they held.
  pub stored-Represents :
      (c : Context L) (σ : Store) (s : String) (old : Option ℕ) (dst x : L.Value) (a : ℕ)
      → Represents S objects int_ptr c σ
      → lookup s σ ≡ some old
      → find_value L s c.blocks ≡ some (int_ptr, dst)
      → S.IsCell c.world dst
      → S.word c.world x ≡ some a
      → Represents S objects int_ptr
          (record c { world = (L.create (store x dst) c.world).1 })
          (insert s (some a) σ)
  stored-Represents c σ s old dst x a r h found cell word = record {
    same_objects = r.same_objects;
    inside = r.inside;
    slots = λ t o k. elim (lookup-insert-cases s t (some a) σ o k) [
      | inl (same, is) ↦ (
        dst,
        subst (λ j. find_value L j c.blocks ≡ some (int_ptr, dst)) same found,
        S.keeps_cells (store x dst) c.world dst cell,
        λ b e. S.stores x dst a c.world cell word ∙ (is ∙ e),
      )
      | inr (other, before) ↦
          let (v, there, at, holds) = r.slots t o before in
          (
            v,
            there,
            S.keeps_cells (store x dst) c.world v at,
            λ b e.
                S.store_keeps x dst c.world v b at
                  (r.apart t s o old v dst before h (λ same. other (sym same)) there found)
                  (holds b e),
          )
    ];
    apart = λ t t' o o' v v' k k'.
        let (p, before) = known σ s t (some a) old o h k in
        let (p', before') = known σ s t' (some a) old o' h k' in
        r.apart t t' p p' v v' before before';
  }

  none_value : {a : ℕ} → ◌≢◌ {A = Option ℕ} none (some a)
  none_value h = cc

  same_value :
      (p : Ptr) (u v : L.Value)
      → ◌≡◌ {A = Option (Ptr × L.Value)} (some (p, u)) (some (p, v))
      → u ≡ v
  same_value p u v h = cc

  abbrev pub with_cell :
      Context L → String → String → CodegenBlock L → List (CodegenBlock L) → Context L
  with_cell c temporary s b bs = record c {
    world = (L.create (alloca (L.int_ty 32) temporary) c.world).1;
    blocks = bind_local L s (int_ptr, (L.create (alloca (L.int_ty 32) temporary) c.world).0) b ∷ bs;
  }

  module _ (c : Context L) (σ : Store) (temporary s : String) (b : CodegenBlock L)
      (bs : List (CodegenBlock L)) (r : Represents S objects int_ptr c σ)
      (blocks : c.blocks ≡ b ∷ bs) where
    new_cell : L.Value
    new_cell = (L.create (alloca (L.int_ty 32) temporary) c.world).0

    -- A variable behind the declaration is the new one or an old one.
    abbrev Located : String → L.Value → Type 0
    Located t v =
        ((s ≡ t) × (v ≡ new_cell))
        ⊎ ((s ≢ t)
            × ((o : Option ℕ) × (lookup t σ ≡ some o))
            × (find_value L t c.blocks ≡ some (int_ptr, v))
            × S.IsCell c.world v)

    located :
        (t : String) (o : Option ℕ) (v : L.Value)
        → lookup t (insert s none σ) ≡ some o
        → find_value L t (with_cell c temporary s b bs).blocks ≡ some (int_ptr, v)
        → Located t v
    unfolding new_cell
    located t o v k there = elim (lookup-insert-cases s t none σ o k) [
      | inl (same, _) ↦ inl (
        same,
        same_value int_ptr v new_cell (
            sym there
            ∙ subst
                (λ j.
                  find_value L j (with_cell c temporary s b bs).blocks ≡ some (int_ptr, new_cell))
                same (find_value-bind_local_self L s (int_ptr, new_cell) b bs)),
      )
      | inr (other, before) ↦
          let was =
            ap (find_value L t) blocks
            ∙ (sym (find_value-bind_local_other L s t (int_ptr, new_cell) b bs other) ∙ there) in
          let (u, there', at, _) = r.slots t o before in
          inr (
            other,
            (o, before),
            was,
            subst (S.IsCell c.world) (same_value int_ptr u v (sym there' ∙ was)) at,
          )
    ]

    -- A name that is bound to a new cell is declared, without a value.
    pub allocated-Represents :
        Represents S objects int_ptr (with_cell c temporary s b bs) (insert s none σ)
    unfolding new_cell
    allocated-Represents = record {
      same_objects = r.same_objects;
      inside = (bind_local L s (int_ptr, new_cell) b, bs, refl);
      slots = λ t o k. elim (lookup-insert-cases s t none σ o k) [
        | inl (same, is) ↦ (
          new_cell,
          subst
              (λ j. find_value L j (with_cell c temporary s b bs).blocks ≡ some (int_ptr, new_cell))
              same (find_value-bind_local_self L s (int_ptr, new_cell) b bs),
          S.allocates temporary c.world,
          λ a e. absurd (none_value (is ∙ e)),
        )
        | inr (other, before) ↦
            let (v, there, at, holds) = r.slots t o before in
            let e = Evolves-alloca S temporary c.world in
            (
              v,
              find_value-bind_local_other L s t (int_ptr, new_cell) b bs other
                  ∙ (sym (ap (find_value L t) blocks) ∙ there),
              e.cells v at,
              λ a k'. e.memory v a at (holds a k'),
            )
      ];
      apart = λ t t' o o' v v' k k' differ there there' e. elim (located t o v k there) [
        | inl (same, is) ↦ elim (located t' o' v' k' there') [
          | inl (same', _) ↦ differ (sym same ∙ same')
          | inr (_, _, _, at') ↦ S.allocates_fresh temporary c.world v' at' (sym e ∙ is)
        ]
        | inr (_, (p, before), was, at) ↦ elim (located t' o' v' k' there') [
          | inl (_, is') ↦ S.allocates_fresh temporary c.world v at (e ∙ is')
          | inr (_, (p', before'), was', _) ↦
              r.apart t t' p p' v v' before before' differ was was' e
        ]
      ];
    }
