-- ===== src/TypeSystem/Laws.antt =====
-- The table of types: pointers that are live, names that agree, and unknown names.
use th_lang.Base.{
  ℕ, ◌<◌, String, ◌≡◌, refl, sym, ap, subst, ◌∙◌, ◌≢◌, none, some, [], ◌∷◌, arith, length,
  get_elem?, get_elem?-append_left, get_elem?-append_last, get_elem?-lt, get_elem?-some,
  length-append, str_eq, Option-cases, Bool-cases, if◌then◌else◌, ◌⊎◌, inl, inr, eq_iff,
}
use th_lang.Base.Dict.{lookup, lookup-insert}
use th_lang.TypeSystem.{
  Ptr, ThType, base, type_name, TypeSystem, create, get_type, register, statics, new_type_system,
}

-- The pointer `p` is that of an object named `k`, and not the static one.
abbrev pub Names : TypeSystem → String → Ptr → Type 0
Names ts k p =
    (t : ThType) × (get_elem? ts.objects p ≡ some t) × (type_name t ≡ k) × (p ≢ ts.empty_type_ptr)

-- Every entry of the table points to an object of its own name, and none to the static object
-- that stands for unknown names.
pub record IsNamed (ts : TypeSystem) : Type 0 where
  pub empty_live : ts.empty_type_ptr < length ts.objects
  pub entries : (k : String) (p : Ptr) → lookup k ts.type_map ≡ some p → Names ts k p

register-fresh :
    (name : String) (size : ℕ) (ts : TypeSystem)
    → IsNamed ts
    → Names (register name size ts) name (length ts.objects)
unfolding register type_name
register-fresh name size ts v = (
  base name _ size,
  get_elem?-append_last ts.objects (base name _ size),
  refl,
  λ e. omega (arith, v.empty_live),
)

register-old :
    (name k : String) (size : ℕ) (p : Ptr) (ts : TypeSystem)
    → Names ts k p
    → Names (register name size ts) k p
unfolding register
register-old name k size p ts (t, live, named, differs) = (
  t,
  get_elem?-append_left ts.objects _ p (get_elem?-lt ts.objects p live) ∙ live,
  named,
  differs,
)

lookup-register :
    (name k : String) (size : ℕ) (ts : TypeSystem)
    → lookup k (register name size ts).type_map
      ≡ (if str_eq name k then some (length ts.objects) else lookup k ts.type_map)
unfolding register
lookup-register name k size ts = lookup-insert name k (length ts.objects) ts.type_map

register-Names :
    (name k : String) (size : ℕ) (p : Ptr) (ts : TypeSystem)
    → IsNamed ts
    → (if str_eq name k then some (length ts.objects) else lookup k ts.type_map) ≡ some p
    → Names (register name size ts) k p
register-Names name k size p ts v h = elim (Bool-cases (str_eq name k)) [
  | inl same ↦
      let e : length ts.objects ≡ p = ground (arith, h, same) in
      let n : name ≡ k = (eq_iff name k).0 same in
      subst (Names (register name size ts) k) e (
        subst (λ j. Names (register name size ts) j (length ts.objects)) n
          (register-fresh name size ts v))
  | inr other ↦ register-old name k size p ts (v.entries k p (ground (arith, h, other)))
]

register-empty_live :
    (name : String) (size : ℕ) (ts : TypeSystem)
    → IsNamed ts
    → (register name size ts).empty_type_ptr < length (register name size ts).objects
unfolding register
register-empty_live name size ts v =
    omega (arith, v.empty_live, length-append ts.objects (base name _ size ∷ []))

-- Registering a type keeps the table's entries named after their objects, apart from the static
-- object, and the static pointer live.
pub register-IsNamed :
    (name : String) (size : ℕ) (ts : TypeSystem) → IsNamed ts → IsNamed (register name size ts)
register-IsNamed name size ts v = record {
  empty_live = register-empty_live name size ts v;
  entries = λ k p h. register-Names name k size p ts v (sym (lookup-register name k size ts) ∙ h);
}

-- A new object that no name stands for yet keeps the table so named.
pub create-IsNamed : (t : ThType) (ts : TypeSystem) → IsNamed ts → IsNamed (create t ts).1
unfolding create
create-IsNamed t ts v = record {
  empty_live = omega (arith, v.empty_live, length-append ts.objects (t ∷ []));
  entries = λ k p h.
      let (u, live, named, differs) = v.entries k p h in
      (
        u,
        get_elem?-append_left ts.objects _ p (get_elem?-lt ts.objects p live) ∙ live,
        named,
        differs,
      );
}

pub statics-IsNamed : IsNamed statics
statics-IsNamed = record { empty_live = omega arith; entries = λ k p h. absurd (ground (arith, h)) }

-- The table that the constructor makes is so named.
pub new_type_system-IsNamed : IsNamed new_type_system
unfolding new_type_system
new_type_system-IsNamed = register-IsNamed _ _ _ (
    register-IsNamed _ _ _ (
      register-IsNamed _ _ _ (
        register-IsNamed _ _ _ (
          register-IsNamed _ _ _ (
            register-IsNamed _ _ _
              (register-IsNamed _ _ _ (register-IsNamed _ _ _ statics-IsNamed)))))))

-- The pointer of a registered name is the answer for that name alone.
pub get_type-injective :
    (ts : TypeSystem) (j k : String) (p : Ptr)
    → IsNamed ts
    → lookup k ts.type_map ≡ some p
    → get_type j ts ≡ p
    → j ≡ k
unfolding get_type
get_type-injective ts j k p v h e = elim (Option-cases (lookup j ts.type_map)) [
  | inl missing ↦
      let (t, live, named, differs) = v.entries k p h in
      absurd (differs (ground (arith, e, missing)))
  | inr (q, found) ↦
      let (t, live, named, differs) = v.entries k p h in
      let (u, live', named', differs') = v.entries j q found in
      let same : q ≡ p = ground (arith, e, found) in
      let objects : some u ≡ some t = sym live' ∙ ap (get_elem? ts.objects) same ∙ live in
      sym named' ∙ ground (arith, objects) ∙ named
]

-- Whatever the name, `get_type` answers with a live object: the one registered under that very
-- name, or, if there is none, the static object.
pub get_type-live :
    (ts : TypeSystem) (k : String)
    → IsNamed ts
    → (t : ThType) × (get_elem? ts.objects (get_type k ts) ≡ some t)
      × ((lookup k ts.type_map ≡ some (get_type k ts)) × (type_name t ≡ k)
          ⊎ (lookup k ts.type_map ≡ none) × (get_type k ts ≡ ts.empty_type_ptr))
unfolding get_type
get_type-live ts k v = elim (Option-cases (lookup k ts.type_map)) [
  | inl missing ↦
      let (t, live) = get_elem?-some ts.objects ts.empty_type_ptr v.empty_live in
      (t, rw (missing, get_type) live, inr (missing, rw (missing, get_type)))
  | inr (p, found) ↦
      let (t, live, named, differs) = v.entries k p found in
      (t, rw (found, get_type) live, inl (rw (found, get_type), named))
]
