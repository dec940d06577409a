-- ===== src/Tests/Evaluator.antt =====
-- LLVM's builder as an evaluator: an instruction is run when it is made. Every function has one
-- argument, which is 7.
use th_lang.Base.{
  ℕ, zero, suc, ◌<◌, ◌≡◌, ◌≢◌, refl, ap, ◌∙◌, false, Option, none, some, List, [], ◌∷◌, ◌++◌, arith,
  length, length-append, length-set, get_elem?, get_elem?-append_last, get_elem?-set_self, set,
  ◌==◌, ◌||◌,
}
use th_lang.Llvm.{Llvm, Inst, load, store, alloca, binary, ret}
use th_lang.Meaning.Words.{word_of, apply}
use th_lang.Meaning.Source.{with_both}
use th_lang.Meaning.Semantics.{Semantics}

-- A word, what an instruction has computed, or a cell.
pub data Datum : Type 0 where
  fixed : ℕ → ℕ → Datum
  temp : ℕ → ℕ → Datum
  address : ℕ → Datum

-- What the instructions have computed, what the memory holds, and what has been returned.
pub record Run : Type 0 where
  pub temps : List (Option ℕ)
  pub cells : List (Option ℕ)
  pub returned : Option ℕ

abbrev join : Option (Option ℕ) → Option ℕ
join (some o) = o
join none = none

abbrev pub word_in : Run → Datum → Option ℕ
word_in w (fixed τ a) = some a
word_in w (temp τ n) = join (get_elem? w.temps n)
word_in w (address n) = none

abbrev pub cell_in : Run → Datum → Option ℕ
cell_in w (address n) = join (get_elem? w.cells n)
cell_in w (fixed τ a) = none
cell_in w (temp τ n) = none

abbrev pub IsCellOf : Run → Datum → Type 0
IsCellOf w (address n) = n < length w.cells
IsCellOf w (fixed τ a) = ⊥
IsCellOf w (temp τ n) = ⊥

abbrev type_in : Datum → ℕ
type_in (fixed τ a) = τ
type_in (temp τ n) = τ
type_in (address n) = 0

abbrev compute_to : ℕ → Option ℕ → Run → Datum × Run
compute_to τ o w = (temp τ (length w.temps), record w { temps = w.temps ++ o ∷ [] })

abbrev store_to : Datum → Option ℕ → Run → Run
store_to (address n) o w = record w { cells = set w.cells n o }
store_to (fixed τ a) o w = w
store_to (temp τ n) o w = w

abbrev returned_word : Run → Option Datum → Option ℕ
returned_word w none = none
returned_word w (some v) = word_in w v

abbrev execute : Inst Datum ℕ ℕ ℕ → Run → Datum × Run
execute (binary i l r s) w = compute_to 32 (with_both (apply i) (word_in w l) (word_in w r)) w
execute (load τ p) w = compute_to τ (cell_in w p) w
execute (alloca τ s) w = (address (length w.cells), record w { cells = w.cells ++ none ∷ [] })
execute (store x p) w = (fixed 0 0, store_to p (word_in w x) w)
execute (ret o) w = (fixed 0 0, record w { returned = returned_word w o })
execute i w = (fixed 0 0, w)

abbrev pub evaluator : Llvm
evaluator = record {
  World = Run;
  Value = Datum;
  LType = ℕ;
  Block = ℕ;
  Func = ℕ;
  int_ty = λ bits. bits;
  float_ty = 1001;
  double_ty = 1002;
  void_ty = 1003;
  pointer_ty = λ τ. 0;
  function_ty = λ τ τs. 1004;
  create_struct = λ s τs w. (1005, w);
  same_type = λ τ τ'. τ == τ';
  is_floating = λ τ. τ == 1001 || τ == 1002;
  const_int = λ τ n s. fixed τ (word_of n);
  const_fp = λ τ n. fixed τ n;
  type_of = type_in;
  takes = λ i a b. a == b;
  create = execute;
  insert_block = λ w. some 0;
  set_insert_point = λ b w. w;
  create_block = λ s f w. (0, w);
  insert_into = λ b f w. w;
  parent = λ b w. some 0;
  has_terminator = λ b w. false;
  get_function = λ s w. none;
  create_function = λ τ s w. (0, w);
  function_value = λ f. fixed 0 0;
  as_function = λ v. none;
  arg_size = λ f. 1;
  function_args = λ f. fixed 32 7 ∷ [];
  set_name = λ v s w. w;
  get_name = λ v w. "";
  indeterminate = none;
}

get_elem?-keeps :
    (xs ys : List (Option ℕ)) (n a : ℕ)
    → join (get_elem? xs n) ≡ some a
    → join (get_elem? (xs ++ ys) n) ≡ some a
get_elem?-keeps [] ys n a h = absurd (ground arith)
get_elem?-keeps (x ∷ xs) ys zero a h = h
get_elem?-keeps (x ∷ xs) ys (suc n) a h = get_elem?-keeps xs ys n a h

get_elem?-set_other :
    (xs : List (Option ℕ)) (m n : ℕ) (o : Option ℕ)
    → n ≢ m
    → get_elem? (set xs m o) n ≡ get_elem? xs n
get_elem?-set_other [] m n o h = refl
get_elem?-set_other (x ∷ xs) zero zero o h = absurd (h refl)
get_elem?-set_other (x ∷ xs) zero (suc n) o h = refl
get_elem?-set_other (x ∷ xs) (suc m) zero o h = refl
get_elem?-set_other (x ∷ xs) (suc m) (suc n) o h = get_elem?-set_other xs m n o (λ e. h (ap suc e))

last_word : (xs : List (Option ℕ)) (o : Option ℕ) → join (get_elem? (xs ++ o ∷ []) (length xs)) ≡ o
last_word xs o = rw (get_elem?-append_last xs o) refl

stored : (p : Datum) (o : Option ℕ) (w : Run) → (store_to p o w).temps ≡ w.temps
stored (fixed τ a) o w = refl
stored (temp τ n) o w = refl
stored (address n) o w = refl

length-stored :
    (p : Datum) (o : Option ℕ) (w : Run) → length (store_to p o w).cells ≡ length w.cells
length-stored (fixed τ a) o w = refl
length-stored (temp τ n) o w = refl
length-stored (address n) o w = length-set w.cells n o

-- No instruction takes a value back.
keeps_words :
    (i : Inst Datum ℕ ℕ ℕ) (w : Run) (v : Datum) (a : ℕ)
    → word_in w v ≡ some a
    → word_in (execute i w).1 v ≡ some a
keeps_words i w (fixed τ b) a h = h
keeps_words i w (address n) a h = h
keeps_words (binary i l r s) w (temp τ n) a h = get_elem?-keeps w.temps _ n a h
keeps_words (load σ p) w (temp τ n) a h = get_elem?-keeps w.temps _ n a h
keeps_words (store x p) w (temp τ n) a h = rw (stored p (word_in w x) w) h
keeps_words _ w (temp τ n) a h = h

keeps_cells :
    (i : Inst Datum ℕ ℕ ℕ) (w : Run) (v : Datum) → IsCellOf w v → IsCellOf (execute i w).1 v
keeps_cells i w (fixed τ b) h = h
keeps_cells i w (temp τ b) h = h
keeps_cells (alloca τ s) w (address n) h = omega (arith, length-append w.cells (none ∷ []))
keeps_cells (store x p) w (address n) h = omega (arith, length-stored p (word_in w x) w)
keeps_cells _ w (address n) h = h

stores :
    (x v : Datum) (a : ℕ) (w : Run)
    → IsCellOf w v
    → word_in w x ≡ some a
    → cell_in (store_to v (word_in w x) w) v ≡ some a
stores x (fixed τ b) a w h e = absurd h
stores x (temp τ b) a w h e = absurd h
stores x (address n) a w h e = rw (get_elem?-set_self w.cells n (word_in w x) h) e

store_keeps :
    (x p : Datum) (w : Run) (v : Datum) (a : ℕ)
    → IsCellOf w v
    → v ≢ p
    → cell_in w v ≡ some a
    → cell_in (store_to p (word_in w x) w) v ≡ some a
store_keeps x (fixed τ b) w v a h ne e = e
store_keeps x (temp τ b) w v a h ne e = e
store_keeps x (address m) w (address n) a h ne e =
    rw (get_elem?-set_other w.cells m n (word_in w x) (λ k. ne (ap address k))) e
store_keeps x (address m) w (fixed τ b) a h ne e = absurd h
store_keeps x (address m) w (temp τ b) a h ne e = absurd h

fresh : (w : Run) (v : Datum) → IsCellOf w v → v ≢ address (length w.cells)
fresh w (address n) h e = absurd (ground arith)
fresh w (fixed τ b) h e = h
fresh w (temp τ b) h e = h

grown_cell :
    (w : Run) (v : Datum) (a : ℕ)
    → cell_in w v ≡ some a
    → cell_in (record w { cells = w.cells ++ none ∷ [] }) v ≡ some a
grown_cell w (address n) a e = get_elem?-keeps w.cells (none ∷ []) n a e
grown_cell w (fixed τ b) a e = e
grown_cell w (temp τ b) a e = e

same_cells :
    (w : Run) (ts : List (Option ℕ)) (v : Datum) → cell_in (record w { temps = ts }) v ≡ cell_in w v
same_cells w ts (address n) = refl
same_cells w ts (fixed τ b) = refl
same_cells w ts (temp τ b) = refl

computes :
    (o : Option ℕ) (w : Run) (d τ : ℕ)
    → o ≡ some d
    → (τ ≡ τ) × (word_in (compute_to τ o w).1 (compute_to τ o w).0 ≡ some d)
computes o w d τ e = (refl, last_word w.temps o ∙ e)

pub evaluator-Semantics : Semantics evaluator
evaluator-Semantics = record {
  word = word_in;
  cell = cell_in;
  IsCell = IsCellOf;
  int_is_no_float = refl;
  takes_words = λ i a b d h. refl;
  constant = λ n s w. (refl, refl);
  named_keeps_words = λ u s w v a h. h;
  named_keeps_cells = λ u s w v h. h;
  named_keeps_memory = λ u s w v a h. h;
  computes = λ i l r s a b d w lt rt lw rw' h.
      computes (with_both (apply i) (word_in w l) (word_in w r)) w d 32 (rw (lw, rw') h);
  loads = λ v a w cell e. computes (cell_in w v) w a 32 e;
  allocates = λ s w. omega (arith, length-append w.cells (none ∷ []));
  allocates_fresh = λ s w v h. fresh w v h;
  stores = λ x v a w h e. stores x v a w h e;
  keeps_words = keeps_words;
  keeps_cells = keeps_cells;
  binary_keeps = λ i l r s w v a e.
      same_cells w (w.temps ++ with_both (apply i) (word_in w l) (word_in w r) ∷ []) v ∙ e;
  load_keeps = λ p w v a e. same_cells w (w.temps ++ cell_in w p ∷ []) v ∙ e;
  alloca_keeps = λ s w v a h e. grown_cell w v a e;
  store_keeps = λ x p w v a h ne e. store_keeps x p w v a h ne e;
}

pub word-fixed : (w : Run) (τ a : ℕ) → evaluator-Semantics.word w (fixed τ a) ≡ some a
unfolding evaluator-Semantics
word-fixed w τ a = refl
