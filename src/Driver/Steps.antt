-- ===== src/Driver/Steps.antt =====
-- What the steps of `compile_from_files_to_exe` and `compile_fir_to_exe` leave behind: here the
-- object files of modules, in Files what the loop over the files takes.
pub mod Files
use mathlib.Core.List.{append_assoc, append-nil}
use th_lang.Base.{
  subst, sym, ap, ◌<>◌, refl, ◌∙◌, ℕ, String, ◌≡◌, true, none, some, List, [], ◌∷◌, ◌++◌, arith,
}
use th_lang.Driver.Run.{
  >>=-eq-returns, some-eq-returns, catch-eq-returns, step-eq-returns, if-eq-returns, ◌>>◌, returns,
  return, ◌>>=◌,
}
use th_lang.Driver.Compile.{
  Platform, DriverState, outside, effect, report, compile_fir_to_obj, compile_toir_from_file,
}
use th_lang.Driver.Build.{
  temp_pattern, keep_path, compile_ir, compile_temp, compile_irs, compile_temps, Kind, source,
  ir_text, bitcode, object, unknown, no_extension, kind, Inputs, add_file, add_files,
}

module _ (P : Platform) where
  -- The object code of the module `ir` has been written to the new file `path`, which is closed.
  abbrev pub Written : String → String → DriverState P → DriverState P → Type 0
  Written ir path s t =
      (n : ℕ) × (f : P.system.File) × (a b c d : DriverState P) × (outside P
          (P.system.create_unique_file (temp_pattern P)) s
        ≡ returns (some path) a)
      × (outside P (P.system.open_for_write path) a ≡ returns (some n) b)
      × (outside P (P.system.fdopen n) b ≡ returns (some f) c)
      × (compile_fir_to_obj P ir f c ≡ returns tt d)
      × (effect P (P.system.close_file f) d ≡ returns tt t)

  -- The same for a file that `compile_fir_to_exe` keeps the name of.
  abbrev pub Kept : String → String → DriverState P → DriverState P → Type 0
  Kept ir path s t =
      (u : DriverState P) × Written ir path s u
      × (outside P (P.system.strdup path) u ≡ returns true t)

  pub compile_ir-some :
      (ir path : String) (s s' : DriverState P)
      → compile_ir P ir s ≡ returns (some path) s'
      → Written ir path s s'
  unfolding compile_ir outside effect report
  compile_ir-some ir path s s' h =
      let (obj, a, created, ra) =
        some-eq-returns (outside P (P.system.create_unique_file (temp_pattern P))) _ _ s
          (λ t e. ground arith) h in
      let (n, b, opened, rb) =
        some-eq-returns (outside P (P.system.open_for_write obj)) _ _ a (λ t e. ground arith) ra in
      let (f, c, named, rc) =
        some-eq-returns (outside P (P.system.fdopen n)) _ _ b (λ t e. ground arith) rb in
      let (u, d, compiled, rd) =
        >>=-eq-returns (compile_fir_to_obj P ir f)
          (λ x. effect P (P.system.close_file f) >> return (some obj)) c rc in
      let (v, e, closed, end) =
        >>=-eq-returns (effect P (P.system.close_file f)) (λ x. return (some obj)) d rd in
      let same : obj ≡ path = ground (arith, end) in
      let last : e ≡ s' = ground (arith, end) in
      subst (λ x. Written ir x s s') same
        (subst (Written ir obj s) last (n, f, a, b, c, d, created, opened, named, compiled, closed))

  pub compile_temp-some :
      (ir path : String) (s s' : DriverState P)
      → compile_temp P ir s ≡ returns (some path) s'
      → Kept ir path s s'
  unfolding compile_temp outside effect report
  compile_temp-some ir path s s' h =
      let (obj, a, created, ra) =
        some-eq-returns (outside P (P.system.create_unique_file (temp_pattern P))) _ _ s
          (λ t e. ground arith) h in
      let (n, b, opened, rb) =
        some-eq-returns (outside P (P.system.open_for_write obj)) _ _ a (λ t e. ground arith) ra in
      let (f, c, named, rc) =
        some-eq-returns (outside P (P.system.fdopen n)) _ _ b (λ t e. ground arith) rb in
      let (u, d, compiled, rd) =
        >>=-eq-returns (compile_fir_to_obj P ir f)
          (λ x. effect P (P.system.close_file f) >> keep_path P obj) c rc in
      let (v, e, closed, re) =
        >>=-eq-returns (effect P (P.system.close_file f)) (λ x. keep_path P obj) d rd in
      let (g, copied, end) =
        if-eq-returns (outside P (P.system.strdup obj)) (return (some obj))
          (outside P (P.system.remove obj) >>= λ failed.
            report P "Failed to allocate memory for path\n" >> return none)
          e (λ t e. ground arith) re in
      let same : obj ≡ path = ground (arith, end) in
      let last : g ≡ s' = ground (arith, end) in
      subst (λ x. Kept ir x s s') same
        (subst (Kept ir obj s) last
          (e, (n, f, a, b, c, d, created, opened, named, compiled, closed), copied))

  -- `paths` are the object files that have been written for the modules, one by one.
  abbrev pub AllWritten : List String → List String → DriverState P → DriverState P → Type 0
  AllWritten [] [] s t = s ≡ t
  AllWritten (ir ∷ irs) (path ∷ paths) s t =
      (u : DriverState P) × Written ir path s u × AllWritten irs paths u t
  AllWritten _ _ s t = ⊥

  abbrev pub AllKept : List String → List String → DriverState P → DriverState P → Type 0
  AllKept [] [] s t = s ≡ t
  AllKept (ir ∷ irs) (path ∷ paths) s t =
      (u : DriverState P) × Kept ir path s u × AllKept irs paths u t
  AllKept _ _ s t = ⊥

  pub compile_irs-some :
      (irs objs made : List String) (s s' : DriverState P)
      → compile_irs P irs objs s ≡ returns (some made) s'
      → (paths : List String) × AllWritten irs paths s s' × (made ≡ objs ++ paths)
  unfolding compile_irs
  compile_irs-some [] objs made s s' h =
      (let e : objs ≡ made = ground (arith, h) in
        ([], ground (arith, h), sym e ∙ sym (append-nil objs)))
  compile_irs-some (ir ∷ irs) objs made s s' h =
      let (path, t, first, rest) =
        step-eq-returns (compile_ir P ir) none (λ path. compile_irs P irs (objs ++ path ∷ [])) s
          (λ e. cc) h in
      let (paths, all, eq) = compile_irs-some irs (objs ++ path ∷ []) made t s' rest in
      (
        path ∷ paths,
        (t, compile_ir-some ir path s t first, all),
        eq ∙ append_assoc objs (path ∷ []) paths,
      )

  pub compile_temps-some :
      (irs objs made : List String) (s s' : DriverState P)
      → compile_temps P irs objs s ≡ returns (some made) s'
      → (paths : List String) × AllKept irs paths s s' × (made ≡ objs ++ paths)
  unfolding compile_temps
  compile_temps-some [] objs made s s' h =
      (let e : objs ≡ made = ground (arith, h) in
        ([], ground (arith, h), sym e ∙ sym (append-nil objs)))
  compile_temps-some (ir ∷ irs) objs made s s' h =
      let (path, t, first, rest) =
        step-eq-returns (compile_temp P ir) none (λ path. compile_temps P irs (objs ++ path ∷ [])) s
          (λ e. cc) h in
      let (paths, all, eq) = compile_temps-some irs (objs ++ path ∷ []) made t s' rest in
      (
        path ∷ paths,
        (t, compile_temp-some ir path s t first, all),
        eq ∙ append_assoc objs (path ∷ []) paths,
      )
