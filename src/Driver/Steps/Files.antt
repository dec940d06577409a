-- ===== src/Driver/Steps/Files.antt =====
-- What the loop over the files in `compile_from_files_to_exe` takes from each of them.
use mathlib.Core.List.{append_assoc, append-nil}
use th_lang.Base.{
  sym, ap, ◌<>◌, refl, ◌∙◌, String, ◌≡◌, true, none, some, List, [], ◌∷◌, ◌++◌, arith,
}
use th_lang.Driver.Run.{
  >>=-eq-returns, some-eq-returns, catch-eq-returns, step-eq-returns, if-eq-returns, ◌>>◌, returns,
  return, ◌>>=◌,
}
use th_lang.Driver.Compile.{Platform, DriverState, outside, report, compile_toir_from_file}
use th_lang.Driver.Build.{
  temp_pattern, Kind, source, ir_text, bitcode, object, unknown, no_extension, kind, Inputs,
  add_file, add_files,
}

module _ (P : Platform) where
  -- What a file gives: object files and modules. A file of another kind is never taken.
  abbrev pub Gives :
      Kind → String → List String → List String → DriverState P → DriverState P → Type 0
  Gives source file objs irs s t =
      (ir : String) × (compile_toir_from_file P file s ≡ returns ir t)
      × (objs ≡ [])
      × (irs ≡ ir ∷ [])
  Gives ir_text file objs irs s t = (s ≡ t) × (objs ≡ []) × (irs ≡ file ∷ [])
  Gives bitcode file objs irs s t =
      (obj : String) × (u : DriverState P) × (outside P
          (P.system.create_unique_file (temp_pattern P)) s
        ≡ returns (some obj) u)
      × (outside P (P.system.execute_and_wait ("llc" ∷ "-filetype=obj" ∷ "-o" ∷ obj ∷ file ∷ [])) u
          ≡ returns true t)
      × (objs ≡ obj ∷ [])
      × (irs ≡ [])
  Gives object file objs irs s t = (s ≡ t) × (objs ≡ file ∷ []) × (irs ≡ [])
  Gives unknown file objs irs s t = ⊥
  Gives no_extension file objs irs s t = ⊥

  -- The files, one by one, have given the object files and the modules.
  abbrev pub Taken :
      List String → List String → List String → DriverState P → DriverState P → Type 0
  Taken [] objs irs s t = (objs ≡ []) × (irs ≡ []) × (s ≡ t)
  Taken (file ∷ files) objs irs s t =
      (o : List String) × (os : List String) × (i : List String) × (is : List String)
      × (u : DriverState P) × Gives (kind file) file o i s u
      × Taken files os is u t
      × (objs ≡ o ++ os)
      × (irs ≡ i ++ is)

  -- What the two vectors have got more.
  abbrev pub Grown : Inputs → Inputs → List String → List String → Type 0
  Grown i j objs irs =
      (j.object_files ≡ i.object_files ++ objs) × (j.llvm_ir_files ≡ i.llvm_ir_files ++ irs)

  with_modules :
      (i j : Inputs) (irs : List String)
      → record i { llvm_ir_files = i.llvm_ir_files ++ irs } ≡ j
      → Grown i j [] irs
  with_modules i j irs e = (
    sym (ap (λ x. x.object_files) e) ∙ sym (append-nil i.object_files),
    sym (ap (λ x. x.llvm_ir_files) e),
  )

  with_objects :
      (i j : Inputs) (objs : List String)
      → record i { object_files = i.object_files ++ objs } ≡ j
      → Grown i j objs []
  with_objects i j objs e = (
    sym (ap (λ x. x.object_files) e),
    sym (ap (λ x. x.llvm_ir_files) e) ∙ sym (append-nil i.llvm_ir_files),
  )

  add_file-some :
      (file : String) (k : Kind) (i j : Inputs) (s s' : DriverState P)
      → add_file P file i k s ≡ returns (some j) s'
      → (objs : List String) × (irs : List String) × Gives k file objs irs s s' × Grown i j objs irs
  unfolding add_file
  add_file-some file source i j s s' h =
      let (ir, t, compiled, end) =
        >>=-eq-returns (compile_toir_from_file P file)
          (λ ir. return (some (record i { llvm_ir_files = i.llvm_ir_files ++ ir ∷ [] }))) s
          (catch-eq-returns
            (compile_toir_from_file P file >>= λ ir.
              return (some (record i { llvm_ir_files = i.llvm_ir_files ++ ir ∷ [] })))
            (λ e. report P ("Error compiling " <> file <> ": " <> e <> "\n") >> return none) s
            (λ e t k. ground (arith, k)) h) in
      let last : t ≡ s' = ground (arith, end) in
      (
        [],
        ir ∷ [],
        (ir, compiled ∙ ap (returns ir) last, refl, refl),
        with_modules i j (ir ∷ []) (ground (arith, end)),
      )
  add_file-some file ir_text i j s s' h = (
    [],
    file ∷ [],
    (ground (arith, h), refl, refl),
    with_modules i j (file ∷ []) (ground (arith, h)),
  )
  add_file-some file bitcode i j s s' h =
      let (obj, t, created, rest) =
        some-eq-returns (outside P (P.system.create_unique_file (temp_pattern P))) _ _ s
          (λ t e. ground arith) h in
      let (u, converted, end) =
        if-eq-returns
          (outside P (P.system.execute_and_wait ("llc" ∷ "-filetype=obj" ∷ "-o" ∷ obj ∷ file ∷ [])))
          (return (some (record i { object_files = i.object_files ++ obj ∷ [] })))
          (report P ("Error converting bitcode to object: " <> file <> "\n")
            >> (outside P (P.system.remove obj) >>= λ failed. return none))
          t (λ t e. ground arith) rest in
      let last : u ≡ s' = ground (arith, end) in
      (
        obj ∷ [],
        [],
        (obj, t, created, converted ∙ ap (returns true) last, refl, refl),
        with_objects i j (obj ∷ []) (ground (arith, end)),
      )
  add_file-some file object i j s s' h = (
    file ∷ [],
    [],
    (ground (arith, h), refl, refl),
    with_objects i j (file ∷ []) (ground (arith, h)),
  )
  add_file-some file unknown i j s s' h = absurd (ground arith)
  add_file-some file no_extension i j s s' h = absurd (ground arith)

  pub add_files-some :
      (files : List String) (i j : Inputs) (s s' : DriverState P)
      → add_files P files i s ≡ returns (some j) s'
      → (objs : List String) × (irs : List String) × Taken files objs irs s s' × Grown i j objs irs
  unfolding add_files
  add_files-some [] i j s s' h =
      let e : i ≡ j = ground (arith, h) in
      (
        [],
        [],
        (refl, refl, ground (arith, h)),
        (
          sym (ap (λ x. x.object_files) e) ∙ sym (append-nil i.object_files),
          sym (ap (λ x. x.llvm_ir_files) e) ∙ sym (append-nil i.llvm_ir_files),
        ),
      )
  add_files-some (file ∷ files) i j s s' h =
      let (m, t, first, rest) =
        step-eq-returns (add_file P file i (kind file)) none (add_files P files) s (λ e. cc) h in
      let (o, is, gives, (om, im)) = add_file-some file (kind file) i m s t first in
      let (os, iss, taken, (oj, ij)) = add_files-some files m j t s' rest in
      (
        o ++ os,
        is ++ iss,
        (o, os, is, iss, t, gives, taken, refl, refl),
        (
          oj ∙ ap (λ x. x ++ os) om ∙ append_assoc i.object_files o os,
          ij ∙ ap (λ x. x ++ iss) im ∙ append_assoc i.llvm_ir_files is iss,
        ),
      )
