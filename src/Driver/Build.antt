-- ===== src/Driver/Build.antt =====
-- `compile_fir_to_exe` and `compile_from_files_to_exe`.
use Prim.Native.Char.{code}
use th_lang.Base.{
  String, ◌<>◌, ◌==◌, str_eq, Bool, false, ◌||◌, Option, none, some, List, [], ◌∷◌, ◌++◌,
  if◌then◌else◌,
}
use th_lang.Driver.Run.{return, catch, ◌>>=◌, ◌>>◌}
use th_lang.Driver.Compile.{
  Platform, Drive, outside, effect, report, compile_toir_from_file, compile_fir_to_obj,
}
use th_lang.Driver.Link.{compile_fobj_to_exe}

-- `file.substr(file.rfind('.') + 1)`, or `none` if there is no dot.
unfoldable pub extension : String → Option String
extension String.[] = none
extension (String.◌∷◌ c s) = elim (extension s) [
  | some e ↦ some e
  | none ↦ if code c == b'.' then some s else none
]

-- What `compile_from_files_to_exe` does with a file, by its extension.
pub data Kind : Type 0 where
  source ir_text bitcode object unknown no_extension : Kind

unfoldable pub kind : String → Kind
unfolding extension
kind file = elim (extension file) [
  | none ↦ no_extension
  | some e ↦
      if str_eq e "th" || str_eq e "thlang"
      then source
      else if str_eq e "ll"
      then ir_text
      else if str_eq e "bc"
      then bitcode
      else if str_eq e "o" || str_eq e "obj"
      then object
      else unknown
]

-- The two vectors that the loop over the files fills.
pub record Inputs : Type 0 where
  pub object_files : List String
  pub llvm_ir_files : List String

module _ (P : Platform) where
  abbrev pub temp_pattern : String
  temp_pattern = P.system.temp_directory <> "temp-%%%%%%.o"

  -- One file of the loop: `none` is `return false`. The file name of a ".ll" file is pushed where
  -- the text of a module stands otherwise.
  unfoldable pub add_file : String → Inputs → Kind → Drive P (Option Inputs)
  unfolding report outside effect
  add_file file inputs no_extension = do
    report P ("Error: File " <> file <> " has no extension\n")
    return none
  add_file file inputs source =
      catch
        (compile_toir_from_file P file >>= λ ir.
          return (some (record inputs { llvm_ir_files = inputs.llvm_ir_files ++ ir ∷ [] })))
        (λ e. report P ("Error compiling " <> file <> ": " <> e <> "\n") >> return none)
  add_file file inputs ir_text =
      return (some (record inputs { llvm_ir_files = inputs.llvm_ir_files ++ file ∷ [] }))
  add_file file inputs bitcode = do
    temp ← outside P (P.system.create_unique_file temp_pattern)
    elim temp [
      | none ↦ do report P "Error creating temp file: \n"; return none
      | some obj ↦ do
        converted ←
            outside P (P.system.execute_and_wait ("llc" ∷ "-filetype=obj" ∷ "-o" ∷ obj ∷ file ∷ []))
        if converted
            then return (some (record inputs { object_files = inputs.object_files ++ obj ∷ [] }))
            else (do
              report P ("Error converting bitcode to object: " <> file <> "\n")
              failed ← outside P (P.system.remove obj)
              return none)
    ]
  add_file file inputs object =
      return (some (record inputs { object_files = inputs.object_files ++ file ∷ [] }))
  add_file file inputs unknown = do
    report P ("Error: Unknown file type " <> file <> "\n")
    return none

  -- The loop over the files.
  unfoldable pub add_files : List String → Inputs → Drive P (Option Inputs)
  add_files [] inputs = return (some inputs)
  add_files (file ∷ files) inputs = do
    added ← add_file file inputs (kind file)
    elim added [ none ↦ return none | some more ↦ add_files files more ]

  -- One module of the loop over `llvm_ir_files`: the path of its object file.
  unfoldable pub compile_ir : String → Drive P (Option String)
  unfolding outside effect report
  compile_ir ir = do
    temp ← outside P (P.system.create_unique_file temp_pattern)
    elim temp [
      | none ↦ do report P "Error creating temp file: \n"; return none
      | some obj ↦ do
        fd ← outside P (P.system.open_for_write obj)
        elim fd [
          | none ↦ do report P "Error opening temp file: \n"; return none
          | some n ↦ do
            file ← outside P (P.system.fdopen n)
            elim file [
              | none ↦ do
                effect P (P.system.close_descriptor n)
                report P "Error converting file descriptor\n"
                return none
              | some f ↦ do
                compile_fir_to_obj P ir f
                effect P (P.system.close_file f)
                return (some obj)
            ]
        ]
    ]

  -- The loop over `llvm_ir_files`.
  unfoldable pub compile_irs : List String → List String → Drive P (Option (List String))
  compile_irs [] objs = return (some objs)
  compile_irs (ir ∷ irs) objs = do
    made ← compile_ir ir
    elim made [ none ↦ return none | some obj ↦ compile_irs irs (objs ++ obj ∷ []) ]

  -- The end of `compile_from_files_to_exe`.
  unfoldable pub link_objects : List String → String → Drive P Bool
  unfolding report
  link_objects [] output = do report P "Error: No object files to link\n"; return false
  link_objects (obj ∷ objs) output = compile_fobj_to_exe P (obj ∷ objs) output

  unfoldable pub compile_from_files_to_exe : List String → String → Drive P Bool
  compile_from_files_to_exe files output = do
    added ← add_files files (record { object_files = []; llvm_ir_files = [] })
    elim added [
      | none ↦ return false
      | some inputs ↦ do
        compiled ← compile_irs inputs.llvm_ir_files inputs.object_files
        elim compiled [ none ↦ return false | some objs ↦ link_objects objs output ]
    ]

  -- The copy of the path for the list of temporary files.
  abbrev pub keep_path : String → Drive P (Option String)
  keep_path path = do
    copied ← outside P (P.system.strdup path)
    if copied then return (some path) else (do
      failed ← outside P (P.system.remove path)
      report P "Failed to allocate memory for path\n"
      return none)

  -- One module of `compile_fir_to_exe`: the path of its object file.
  unfoldable pub compile_temp : String → Drive P (Option String)
  unfolding outside effect report
  compile_temp ir = do
    temp ← outside P (P.system.create_unique_file temp_pattern)
    elim temp [
      | none ↦ do report P "Failed to create temp file: \n"; return none
      | some path ↦ do
        fd ← outside P (P.system.open_for_write path)
        elim fd [
          | none ↦ do
            report P "Failed to open temp file: \n"
            failed ← outside P (P.system.remove path)
            return none
          | some n ↦ do
            file ← outside P (P.system.fdopen n)
            elim file [
              | none ↦ do
                effect P (P.system.close_descriptor n)
                failed ← outside P (P.system.remove path)
                report P "Failed to convert file descriptor\n"
                return none
              | some f ↦ do
                compile_fir_to_obj P ir f
                effect P (P.system.close_file f)
                keep_path path
            ]
        ]
    ]

  unfoldable pub compile_temps : List String → List String → Drive P (Option (List String))
  compile_temps [] objs = return (some objs)
  compile_temps (ir ∷ irs) objs = do
    made ← compile_temp ir
    elim made [ none ↦ return none | some obj ↦ compile_temps irs (objs ++ obj ∷ []) ]

  -- The removal of the temporary files; a failure is a warning.
  unfoldable pub remove_all : List String → Drive P (Unit {0})
  unfolding outside report
  remove_all [] = return tt
  remove_all (path ∷ paths) = do
    failed ← outside P (P.system.remove path)
    if failed then report P ("Warning: failed to remove temp file " <> path <> "\n") else return tt
    remove_all paths

  unfoldable pub compile_fir_to_exe : List String → String → Drive P Bool
  compile_fir_to_exe irs output = do
    made ← compile_temps irs []
    elim made [
      | none ↦ return false
      | some temps ↦ do
        linked ← compile_fobj_to_exe P (temps ++ "_start.o" ∷ []) output
        remove_all temps
        return linked
    ]
