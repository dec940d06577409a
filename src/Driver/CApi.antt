-- ===== src/Driver/CApi.antt =====
-- The `extern "C"` functions.
use th_lang.Base.{String, ◌<>◌, Bool, false, Option, none, some, List}
use th_lang.Base.Int.{ℤ, pos, negsuc}
use th_lang.Driver.Run.{return, catch, ◌>>=◌, ◌>>◌}
use th_lang.Driver.Compile.{
  Platform, Drive, report, compile_toir, compile_toir_from_file, compile_fir_to_asm,
  compile_fir_to_obj,
}
use th_lang.Driver.Link.{link, compile_fobj_to_exe}
use th_lang.Driver.Build.{compile_fir_to_exe}

module _ (P : Platform) where
  -- The catch block that all share: a message, then the failure value.
  unfoldable pub guarded : {A : Type 0} → A → Drive P A → Drive P A
  unfolding report
  guarded failure m = catch m (λ e. report P ("Exception occurred: " <> e) >> return failure)

  -- `nullptr` is `none`; the copy of the text is the text.
  unfoldable pub compile_code_to_ir : String → Drive P (Option String)
  unfolding guarded
  compile_code_to_ir code = guarded none (compile_toir P code >>= λ ir. return (some ir))

  unfoldable pub compile_code_to_ir_from_file : String → Drive P (Option String)
  unfolding guarded
  compile_code_to_ir_from_file path =
      guarded none (compile_toir_from_file P path >>= λ ir. return (some ir))

  unfoldable pub compile_code_fir_to_asm : String → P.system.File → Drive P ℤ
  unfolding guarded
  compile_code_fir_to_asm ir file =
      guarded (negsuc 0) (compile_fir_to_asm P ir file >> return (pos 0))

  unfoldable pub compile_code_fir_to_obj : String → P.system.File → Drive P ℤ
  unfolding guarded
  compile_code_fir_to_obj ir file =
      guarded (negsuc 0) (compile_fir_to_obj P ir file >> return (pos 0))

  -- The name of the output is not used.
  unfoldable pub link_code : List String → String → Drive P Bool
  unfolding guarded
  link_code objs output = guarded false (link P objs "")

  unfoldable pub compile_code_fobj_to_exe : List String → String → Drive P Bool
  unfolding guarded
  compile_code_fobj_to_exe objs output = guarded false (compile_fobj_to_exe P objs output)

  unfoldable pub compile_code_fir_to_exe : List String → String → Drive P Bool
  unfolding guarded
  compile_code_fir_to_exe irs output = guarded false (compile_fir_to_exe P irs output)
