-- ===== src/Driver/Link.antt =====
-- `getDefaultLinkerName`, `link` and `compile_fobj_to_exe`.
use th_lang.Base.{String, ◌<>◌, str_eq, Bool, List, [], ◌∷◌, ◌++◌, if◌then◌else◌}
use th_lang.Driver.System.{
  System, Os, linux, freebsd, netbsd, openbsd, darwin, macosx, win32, wasi, other,
}
use th_lang.Driver.Compile.{Platform, Drive, outside}

-- The switch on the system.
unfoldable pub linker_name : Os → String
linker_name linux = "ld.lld"
linker_name freebsd = "ld.lld"
linker_name netbsd = "ld.lld"
linker_name openbsd = "ld.lld"
linker_name darwin = "ld64.lld"
linker_name macosx = "ld64.lld"
linker_name win32 = "lld-link"
linker_name wasi = "wasm-ld"
linker_name other = "ld.lld"

abbrev pub musl_path : String
musl_path = "../third_party/musl"

module _ (Y : System) where
  unfoldable pub default_linker_name : String
  unfolding linker_name
  default_linker_name = linker_name (Y.os_of Y.default_triple)

  -- The arguments that `link` adds for the target.
  unfoldable pub platform_args : String → List String
  platform_args triple =
      if Y.is_windows triple
      then "/subsystem:console" ∷ "/entry:mainCRTStartup" ∷ "kernel32.lib" ∷ "ucrt.lib"
        ∷ "legacy_stdio_definitions.lib" ∷ []
      else if Y.is_linux triple
      then "-static"
        ∷ "-lm"
        ∷ ("-L" <> musl_path <> "/lib")
        ∷ (musl_path <> "/lib/crt1.o")
        ∷ (musl_path <> "/lib/libc.a")
        ∷ []
      else if Y.is_macosx triple
      then "-lSystem" ∷ "-syslibroot" ∷ "/Library/Developer/CommandLineTools/SDKs/MacOSX.sdk" ∷ []
      else if Y.is_wasm32 triple
      then "--export-all" ∷ "--no-entry" ∷ "-allow-undefined" ∷ []
      else []

  -- The whole argument vector; an empty target stands for the default one.
  unfoldable pub link_args : List String → String → List String
  unfolding default_linker_name platform_args
  link_args args target =
      default_linker_name ∷ args
      ++ platform_args (if str_eq target "" then Y.default_triple else target)

module _ (P : Platform) where
  unfoldable pub link : List String → String → Drive P Bool
  unfolding outside
  link args target = outside P (P.system.lld_main (link_args P.system args target))

  unfoldable pub compile_fobj_to_exe : List String → String → Drive P Bool
  compile_fobj_to_exe objs output = link ("-o" ∷ output ∷ objs) ""
