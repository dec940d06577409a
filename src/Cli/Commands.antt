-- ===== src/Cli/Commands.antt =====
-- `main`: the questions for a new package, and the command that is chosen.
use th_lang.Base.{ℕ, String, Bool, str_eq, List, [], ◌∷◌, if◌then◌else◌}
use th_lang.Cli.Console.{Console}
use th_lang.Cli.Package.{Package}
use th_lang.Cli.Files.{th_init, th_info, outside, effect}
use th_lang.Driver.Run.{returns, throws, exits, undefined, Run, return, ◌>>=◌, ◌>>◌}
use th_lang.Driver.Compile.{Platform, DriverState}
use th_lang.Driver.Build.{compile_from_files_to_exe}

-- What CLI11 makes of the arguments: the subcommands that were given, and their options. An option
-- that was not given is empty.
pub record Arguments : Type 0 where
  pub init : Bool
  pub info : Bool
  pub build : Bool
  pub given : Package
  pub files : List String
  pub output : String

-- `CLI11_PARSE` leaves `main` with a code for bad arguments and for `--help`.
pub data Parsed : Type 0 where
  stop : ℕ → Parsed
  go_on : Arguments → Parsed

module _ (C : Console) where
  -- An option that is empty is asked for, and gets its default if the answer is empty too.
  unfoldable pub ask : String → String → String → Run C.World String
  unfolding outside effect
  ask question default value =
      if str_eq value ""
      then (do
        effect C (C.print question)
        answer ← outside C C.getline
        return (if str_eq answer "" then default else answer))
      else return value

  unfoldable pub complete : Package → Run C.World Package
  unfolding ask
  complete p = do
    version ← ask "版本号version:(1.0.0)" "1.0.0" p.version
    description ← ask "介绍description:" "" p.description
    entry_point ← ask "入口文件entry_point:(main.th)" "main.th" p.entry_point
    author ← ask "作者author:" "" p.author
    git_repository ← ask "github仓库地址git repository:" "" p.git_repository
    url ← ask "主页地址url:" "" p.url
    license ← ask "许可证license:(MIT)" "MIT" p.license
    return (record {
      package_name = p.package_name;
      version = version;
      description = description;
      entry_point = entry_point;
      author = author;
      git_repository = git_repository;
      url = url;
      license = license;
    })

  module _ (P : Platform) where
    -- The console and the driver.
    pub record CliState : Type 0 where
      pub console : C.World
      pub driver : DriverState P

    unfoldable pub on_console : {A : Type 0} → Run C.World A → Run CliState A
    on_console m s = elim (m s.console) [
      | returns a w ↦ returns a (record s { console = w })
      | throws e w ↦ throws e (record s { console = w })
      | exits w ↦ exits (record s { console = w })
      | undefined ↦ undefined
    ]

    unfoldable pub on_driver : {A : Type 0} → Run (DriverState P) A → Run CliState A
    on_driver m s = elim (m s.driver) [
      | returns a d ↦ returns a (record s { driver = d })
      | throws e d ↦ throws e (record s { driver = d })
      | exits d ↦ exits (record s { driver = d })
      | undefined ↦ undefined
    ]

    unfoldable pub run_command : Arguments → Run CliState (Unit {0})
    unfolding on_console on_driver complete
    run_command a =
        if a.init
        then on_console (do p ← complete a.given; th_init C p)
        else if a.info
        then on_console (th_info C)
        else if a.build
        then (do built ← on_driver (compile_from_files_to_exe P a.files a.output); return tt)
        else return tt

    unfoldable pub cli_main : Parsed → Run CliState ℕ
    unfolding run_command
    cli_main (stop code) = return code
    cli_main (go_on a) = do run_command a; return 0

-- `main` of src/main.cpp.
unfoldable pub fixed_main : (P : Platform) → Run (DriverState P) ℕ
fixed_main P = do built ← compile_from_files_to_exe P ("main.th" ∷ []) "st_temp"; return 0
