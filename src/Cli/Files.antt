-- ===== src/Cli/Files.antt =====
-- The files of a package, and what is shown of it.
use th_lang.Base.{String, ◌<>◌, Bool, true, false, Option, none, some, if◌then◌else◌}
use th_lang.Cli.Console.{Console}
use th_lang.Cli.Package.{Package, members, readme, main_th, read_package}
use th_lang.Driver.Run.{Run, returns, exits, throw, return, ◌>>=◌, ◌>>◌}

module _ (C : Console) where
  unfoldable pub outside : {A : Type 0} → (C.World → A × C.World) → Run C.World A
  outside f w = let (a, w') = f w in returns a w'

  unfoldable pub effect : (C.World → C.World) → Run C.World (Unit {0})
  effect f w = returns tt (f w)

  -- A file with this text: `false` if it could not be opened.
  unfoldable pub write_file : String → String → Run C.World Bool
  unfolding outside effect
  write_file path text = do
    opened ← outside (C.open_file path)
    elim opened [
      | none ↦ return false
      | some file ↦ do effect (C.write text file); effect (C.close file); return true
    ]

  unfoldable pub th_init : Package → Run C.World (Unit {0})
  unfolding outside effect members readme write_file
  th_init p = do
    let json = C.to_json (members p)
    made ← outside (C.create_directory p.package_name)
    if made
        then (do
          opened ← outside (C.open_file (p.package_name <> "/ThlangProject.json"))
          elim opened [
            | none ↦ effect (C.complain "文件 ThlangProject.json 写入失败！\n")
            | some file ↦ do
              effect (
                  C.print
                    ("下列文件内容将被写入" <> p.package_name <> "/ThlangProject.json:\n" <> json <> "\n"))
              effect (C.write json file)
              effect (C.print "Done...\n")
              effect (C.close file)
              described ← write_file (p.package_name <> "/Readme.md") (readme p)
              if described
                  then (do
                    entered ← write_file (p.package_name <> "/" <> p.entry_point) main_th
                    if entered
                        then return tt
                        else effect (C.complain (p.entry_point <> " 写入失败!\n")))
                  else effect (C.complain "Readme.md 写入失败!\n")
          ])
        else throw "filesystem_error"

  unfoldable pub show_package : Package → Run C.World (Unit {0})
  unfolding effect
  show_package p = do
    effect (C.print ("包名 package_name: " <> p.package_name <> "\n"))
    effect (C.print ("版本号 version: " <> p.version <> "\n"))
    effect (C.print ("介绍 description: " <> p.description <> "\n"))
    effect (C.print ("入口文件 entry_point: " <> p.entry_point <> "\n"))
    effect (C.print ("作者 author: " <> p.author <> "\n"))
    effect (C.print ("仓库地址 git_repository: " <> p.git_repository <> "\n"))
    effect (C.print ("主页 url: " <> p.url <> "\n"))
    effect (C.print ("许可证 license: " <> p.license <> "\n"))

  -- A member that is not there fails rapidjson's assertion, which ends the process.
  unfoldable pub show_document : Option C.Document → Run C.World (Unit {0})
  unfolding effect read_package show_package
  show_document none = effect (C.complain "JSON 解析错误！\n")
  show_document (some d) = elim (read_package C d) [ none ↦ exits | some (p, d') ↦ show_package p ]

  unfoldable pub th_info : Run C.World (Unit {0})
  unfolding outside effect show_document
  th_info = do
    found ← λ w. returns (C.exists "ThlangProject.json" w) w
    if found
        then (do
          content ← outside (C.read_file "ThlangProject.json")
          show_document (C.parse_json content))
        else effect (C.complain "文件 ThlangProject.json 不存在！\n请尝试init创建项目\n")
