-- ===== src/Cli/Package.antt =====
-- A package's description, its members in JSON, and its texts.
use th_lang.Base.{String, ◌<>◌, List, [], ◌∷◌, Stateful, demand, pure, ◌>>=◌}
use th_lang.Cli.Console.{Console}

pub record Package : Type 0 where
  pub package_name : String
  pub version : String
  pub description : String
  pub entry_point : String
  pub author : String
  pub git_repository : String
  pub url : String
  pub license : String

unfoldable pub members : Package → List (String × String)
members p =
    ("package_name", p.package_name)
    ∷ ("version", p.version)
    ∷ ("description", p.description)
    ∷ ("entry_point", p.entry_point)
    ∷ ("author", p.author)
    ∷ ("git_repository", p.git_repository)
    ∷ ("url", p.url)
    ∷ ("license", p.license)
    ∷ []

unfoldable pub readme : Package → String
readme p =
    "# " <> p.package_name <> "\n## 项目简介" <> "\n" <> p.description <> "\n - 作者: " <> p.author
    <> "\n - 项目主页: " <> p.url <> "\n - 版本号: " <> p.version <> "\n - github地址: " <> p.git_repository
    <> "\n - 许可证:" <> p.license <> "\n\n## 使用方法:" <> "\n```sh" <> "\nthlang build main.th -o main"
    <> "\n./main" <> "\n```\n"

abbrev pub main_th : String
main_th = "整数型 入口(){\n    返回 0;\n}\n"

module _ (C : Console) where
  unfoldable pub get_member : String → Stateful C.Document String
  get_member key d = demand (C.get_string key d) d

  -- The members of a document, each of which must be there.
  unfoldable pub read_package : Stateful C.Document Package
  unfolding get_member
  read_package = do
    package_name ← get_member "package_name"
    version ← get_member "version"
    description ← get_member "description"
    entry_point ← get_member "entry_point"
    author ← get_member "author"
    git_repository ← get_member "git_repository"
    url ← get_member "url"
    license ← get_member "license"
    pure (record {
      package_name = package_name;
      version = version;
      description = description;
      entry_point = entry_point;
      author = author;
      git_repository = git_repository;
      url = url;
      license = license;
    })
