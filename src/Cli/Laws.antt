-- ===== src/Cli/Laws.antt =====
-- What comes of the commands.
use th_lang.Base.{String, ◌≡◌, ◌≢◌, refl, Bool-cases, inl, inr, str_eq, eq_iff, some, arith}
use th_lang.Base.Dict.{lookup}
use th_lang.Cli.Console.{Console}
use th_lang.Cli.Package.{Package, members, get_member, read_package}
use th_lang.Cli.Files.{outside, effect}
use th_lang.Cli.Commands.{ask, complete}
use th_lang.Driver.Run.{returns}

-- An option that is not empty.
abbrev pub IsGiven : String → Type 0
IsGiven value = value ≢ ""

defaults_are_full : (IsGiven "1.0.0") × (IsGiven "main.th") × (IsGiven "MIT")
defaults_are_full = (
  λ e. ground (arith, e, eq_iff "1.0.0" ""),
  λ e. ground (arith, e, eq_iff "main.th" ""),
  λ e. ground (arith, e, eq_iff "MIT" ""),
)

module _ (C : Console) where
  -- What `ThInit` writes `ThInfo` reads: a document that answers each name as the members that are
  -- written for a package do is read as that package.
  pub read_package-members :
      (p : Package) (d : C.Document)
      → ((k : String) → C.get_string k d ≡ lookup k (members p))
      → read_package C d ≡ some (p, d)
  unfolding members read_package get_member
  read_package-members p d found = ground (
    arith,
    found "package_name",
    found "version",
    found "description",
    found "entry_point",
    found "author",
    found "git_repository",
    found "url",
    found "license",
  )

  pub ask-returns :
      (question default value : String) (w : C.World)
      → (answer : String) × (w' : C.World) × (ask C question default value w ≡ returns answer w')
        × (IsGiven value → answer ≡ value)
        × (IsGiven default → IsGiven answer)
  unfolding ask outside effect
  ask-returns question default value w = elim (Bool-cases (str_eq value "")) [
    | inl empty ↦
        let (typed, w') = C.getline (C.print question w) in
        elim (Bool-cases (str_eq typed "")) [
          | inl nothing ↦ (
            default,
            w',
            ground (arith, empty, nothing),
            λ given. absurd (ground (arith, given, empty, eq_iff value "")),
            λ some_. some_,
          )
          | inr something ↦ (
            typed,
            w',
            ground (arith, empty, something),
            λ given. absurd (ground (arith, given, empty, eq_iff value "")),
            λ some_ e. ground (arith, something, e, eq_iff typed ""),
          )
        ]
    | inr full ↦ (
      value,
      w,
      ground (arith, full),
      λ given. refl,
      λ some_ e. ground (arith, full, e, eq_iff value ""),
    )
  ]

  -- The questions for a new package come to an end, and it then has a version, an entry point and a
  -- license, those that were given where they were.
  pub complete-returns :
      (p : Package) (w : C.World)
      → (q : Package) × (w' : C.World) × (complete C p w ≡ returns q w')
        × (IsGiven q.version)
        × (IsGiven q.entry_point)
        × (IsGiven q.license)
        × (IsGiven p.version → q.version ≡ p.version)
        × (IsGiven p.entry_point → q.entry_point ≡ p.entry_point)
        × (IsGiven p.license → q.license ≡ p.license)
  unfolding complete
  complete-returns p w =
      let (version, w₁, e₁, kept₁, full₁) = ask-returns "版本号version:(1.0.0)" "1.0.0" p.version w in
      let (description, w₂, e₂, kept₂, full₂) = ask-returns "介绍description:" "" p.description w₁ in
      let (entry_point, w₃, e₃, kept₃, full₃) =
        ask-returns "入口文件entry_point:(main.th)" "main.th" p.entry_point w₂ in
      let (author, w₄, e₄, kept₄, full₄) = ask-returns "作者author:" "" p.author w₃ in
      let (git_repository, w₅, e₅, kept₅, full₅) =
        ask-returns "github仓库地址git repository:" "" p.git_repository w₄ in
      let (url, w₆, e₆, kept₆, full₆) = ask-returns "主页地址url:" "" p.url w₅ in
      let (license, w₇, e₇, kept₇, full₇) = ask-returns "许可证license:(MIT)" "MIT" p.license w₆ in
      (
        record {
          package_name = p.package_name;
          version = version;
          description = description;
          entry_point = entry_point;
          author = author;
          git_repository = git_repository;
          url = url;
          license = license;
        },
        w₇,
        ground (arith, e₁, e₂, e₃, e₄, e₅, e₆, e₇),
        full₁ defaults_are_full.0,
        full₃ defaults_are_full.1,
        full₇ defaults_are_full.2,
        kept₁,
        kept₃,
        kept₇,
      )
