-- ===== src/Tests/Cli.antt =====
-- The command line over a toy console, whose world counts what is written.
use th_lang.Base.{ℕ, ◌+◌, String, ◌≡◌, refl, true, some, List, []}
use th_lang.Base.Dict.{lookup}
use th_lang.Cli.Console.{Console}
use th_lang.Cli.Package.{Package, members, read_package}
use th_lang.Cli.Commands.{complete}
use th_lang.Cli.Laws.{IsGiven, complete-returns, read_package-members}
use th_lang.Driver.Run.{returns}

abbrev toy_console : Console
toy_console = record {
  World = ℕ;
  File = Unit {0};
  Document = List (String × String);
  print = λ s w. w + 1;
  complain = λ s w. w + 1;
  getline = λ w. ("", w);
  create_directory = λ s w. (true, w);
  open_file = λ s w. (some tt, w);
  write = λ s f w. w + 1;
  close = λ f w. w;
  exists = λ s w. true;
  read_file = λ s w. ("{}", w);
  to_json = λ ms. "{}";
  parse_json = λ s. some [];
  get_string = λ k d. lookup k d;
}

abbrev bare : Package
bare = record {
  package_name = "p";
  version = "";
  description = "";
  entry_point = "";
  author = "";
  git_repository = "";
  url = "";
  license = "BSD";
}

complete-returns_example :
    (q : Package) × (w : ℕ) × (complete toy_console bare 0 ≡ returns q w)
    × IsGiven q.version
    × IsGiven q.entry_point
    × IsGiven q.license
    × (IsGiven bare.version → q.version ≡ bare.version)
    × (IsGiven bare.entry_point → q.entry_point ≡ bare.entry_point)
    × (IsGiven bare.license → q.license ≡ bare.license)
complete-returns_example = complete-returns toy_console bare 0

read_package-members_example : read_package toy_console (members bare) ≡ some (bare, members bare)
unfolding members
read_package-members_example = read_package-members toy_console bare (members bare) (λ k. refl)
