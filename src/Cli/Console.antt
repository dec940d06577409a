-- ===== src/Cli/Console.antt =====
-- What the command line uses of the standard library, rapidjson and CLI11.
use th_lang.Base.{String, Bool, Option, List}

-- `World` is the outside world, streams and files included; `Document` a parsed JSON text.
pub record Console : Type 1 where
  pub World : Type 0
  pub File : Type 0
  pub Document : Type 0
  -- `std::cout <<`, `std::cerr <<` and `std::getline(std::cin, …)`.
  pub print : String → World → World
  pub complain : String → World → World
  pub getline : World → String × World
  -- `create_directory`, as whether it did not throw; an `ofstream` if it is open; `exists`; a whole
  -- `ifstream`.
  pub create_directory : String → World → Bool × World
  pub open_file : String → World → Option File × World
  pub write : String → File → World → World
  pub close : File → World → World
  pub exists : String → World → Bool
  pub read_file : String → World → String × World
  -- An object of text members as a `Writer` prints it; `Parse`, `none` for `HasParseError`; and
  -- `d[key].GetString()`, `none` if there is no such member or it is no text.
  pub to_json : List (String × String) → String
  pub parse_json : String → Option Document
  pub get_string : String → Document → Option String
