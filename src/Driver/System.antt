-- ===== src/Driver/System.antt =====
-- What the driver uses of the C library, the operating system, LLVM and LLD.
use th_lang.Base.{ℕ, String, Bool, Option, List}
use th_lang.Parser.Scanner.{Match}

-- `Triple::OSType`, as far as the driver tells systems apart.
pub data Os : Type 0 where
  linux freebsd netbsd openbsd darwin macosx win32 wasi other : Os

pub data FileType : Type 0 where
  assembly_file object_file : FileType

-- `none` is a null pointer, an error code or -1. `World` is the outside world.
pub record System : Type 1 where
  pub World : Type 0
  pub File : Type 0
  pub Module : Type 0
  pub Target : Type 0
  pub Machine : Type 0
  -- `tmpfile`, `fputs`, `rewind`, `fclose`, `fdopen`, `fileno`, and a whole `ifstream`.
  pub tmpfile : World → Option File × World
  pub put_text : String → File → World → World
  pub rewind : File → World → World
  pub close_file : File → World → World
  pub fdopen : ℕ → World → Option File × World
  pub fileno : File → World → Option ℕ
  pub read_file : String → World → Option String × World
  -- The scanner's matcher over a file, read to its end.
  pub scan : File → World → List Match × World
  -- `strdup`, as whether it had the memory.
  pub strdup : String → World → Bool × World
  -- `temp_directory_path`, and LLVM's `createUniqueFile`, `openFileForWrite`, `closeFile`, `remove`
  -- (true if it failed) and `ExecuteAndWait`, as whether it returned 0.
  pub temp_directory : String
  pub create_unique_file : String → World → Option String × World
  pub open_for_write : String → World → Option ℕ × World
  pub close_descriptor : ℕ → World → World
  pub remove : String → World → Bool × World
  pub execute_and_wait : List String → World → Bool × World
  -- LLVM's IR parser and target side.
  pub parse_assembly : String → World → Option Module × World
  pub default_triple : String
  pub initialize_targets : World → World
  pub set_target_triple : String → Module → Module
  pub lookup_target : String → World → Option Target
  pub create_machine : Target → String → Machine
  pub set_data_layout : Machine → Module → Module
  -- `addPassesToEmitFile`, as whether it is refused, and `run` with `flush`.
  pub add_passes : Machine → FileType → ℕ → World → Bool × World
  pub run_passes : Machine → FileType → ℕ → Module → World → World
  -- `Triple`.
  pub os_of : String → Os
  pub is_windows : String → Bool
  pub is_linux : String → Bool
  pub is_macosx : String → Bool
  pub is_wasm32 : String → Bool
  -- `lldMain` on these arguments, as whether its `retCode` is 0.
  pub lld_main : List String → World → Bool × World
