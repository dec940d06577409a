-- ===== src/Tests/Driver.antt =====
-- The driver over a toy system: files are numbers, and the world counts the calls of the linker.
use th_lang.Base.{ℕ, ◌+◌, String, ◌≡◌, refl, true, false, none, some, []}
use th_lang.TypeSystem.{new_type_system}
use th_lang.Driver.System.{System, linux}
use th_lang.Driver.Compile.{Platform, DriverState}
use th_lang.Driver.Build.{extension}
use th_lang.Tests.Machine.{machine, blank, toy_library}

abbrev pub toy_system : System
toy_system = record {
  World = ℕ;
  File = ℕ;
  Module = String;
  Target = Unit {0};
  Machine = Unit {0};
  tmpfile = λ w. (some 3, w);
  put_text = λ s f w. w;
  rewind = λ f w. w;
  close_file = λ f w. w;
  fdopen = λ n w. (some n, w);
  fileno = λ f w. some f;
  read_file = λ s w. (none, w);
  scan = λ f w. ([], w);
  strdup = λ s w. (true, w);
  temp_directory = "/tmp/";
  create_unique_file = λ s w. (some "/tmp/temp-000001.o", w);
  open_for_write = λ s w. (some 4, w);
  close_descriptor = λ n w. w;
  remove = λ s w. (false, w);
  execute_and_wait = λ args w. (true, w);
  parse_assembly = λ s w. (some s, w);
  default_triple = "x86_64-unknown-linux-gnu";
  initialize_targets = λ w. w;
  set_target_triple = λ s m. m;
  lookup_target = λ s w. some tt;
  create_machine = λ t s. tt;
  set_data_layout = λ m x. x;
  add_passes = λ m t n w. (false, w);
  run_passes = λ m t n x w. w;
  os_of = λ s. linux;
  is_windows = λ s. false;
  is_linux = λ s. true;
  is_macosx = λ s. false;
  is_wasm32 = λ s. false;
  lld_main = λ args w. (true, w + 1);
}

abbrev pub toy : Platform
toy = record {
  llvm = machine;
  new_world = blank;
  print_module = λ w. "";
  library = toy_library;
  system = toy_system;
}

abbrev pub idle : DriverState toy
idle = record { world = 0; types = new_type_system; errors = [] }

object_extension : extension "dir.d/main.o" ≡ some "o"
unfolding extension
object_extension = refl
