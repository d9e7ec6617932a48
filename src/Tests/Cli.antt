-- ===== src/Tests/Cli.antt =====
-- Examples of the command line, on a host with one file and the arenas of the examples of `process`.
use externref.Prelude.{◌≡◌, refl, [], ◌∷◌, none, some, ok, err, text}
use externref.Tests.Process.{arenas}
use externref.Cli.Run.{Went, run-Went}
use externref.Cli.{Cli, Host, run, ModuleAndName, split_once, is_ascii, from_str}
use externref.Cli.Name.{IsName, name_text, from_str-IsName}

abbrev drop_ref : ModuleAndName
drop_ref = record { module_name = text "test"; name = text "drop:ref" }

drop_ref-IsName : IsName drop_ref
unfolding split_once is_ascii
drop_ref-IsName = record {
  module_some = refl;
  module_ascii = refl;
  name_some = refl;
  name_ascii = refl;
  first = refl;
}

read_drop_ref : from_str (text "test::drop:ref") ≡ ok drop_ref
unfolding from_str split_once is_ascii
read_drop_ref = refl

from_str-IsName_example : (text "test::drop:ref" ≡ name_text drop_ref) × IsName drop_ref
from_str-IsName_example = from_str-IsName (text "test::drop:ref") drop_ref read_drop_ref

abbrev host : Host
host = record {
  stdin = ok (1 ∷ []);
  file = λ path. err 2;
  to_file = λ path bytes. ok tt;
  to_stdout = λ bytes. ok tt;
}

abbrev cli : Cli
cli = record {
  input = text "-";
  output = none;
  export_table = text "externrefs";
  drop_fn = some drop_ref;
}

run-Went_example : Went arenas host cli (run arenas host cli)
run-Went_example = run-Went arenas host cli
