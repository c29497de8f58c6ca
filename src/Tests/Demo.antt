-- ===== src/Tests/Demo.antt =====
-- A small host: JSON values are their own text, every path exists and is its own canonical form.
use remy_cc.Prelude.{Text, codes, some, true, sym, [], ◌∷◌, ◌++◌, none}
use remy_cc.Host.{Host, RoundTrips, Components, normal}
use remy_cc.Job.{interactive}
use remy_cc.Store.Monad.{Store}
use remy_cc.Store.Submit.{SubmitJob}

abbrev path_text : Components → Text
path_text [] = []
path_text (normal p ∷ cs) = (b'/' ∷ p) ++ path_text cs
path_text (_ ∷ cs) = path_text cs

abbrev pub demo : Host
demo = record {
  Value = Text;
  to_string = λ v. some v;
  from_str = λ t. some t;
  spawn_failed = λ t. t;
  exists = λ _. true;
  is_dir = λ _. true;
  canonicalize = λ p. some (path_text p);
}

pub demo-RoundTrips : RoundTrips demo
demo-RoundTrips = record { from_str-to_string = λ v e. sym e }

abbrev pub empty_store : Store
empty_store = record { projects = []; jobs = []; published = none }

abbrev pub request : Text → SubmitJob
request file = record {
  project_path = codes "/repo";
  db_path = codes "/repo/db";
  file_path = file;
  priority = interactive;
}
