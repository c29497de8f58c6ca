-- ===== src/Host.antt =====
-- What the daemon takes from outside its own sources: serde_json's values and their text, the file
-- system behind `std::fs`, and the clock. Every definition that uses one of them has it as an argument.
use remy_cc.Prelude.{ℕ, Bool, Option, Text, List, ◌≡◌, some}

-- A part of a path as `std::path::Path::components` gives it on Unix.
pub data Component : Type 0 where
  root_dir cur_dir parent_dir : Component
  normal : Text → Component

abbrev pub Components : Type 0
Components = List Component

pub record Host : Type 1 where
  -- serde_json::Value, to_string and from_str
  pub Value : Type 0
  pub to_string : Value → Option Text
  pub from_str : Text → Option Value
  -- the object that `json!` builds when a worker cannot be started, around the error's text
  pub spawn_failed : Text → Value
  -- Path::exists, Path::is_dir, fs::canonicalize
  pub exists : Components → Bool
  pub is_dir : Components → Bool
  pub canonicalize : Components → Option Text

-- serde_json reads back what it wrote.
pub record RoundTrips (host : Host) : Type 0 where
  pub from_str-to_string :
      (v : host.Value) {t : Text} → host.to_string v ≡ some t → host.from_str t ≡ some v

-- `Clock::now` in milliseconds since the Unix epoch; `none` is a time before it.
abbrev pub Reading : Type 0
Reading = Option ℕ
