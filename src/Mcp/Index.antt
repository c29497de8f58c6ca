-- ===== src/Mcp/Index.antt =====
-- The tables of the index database that remy-cc/src/mcp/graph.rs reads, as lists of rows.
use remy_cc.Prelude.{ℕ, Option, Text, List, ◌++◌, codes}

pub record EdgeRow : Type 0 where
  pub id : ℕ
  pub source_file : Text
  pub caller : Text
  pub callee_qualified : Option Text
  pub provenance : Option Text
  pub via : Option Text

-- A row of `edge_candidates`.
pub record Candidate : Type 0 where
  pub edge_id : ℕ
  pub candidate_qualified : Text

pub record SymbolRow : Type 0 where
  pub id : ℕ
  pub file_path : Text
  pub name : Text
  pub short_name : Option Text
  pub lineno : Option ℕ
  pub type : Text

pub record Index : Type 0 where
  pub files : List Text
  pub symbols : List SymbolRow
  pub edges : List EdgeRow
  pub edge_candidates : List Candidate

-- `file || '::' || name`
abbrev pub qualified : Text → Text → Text
qualified file name = file ++ codes "::" ++ name

abbrev pub source_of : EdgeRow → Text
source_of e = qualified e.source_file e.caller
