-- ===== src/Mcp/Flow.antt =====
-- The search for a path of calls between two symbols (remy-cc/src/mcp/graph.rs, `bidir_bfs`), from both
-- ends at once. `adj_fwd` and `adj_bwd` are the two readings of one list of links.
pub mod Forest
pub mod Trail
pub mod Paths
use mathlib.Core.Option
use remy_cc.Prelude.{
  ℕ, zero, suc, ◌+◌, Bool, true, false, ◌&&◌, Option, none, some, List, [], ◌∷◌, ◌++◌, map, Text,
  text_eq, any_if, find_if, if◌then◌else◌, ltb, ◌==◌, length, collect,
}
use remy_cc.Mcp.Index.{EdgeRow, SymbolRow, Index, qualified, source_of}
use remy_cc.Mcp.Graph.{in_provenance}

pub record Link : Type 0 where
  pub source : ℕ
  pub target : ℕ
  pub provenance : Option Text
  pub via : Option Text

-- `name_to_id`: a later row of a name replaces an earlier one.
unfoldable pub id_of : List SymbolRow → Text → Option ℕ
id_of [] name = none
id_of (row ∷ rows) name = elim (id_of rows name) [
  | some id ↦ some id
  | none ↦ if text_eq (qualified row.file_path row.name) name then some row.id else none
]

unfoldable pub link_of : List SymbolRow → Bool → EdgeRow → Option Link
unfolding id_of in_provenance
link_of symbols static_only e =
    elim (if in_provenance static_only e then e.callee_qualified else none) [
      | none ↦ none
      | some callee ↦ elim (id_of symbols (source_of e)) [
        | none ↦ none
        | some src ↦ elim (id_of symbols callee) [
          | none ↦ none
          | some tgt ↦
              some (record { source = src; target = tgt; provenance = e.provenance; via = e.via })
        ]
      ]
    ]

unfoldable pub load_graph : Index → Bool → List Link
unfolding link_of collect
load_graph index static_only = collect (link_of index.symbols static_only) index.edges

-- An entry of a `ParentMap`; the map is a list, the newest entry first.
pub record Parent : Type 0 where
  pub node : ℕ
  pub parent : Option ℕ
  pub provenance : Option Text
  pub via : Option Text

abbrev pub ParentMap : Type 0
ParentMap = List Parent

abbrev pub root : ℕ → Parent
root n = record { node = n; parent = none; provenance = none; via = none }

unfoldable pub contains_key : ParentMap → ℕ → Bool
unfolding any_if
contains_key m n = any_if (λ p. p.node == n) m

unfoldable pub parent_of : ParentMap → ℕ → Option Parent
unfolding find_if
parent_of m n = find_if (λ p. p.node == n) m

unfoldable pub forward : ℕ → Link → Option Parent
forward n l =
    if l.source == n
    then some (record { node = l.target; parent = some n; provenance = l.provenance; via = l.via })
    else none

unfoldable pub backward : ℕ → Link → Option Parent
backward n l =
    if l.target == n
    then some (record { node = l.source; parent = some n; provenance = l.provenance; via = l.via })
    else none

-- The entries that `adj_fwd` and `adj_bwd` give for a node.
unfoldable pub adj_fwd : List Link → ℕ → List Parent
unfolding collect forward
adj_fwd links n = collect (forward n) links

unfoldable pub adj_bwd : List Link → ℕ → List Parent
unfolding collect backward
adj_bwd links n = collect (backward n) links

-- A scan of a front ends where the two searches meet, or with the entries and the next front.
pub data Scan : Type 0 where
  met : ℕ → ParentMap → Scan
  scanned : ParentMap → List ℕ → Scan

unfoldable pub insert_new : Parent → ParentMap → ParentMap
unfolding contains_key
insert_new p mine = if contains_key mine p.node then mine else p ∷ mine

unfoldable pub push_new : Parent → ParentMap → List ℕ → List ℕ
unfolding contains_key
push_new p mine next = if contains_key mine p.node then next else next ++ p.node ∷ []

unfoldable pub scan_node : List Parent → ParentMap → ParentMap → List ℕ → Scan
unfolding insert_new push_new contains_key
scan_node [] other mine next = scanned mine next
scan_node (p ∷ ps) other mine next = elim (contains_key other p.node) [
  | true ↦ met p.node (insert_new p mine)
  | false ↦ scan_node ps other (insert_new p mine) (push_new p mine next)
]

module _ (adjacent : ℕ → List Parent) where
  unfoldable pub scan_front : List ℕ → ParentMap → ParentMap → List ℕ → Scan
  unfolding scan_node
  scan_front [] other mine next = scanned mine next
  scan_front (n ∷ front) other mine next = elim (scan_node (adjacent n) other mine next) [
    | met t m ↦ met t m
    | scanned m found ↦ scan_front front other m found
  ]

pub record PathStep : Type 0 where
  pub node : ℕ
  pub provenance : Option Text
  pub via : Option Text

abbrev pub step_of : Parent → PathStep
step_of p = record { node = p.node; provenance = p.provenance; via = p.via }

-- The entries from a node on to the root; `none` is a missing key, which panics, or a run that is out
-- of fuel.
unfoldable pub ancestors : ℕ → ParentMap → Option ℕ → Option (List Parent)
unfolding parent_of
ancestors fuel m none = some []
ancestors zero m (some n) = none
ancestors (suc fuel) m (some n) = elim (parent_of m n) [
  | none ↦ none
  | some p ↦ Option.map (λ ps. p ∷ ps) (ancestors fuel m p.parent)
]

unfoldable pub reverse_onto : List PathStep → List Parent → List PathStep
reverse_onto acc [] = acc
reverse_onto acc (p ∷ ps) = reverse_onto (step_of p ∷ acc) ps

-- The provenance of the first link to a node.
unfoldable pub edge_to : List Parent → ℕ → PathStep
unfolding parent_of
edge_to links n = elim (parent_of links n) [
  | none ↦ record { node = n; provenance = none; via = none }
  | some p ↦ record { node = n; provenance = p.provenance; via = p.via }
]

unfoldable pub follow : List Link → ℕ → List Parent → List PathStep
unfolding adj_fwd edge_to
follow links prev [] = []
follow links prev (p ∷ ps) = edge_to (adj_fwd links prev) p.node ∷ follow links p.node ps

pub data Flow : Type 0 where
  no_path panicked : Flow
  path : List PathStep → Flow

unfoldable pub reconstruct_path : List Link → ℕ → ParentMap → ParentMap → Flow
unfolding ancestors parent_of reverse_onto follow
reconstruct_path links meet fwd bwd = elim (ancestors (length fwd) fwd (some meet)) [
  | none ↦ panicked
  | some fwd_half ↦ elim (ancestors (length bwd) bwd (some meet)) [
    | none ↦ panicked
    | some [] ↦ panicked
    | some (p ∷ bwd_half) ↦ path (reverse_onto (follow links meet bwd_half) fwd_half)
  ]
]

unfoldable pub is_empty : List ℕ → Bool
is_empty [] = true
is_empty (_ ∷ _) = false

module _ (links : List Link) (max_visited : ℕ) where
  unfoldable pub bidir_from : ℕ → ParentMap → ParentMap → List ℕ → List ℕ → Flow
  unfolding is_empty scan_front adj_fwd adj_bwd reconstruct_path
  bidir_from zero fwd bwd front_f front_b = no_path
  bidir_from (suc rounds) fwd bwd front_f front_b =
      elim (ltb max_visited (length fwd + length bwd)) [
        | true ↦ no_path
        | false ↦ elim (is_empty front_f && is_empty front_b) [
          | true ↦ no_path
          | false ↦ elim (scan_front (adj_fwd links) front_f bwd fwd []) [
            | met t fwd ↦ reconstruct_path links t fwd bwd
            | scanned fwd next_f ↦ elim (scan_front (adj_bwd links) front_b fwd bwd []) [
              | met s bwd ↦ reconstruct_path links s fwd bwd
              | scanned bwd next_b ↦ bidir_from rounds fwd bwd next_f next_b
            ]
          ]
        ]
      ]

  unfoldable pub bidir_bfs : ℕ → ℕ → ℕ → Flow
  unfolding bidir_from
  bidir_bfs src tgt max_depth =
      if src == tgt
      then path (step_of (root src) ∷ [])
      else bidir_from max_depth (root src ∷ []) (root tgt ∷ []) (src ∷ []) (tgt ∷ [])
