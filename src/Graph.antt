-- ===== src/Graph.antt =====
-- packages/frontend/src/features/automation-editor/lib/types.ts: the graph of an automation.
-- The parameters of a node are passed through unread, so their type is a parameter.
pub mod Bfs
pub mod Incoming
pub mod Validate
pub mod Wiring
pub mod Steps
pub mod Connect
mod Tests
use strategy_builder_v.Prelude.{ℕ, ◌-◌, ◌^◌, String, List, [], ◌∷◌, map, filter, if◌then◌else◌}
use text.Mathlib.Text.{◌==◌}

pub data StepCategory : Type 0 where
  condition action : StepCategory

pub data Handle : Type 0 where
  on_true on_false out : Handle

pub record NodeData (P : Type 0) : Type 0 where
  pub step_type_id : String
  pub label : String
  pub contract_address : String
  pub selector : String
  pub params : P

pub record GraphNode (P : Type 0) : Type 0 where
  pub id : String
  pub category : StepCategory
  pub info : NodeData P

pub record GraphEdge : Type 0 where
  pub id : String
  pub source : String
  pub target : String
  pub source_handle : Handle

-- `edgesBySource.get(id) ?? []`: the edges that leave `id`, in the order of `edges`.
abbrev pub out_edges : List GraphEdge → String → List GraphEdge
out_edges edges id = filter (λ e. e.source == id) edges

-- The targets of the edges that leave `id`.
abbrev pub targets : List GraphEdge → String → List String
targets edges id = map (λ e. e.target) (out_edges edges id)
