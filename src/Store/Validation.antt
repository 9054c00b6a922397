-- ===== src/Store/Validation.antt =====
-- `runValidation` of editor-store.ts and what leads to it. `validateParams` is an argument.
use strategy_builder_v.Prelude.{
  ℕ, String, Option, none, some, List, [], ◌∷◌, ◌++◌, Bool, true, false, not, map, filter,
}
use strategy_builder_v.Prelude.Names.{get_key}
use strategy_builder_v.Prelude.Result.{Result, ok, err}
use strategy_builder_v.Graph.{StepCategory, condition, action, Handle, out, GraphNode, GraphEdge}
use strategy_builder_v.Graph.Connect.{ConnectError}
use strategy_builder_v.Graph.Incoming.{is_unlinked}
use strategy_builder_v.Graph.Validate.{ValidationError, validate_graph}
use strategy_builder_v.Shared.Schema.{Params, ParamSchema, ParamValidationError}
use strategy_builder_v.Store.{FlowEdge, FlowNode, EditorState}

-- `validateParams` in its friendly mode, with the decimals of the tokens.
abbrev pub ValidateParams : Type 0
ValidateParams = ParamSchema → Params → List (String × ℕ) → List ParamValidationError

-- `n.type ?? 'ACTION'`
abbrev pub or_action : Option StepCategory → StepCategory
or_action none = action
or_action (some category) = category

abbrev pub or_out : Option Handle → Handle
or_out none = out
or_out (some handle) = handle

unfoldable pub to_graph_edges : List FlowEdge → List GraphEdge
to_graph_edges edges =
    map
      (λ e. record {
        id = e.id;
        source = e.source;
        target = e.target;
        source_handle = or_out e.source_handle;
      })
      edges

is_action_node : Option StepCategory → Bool
is_action_node none = false
is_action_node (some condition) = false
is_action_node (some action) = true

module _ {P : Type 0} where
  unfoldable pub to_graph_nodes : List (FlowNode P) → List (GraphNode Params)
  to_graph_nodes nodes =
      map
        (λ n. record {
          id = n.id;
          category = or_action n.category;
          info = record {
            step_type_id = n.info.step_type_id;
            label = n.info.step_type_name;
            contract_address = n.info.contract_address;
            selector = n.info.selector;
            params = n.info.params;
          };
        })
        nodes

  single_action : List (FlowNode P) → Bool
  unfolding is_action_node
  single_action [] = false
  single_action (n ∷ []) = is_action_node n.category
  single_action (n ∷ m ∷ rest) = false

  -- `inferOwnerOnly` of the store.
  unfoldable pub store_owner_only : List (FlowNode P) → List FlowEdge → Bool
  unfolding single_action to_graph_edges
  store_owner_only nodes edges =
      single_action
        (filter (λ n. is_unlinked (map (λ n. n.id) nodes) (to_graph_edges edges) n.id) nodes)

  -- The errors of one node; a step type without a schema has none.
  node_errors :
      ValidateParams
      → List (String × ℕ)
      → FlowNode P
      → Option (Option ParamSchema)
      → List ValidationError
  node_errors validate decimals n (some (some schema)) =
      map (λ e. record { message = e.message; node_id = some n.id; field_name = some e.field })
        (validate schema n.info.params decimals)
  node_errors validate decimals n (some none) = []
  node_errors validate decimals n none = []

  unfoldable pub validate_node_params :
      ValidateParams
      → List (FlowNode P)
      → List (String × Option ParamSchema)
      → List (String × ℕ)
      → List ValidationError
  unfolding node_errors
  validate_node_params validate [] schemas decimals = []
  validate_node_params validate (n ∷ nodes) schemas decimals =
      node_errors validate decimals n (get_key n.info.step_type_id schemas)
      ++ validate_node_params validate nodes schemas decimals

  unfoldable pub validated :
      Bool
      → List ValidationError
      → Result ConnectError (List ValidationError)
      → EditorState P
      → EditorState P
  validated owner_only param_errors (err e) s = s
  validated owner_only param_errors (ok graph_errors) s = record s {
    validation_errors = graph_errors ++ (param_errors ++ s.external_errors);
    owner_only = owner_only;
  }

  -- Where validateGraph throws, nothing is set.
  unfoldable pub run_validation : ValidateParams → EditorState P → EditorState P
  unfolding validated store_owner_only to_graph_nodes to_graph_edges validate_node_params
  run_validation validate s =
      let owner_only = store_owner_only s.nodes s.edges in
      validated owner_only (validate_node_params validate s.nodes s.step_schemas s.token_decimals)
        (validate_graph (to_graph_nodes s.nodes) (to_graph_edges s.edges) (not owner_only)) s

  -- The timer of `scheduleValidation`, and that of `loadEditorState`.
  unfoldable pub fire_timer : ValidateParams → EditorState P → EditorState P
  unfolding run_validation
  fire_timer validate s = run_validation validate (record s { scheduled = false })

  unfoldable pub set_external_errors :
      ValidateParams → List ValidationError → EditorState P → EditorState P
  unfolding run_validation
  set_external_errors validate errors s =
      run_validation validate (record s { external_errors = errors })
