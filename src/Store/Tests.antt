-- ===== src/Store/Tests.antt =====
-- Runs of the editor's store.
use strategy_builder_v.Prelude.{
  ℕ, ◌+◌, ◌≤◌, String, none, some, [], ◌∷◌, true, false, ◌≡◌, refl, length, map, inl, Bool, List,
  any, arith,
}
use strategy_builder_v.Prelude.Strings.{decimal}
use strategy_builder_v.Graph.{action, condition, on_true}
use strategy_builder_v.Shared.Schema.{scalar, str, FieldSchema}
use text.Mathlib.TextPositions.{eq_refl}
use strategy_builder_v.Store.{
  StepTypeOption, FlowEdge, FlowNode, ContextVariable, EditorState, initial, idle, config_tab,
}
use strategy_builder_v.Store.Defaults.{materialize_default_params}
use strategy_builder_v.Store.History.{max_history, undo}
use strategy_builder_v.Store.Edits.{add_node}
use strategy_builder_v.Store.Variables.{merge_editor_context_variables, merge_vault_context_slots}
use strategy_builder_v.Store.Variables.Merge.{merge_commutes}
use strategy_builder_v.Store.Actions.{Action, act, opened, acted}
use strategy_builder_v.Store.Actions.Bounded.{history_bounded}
use strategy_builder_v.Store.Actions.Reverted.{undo-act}
use strategy_builder_v.Store.Actions.Closed.{IsClosed, KeepsEnds, same_ends}
use strategy_builder_v.Store.Actions.Closed.Invariant.{act-IsClosed}
use strategy_builder_v.Store.Steps.{select}

abbrev step : StepTypeOption
step = record {
  id = "transfer";
  name = "Transfer";
  category = action;
  contract_address = "0xc";
  selector = "0xs";
  param_schema = none;
}

abbrev added : Action ℕ
added = Action.add 1000 step 3

abbrev chosen : FlowNode ℕ
chosen = record {
  id = "a";
  category = some condition;
  position = 0;
  selected = true;
  info = record {
    step_type_id = "t";
    step_type_name = "n";
    category = condition;
    contract_address = "c";
    selector = "s";
    params = [];
  };
}

abbrev looped : FlowEdge
looped = record {
  id = "e";
  source = "a";
  target = "a";
  source_handle = some on_true;
  label = none;
  stroke = none;
  selected = false;
}

abbrev shown : EditorState ℕ
shown = record {
  nodes = chosen ∷ [];
  edges = looped ∷ [];
  selected_node_id = none;
  label = "";
  description = "";
  validation_errors = [];
  owner_only = false;
  is_dirty = false;
  save_status = idle;
  past = [];
  future = [];
  clipboard = none;
  context_variables = [];
  active_tab = config_tab;
  step_schemas = [];
  token_decimals = [];
  vault_address = "";
  external_errors = [];
  node_counter = 0;
  scheduled = false;
  load_runs = 0;
}

abbrev time_field : FieldSchema
time_field = record {
  title = none;
  default_value = none;
  widget = some "context-slot";
  slot_access = some "read-write";
  zero_toggle = none;
}

defaults_run :
    materialize_default_params 0
      (some (record { properties = some (("slot", time_field) ∷ []); required = none }))
      "n1"
      none
    ≡ ("slot", scalar (str "__time_n1")) ∷ []
unfolding materialize_default_params
defaults_run = refl

add_node_runs : map (λ n. n.id) (add_node 0 step 3 shown).nodes ≡ "a" ∷ "node-1" ∷ []
unfolding add_node decimal
add_node_runs = refl

history_bounded_example :
    length (act added (initial ℕ)).past + length (act added (initial ℕ)).future ≤ max_history
history_bounded_example = history_bounded (act added (initial ℕ)) (acted added opened)

undo-act_example :
    ((undo (act Action.remove shown)).nodes ≡ shown.nodes)
    × ((undo (act Action.remove shown)).edges ≡ shown.edges)
undo-act_example = undo-act Action.remove shown (inl (λ h. absurd (cc)))

copied_IsClosed : IsClosed (act Action.copy shown)
copied_IsClosed =
    act-IsClosed Action.copy shown tt (record { graph = refl; past = tt; future = tt; clip = tt })

act-IsClosed_example : IsClosed (act (Action.paste_copy (λ p. p + 50) 7) (act Action.copy shown))
act-IsClosed_example =
    act-IsClosed (Action.paste_copy (λ p. p + 50) 7) (act Action.copy shown) tt copied_IsClosed

-- React Flow selects the edges: it keeps their ends.
marked : FlowEdge → FlowEdge
marked e = record e { selected = true }

any-more :
    {A : Type 0} (p : A → Bool) (x : A) (xs : List A) → any p xs ≡ true → any p (x ∷ xs) ≡ true
any-more p x xs h = ground (arith, h)

KeepsEnds-more :
    (e : FlowEdge) (before after : List FlowEdge)
    → KeepsEnds before after
    → KeepsEnds (e ∷ before) after
KeepsEnds-more e before [] h = tt
KeepsEnds-more e before (f ∷ after) h =
    (any-more (same_ends f) e before h.0, KeepsEnds-more e before after h.1)

KeepsEnds-marked : (edges : List FlowEdge) → KeepsEnds edges (map marked edges)
unfolding marked
KeepsEnds-marked [] = tt
KeepsEnds-marked (e ∷ edges) = (
  rw (eq_refl e.source, eq_refl e.target) refl,
  KeepsEnds-more e edges (map marked edges) (KeepsEnds-marked edges),
)

after_marking :
    IsClosed
      (act (Action.change_edges (map marked) (select "e1" true ∷ [])) (act Action.copy shown))
after_marking =
    act-IsClosed (Action.change_edges (map marked) (select "e1" true ∷ [])) (act Action.copy shown)
      KeepsEnds-marked copied_IsClosed

abbrev variable : ℕ → String → ContextVariable
variable i name = record {
  slot_index = i;
  name = name;
  type_name = "uint256";
  description = "";
  created_by = none;
}

merge_commutes_example :
    merge_vault_context_slots
      (variable 2 "b" ∷ variable 0 "a" ∷ [])
      (merge_editor_context_variables (variable 0 "c" ∷ []) shown)
    ≡ merge_editor_context_variables
        (variable 0 "c" ∷ [])
        (merge_vault_context_slots (variable 2 "b" ∷ variable 0 "a" ∷ []) shown)
merge_commutes_example =
    merge_commutes (variable 2 "b" ∷ variable 0 "a" ∷ []) (variable 0 "c" ∷ []) shown
