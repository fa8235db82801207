-- ===== src/Agent/Graph.antt =====
-- src/andera/agent/graph.py: the state machine that `build_graph` wires, and its routers of
-- nodes.py. LangGraph is taken as what the file asks of it: it runs one node after another along
-- the edges, and stops with an error when `recursion_limit` nodes have run.
pub mod Termination
pub mod ToolError
pub mod BadStep
use browser_agent.Common.{
  ℕ, zero, suc, String, Bool, true, false, Option, none, some, List, [], ◌∷◌, leb, if◌then◌else◌,
  get_elem?, length,
}
use browser_agent.Agent.Effect.{Failure, Result, ok, raised, Eff}
use browser_agent.Agent.State.{
  State, Deps, Status, pending, acting, verifying, extracting, judging, replanning, done, failed,
}
use browser_agent.Agent.Plan.{classify_node, plan_node}
use browser_agent.Agent.Act.{act_node}
use browser_agent.Agent.Verify.{observe_node, verify_node}
use browser_agent.Agent.Extract.{extract_node, judge_node}

pub data Node : Type 0 where
  classify plan act observe verify extract judge : Node

-- Where the graph goes after a node; `stop` is END.
pub data Next : Type 0 where
  goes : Node → Next
  stop : Next

abbrev pub route_after_plan : State → Next
route_after_plan s = elim s.status [ failed ↦ stop | _ ↦ goes act ]

abbrev pub route_after_act : State → Next
route_after_act s = elim s.status [ failed ↦ stop | extracting ↦ goes extract | _ ↦ goes observe ]

abbrev pub route_after_verify : State → Next
route_after_verify s = elim s.status [
  | failed ↦ stop
  | replanning ↦ goes plan
  | _ ↦ if leb (length s.plan) s.step_index then goes extract else goes act
]

abbrev pub route_after_extract : State → Next
route_after_extract s = elim s.status [ failed ↦ stop | _ ↦ goes judge ]

abbrev pub route_after_judge : State → Next
route_after_judge s = elim s.status [ extracting ↦ goes extract | _ ↦ stop ]

-- The edges of `build_graph`.
pub next : Node → State → Next
next classify s = goes plan
next plan s = route_after_plan s
next act s = route_after_act s
next observe s = goes verify
next verify s = route_after_verify s
next extract s = route_after_extract s
next judge s = route_after_judge s

-- How a run of the graph ends.
pub data Outcome : Type 0 where
  final : State → Outcome
  crashed : Failure → Outcome
  recursion_limit_reached : Outcome

module _ {W : Type 0} (deps : Deps W) where
  pub node : Node → State → Eff W State
  node classify = classify_node deps
  node plan = plan_node deps
  node act = act_node deps
  node observe = observe_node deps
  node verify = verify_node deps
  node extract = extract_node deps
  node judge = judge_node deps

  -- The run from a node on, with the number of nodes that the limit still allows.
  pub run_from : ℕ → Node → State → W → Outcome × W
  run_from zero n s w = (recursion_limit_reached, w)
  run_from (suc limit) n s w =
      let (r, w') = node n s w in
      elim r [
        | raised e ↦ (crashed e, w')
        | ok s' ↦ elim (next n s') [ stop ↦ (final s', w') | goes m ↦ run_from limit m s' w' ]
      ]

  -- `run_sample`
  pub run_sample : ℕ → State → W → Outcome × W
  unfolding run_from
  run_sample recursion_limit = run_from recursion_limit classify
