-- ===== src/Agent/Tools.antt =====
-- src/andera/tools: `invoke` of _runner.py and `BrowserTools` of browser.py, over a browser session
-- that is a parameter (the protocol `BrowserSession` of src/andera/contracts/protocols.py; its
-- implementation drives Playwright). Call ids and timings of a result are left out.
use browser_agent.Common.{
  String, Bool, true, false, Option, none, some, List, [], ◌∷◌, str_eq, length,
}
use browser_agent.Json.{ℤ, pos, Json, num, str, arr, Fields, end, field, of_list}
use browser_agent.Agent.Effect.{Failure, ok, raised, Eff}

-- An element that the Set-of-Mark overlay has numbered.
pub record Mark : Type 0 where
  pub mark_id : ℤ
  pub role : String
  pub name : String
  pub href : String
  pub placeholder : String
  pub viewport_region : String

pub record Session (W : Type 0) : Type 0 where
  pub goto : String → Eff W Unit
  pub click : String → Eff W Unit
  pub fill : String → String → Eff W Unit
  -- the dump of the artifact that the store has put away
  pub screenshot : String → Bool → Option String → Eff W Json
  pub scroll : String → Eff W Fields
  pub scroll_to : String → Eff W Fields
  -- the request to the search service
  pub web_search : String → ℤ → Eff W Fields
  -- the visited pages and the dumps of their artifacts
  pub visit_each_link : String → ℤ → String → Option String → Eff W (List Json × List Json)
  pub screenshot_chunks : String → Option String → Eff W (List Json)
  pub extract : Fields → Eff W Fields
  pub snapshot : Eff W Fields
  pub mark_and_screenshot : String → Eff W (Json × List Mark)
  pub click_mark : ℤ → Eff W Unit
  pub type_mark : ℤ → String → Eff W Unit

-- What a tool hands back beside its other data: the dumps under "artifact" and "artifacts", the
-- marks under "marks".
pub record Output : Type 0 where
  pub fields : Fields
  pub artifacts : List Json
  pub marks : List Mark

pub record ToolResult : Type 0 where
  pub tool_name : String
  pub output : Output
  pub error : Option Failure

-- `status == "ok"`: a result has an error just if its status is "error".
abbrev pub is_ok : ToolResult → Bool
is_ok r = elim r.error [ none ↦ true | some e ↦ false ]

abbrev pub no_output : Output
no_output = record { fields = end; artifacts = []; marks = [] }

abbrev pub just_fields : Fields → Output
just_fields d = record { fields = d; artifacts = []; marks = [] }

module _ {W : Type 0} where
  -- `invoke`: a call that raises becomes a result with status "error".
  pub invoke : String → Eff W Output → W → ToolResult × W
  invoke name run w =
      let (r, w') = run w in
      elim r [
        | ok d ↦ (record { tool_name = name; output = d; error = none }, w')
        | raised e ↦ (record { tool_name = name; output = no_output; error = some e }, w')
      ]

  -- `await f(); return d`
  abbrev pub then_give : {A : Type 0} → Eff W A → (A → Output) → Eff W Output
  then_give m f w =
      let (r, w') = m w in elim r [ ok a ↦ (ok (f a), w') | raised e ↦ (raised e, w') ]

  module _ (s : Session W) where
    pub goto : String → W → ToolResult × W
    goto url =
        invoke "browser.goto"
          (then_give (s.goto url) (λ _. just_fields (field "url" (str url) end)))

    pub click : String → W → ToolResult × W
    click target =
        invoke "browser.click" (
          then_give (s.click target) (λ _. just_fields (field "selector_or_text" (str target) end)))

    pub type : String → String → W → ToolResult × W
    type selector value =
        invoke "browser.type" (
          then_give (s.fill selector value)
            (λ _. just_fields (field "selector" (str selector) end)))

    pub screenshot : String → String → Option String → W → ToolResult × W
    screenshot name mode folder = invoke "browser.screenshot" (
        then_give (s.screenshot name (str_eq mode "full") folder)
          (λ a. record { fields = field "mode" (str mode) end; artifacts = a ∷ []; marks = [] }))

    pub scroll : String → W → ToolResult × W
    scroll amount = invoke "browser.scroll" (then_give (s.scroll amount) just_fields)

    pub scroll_to : String → W → ToolResult × W
    scroll_to target = invoke "browser.scroll_to" (then_give (s.scroll_to target) just_fields)

    pub web_search : String → ℤ → W → ToolResult × W
    web_search query limit =
        invoke "browser.search" (then_give (s.web_search query limit) just_fields)

    pub visit_each_link : String → ℤ → String → Option String → W → ToolResult × W
    visit_each_link url_pattern limit name_template folder = invoke "browser.visit_each_link" (
        then_give (s.visit_each_link url_pattern limit name_template folder)
          (λ (visited, artifacts). record {
            fields = field "visited" (arr (of_list visited)) end;
            artifacts = artifacts;
            marks = [];
          }))

    pub screenshot_all : String → Option String → W → ToolResult × W
    screenshot_all name folder = invoke "browser.screenshot_all" (
        then_give (s.screenshot_chunks name folder) (λ artifacts. record {
          fields = field "chunks" (num (pos (length artifacts))) end;
          artifacts = artifacts;
          marks = [];
        }))

    pub extract : Fields → W → ToolResult × W
    extract json_schema = invoke "browser.extract" (then_give (s.extract json_schema) just_fields)

    pub snapshot : W → ToolResult × W
    snapshot = invoke "browser.snapshot" (then_give s.snapshot just_fields)

    pub annotate : String → W → ToolResult × W
    annotate name = invoke "browser.annotate" (
        then_give (s.mark_and_screenshot name) (λ (a, marks). record {
          fields = field "count" (num (pos (length marks))) end;
          artifacts = a ∷ [];
          marks = marks;
        }))

    pub click_mark : ℤ → W → ToolResult × W
    click_mark mark_id =
        invoke "browser.click_mark"
          (then_give (s.click_mark mark_id) (λ _. just_fields (field "mark_id" (num mark_id) end)))

    pub type_mark : ℤ → String → W → ToolResult × W
    type_mark mark_id value = invoke "browser.type_mark" (
        then_give (s.type_mark mark_id value)
          (λ _. just_fields (field "mark_id" (num mark_id) end)))
