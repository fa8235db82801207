-- ===== src/Tests/Replies.antt =====
-- Replies of a model whose JSON decoder knows two texts.
use Prim.Native.Char.{code}
use browser_agent.Common.{◌≡◌, refl, ◌==◌, ◌||◌, some, str_eq, if◌then◌else◌}
use browser_agent.Json.{Json, str, obj, end, field}
use browser_agent.Agent.Effect.{ok, raised, exception}
use browser_agent.Agent.Reply.{Texts, strip_by, parse_json, classify_task}
use browser_agent.Agent.Reply.Fenced.{fenced, parse_json-fenced}
use browser_agent.Agent.Reply.Classified.{Classified, classify_task-Classified}

abbrev answer : Json
answer = obj (field "task_type" (str "Navigate") end)

abbrev texts : Texts
texts = record {
  is_space = λ c. (code c == b' ') || (code c == 10);
  lower = λ s. if str_eq s "Navigate" then "navigate" else s;
  loads = λ s.
      if str_eq s "{}"
      then ok (obj end)
      else (if str_eq s "{\"task_type\": \"Navigate\"}\n"
          then ok answer
          else raised (exception "JSONDecodeError"));
  tick_shows = refl;
  letter_shows = refl;
}

parse_json-fenced_example :
    parse_json texts (fenced texts "\n " "{}\n" " Done.")
    ≡ texts.loads (strip_by texts.is_space "{}\n")
parse_json-fenced_example =
    parse_json-fenced texts "\n " "{}\n" " Done." (refl, (refl, tt)) (refl, (refl, (refl, tt)))

navigates :
    classify_task texts (ok (some "```json\n{\"task_type\": \"Navigate\"}\n```")) ≡ "navigate"
unfolding classify_task
navigates = refl

classify_task-Classified_example :
    Classified texts
      (ok (some "```\n{\"task_type\": \"Login\"}\n```"))
      (classify_task texts (ok (some "```\n{\"task_type\": \"Login\"}\n```")))
classify_task-Classified_example =
    classify_task-Classified texts (ok (some "```\n{\"task_type\": \"Login\"}\n```"))
