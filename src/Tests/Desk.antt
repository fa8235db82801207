-- ===== src/Tests/Desk.antt =====
-- A sample whose page is open, and the sealed session of one host.
use browser_agent.Common.{drop, ◌∷◌, none, String, ◌≡◌, refl, true, some, []}
use browser_agent.Json.{Fields, str, end, field}
use browser_agent.Agent.Effect.{exception, ok, raised}
use browser_agent.Queue.{Job}
use browser_agent.Credentials.Detect.{UrlParser}
use browser_agent.Credentials.StorageState.{Bytes, Cipher, save, load}
use browser_agent.Credentials.StorageState.Merged.{load-save}
use browser_agent.Orchestrator.Sample.{Sample, Scene, Host, run_one}
use browser_agent.Orchestrator.Sample.Audited.{Reported, run_one-Reported}
use browser_agent.Orchestrator.AgentPool.{Bench, execute_sample}
use browser_agent.Orchestrator.AgentPool.Rows.{Appends, execute_sample-Appends}
use browser_agent.Tests.Audit.{codec}
use browser_agent.Tests.Sample.{browser, deps}

abbrev parser : UrlParser
parser = record { hostname = λ url. ok (some "Example.org"); path = λ url. ok url; lower = λ s. s }

abbrev host : Host (Unit {0})
host = record {
  parser = parser;
  load_merged = λ w. (raised (exception "InvalidTag"), w);
  draw = λ w. (("u", "12:00"), w);
  acquire = λ sample_id state w. (ok browser, w);
  close = λ session w. w;
  start_cast = λ session w. (true, w);
  stop_cast = λ session w. w;
  deps = λ session. deps;
  describe = λ e. "TargetClosedError: ";
}

abbrev sample : Sample
sample = record {
  sample_id = "run-00000";
  row_index = some 0;
  input_data = end;
  start_url = some "https://example.org/login";
  run_id = some "run";
  task = end;
}

abbrev job : Job Sample
job = record { item_id = "a"; payload = sample; claim_token = "t"; attempts = 0 }

abbrev scene : Scene String (Unit {0})
scene = record { audit = []; world = tt }

run_one-Reported_example :
    Reported codec host sample []
      (run_one codec host "run" end job scene).0
      (run_one codec host "run" end job scene).1.audit
run_one-Reported_example = run_one-Reported codec host "run" end job scene

abbrev cookies : Fields
cookies = field "sid" (str "1") end

-- Texts that are marked in place of being enciphered.
abbrev cipher : Cipher
cipher = record {
  master_key = some "passphrase";
  b64decode_strict = λ raw. none;
  utf8 = λ raw. 112 ∷ [];
  hkdf = λ m.
      1 ∷ 2 ∷ 3 ∷ 4 ∷ 5 ∷ 6 ∷ 7 ∷ 8 ∷ 1 ∷ 2 ∷ 3 ∷ 4 ∷ 5 ∷ 6 ∷ 7 ∷ 8 ∷ 1 ∷ 2 ∷ 3 ∷ 4 ∷ 5 ∷ 6 ∷ 7 ∷ 8
      ∷ 1 ∷ 2 ∷ 3 ∷ 4 ∷ 5 ∷ 6 ∷ 7 ∷ 8 ∷ [];
  b64encode = λ b. b;
  b64decode = λ b. some b;
  encrypt = λ key nonce text. 0 ∷ text;
  decrypt = λ key nonce text. some (drop 1 text);
  dumps = λ state. 123 ∷ 125 ∷ [];
  loads = λ text. some cookies;
  isalnum = λ c. true;
  length-hkdf = λ m. refl;
  b64decode-b64encode = λ b. refl;
  decrypt-encrypt = λ key nonce text. refl;
}

abbrev nonce : Bytes
nonce = 1 ∷ 2 ∷ 3 ∷ 4 ∷ 5 ∷ 6 ∷ 7 ∷ 8 ∷ 9 ∷ 10 ∷ 11 ∷ 12 ∷ []

load-save_example :
    load cipher "github.com" (save cipher "github.com" cookies nonce []).1 ≡ ok (some cookies)
unfolding browser_agent.Storage.SafeName.replace_others
load-save_example =
    load-save cipher "github.com" "github.com" "passphrase" nonce cookies [] refl refl refl refl

abbrev bench : Bench String (Unit {0})
bench = record { scene = scene; samples_jsonl = none ∷ [] }

execute_sample-Appends_example :
    Appends
      (none ∷ [])
      (execute_sample codec host "agent-1" "run" end sample bench).0
      (execute_sample codec host "agent-1" "run" end sample bench).1.samples_jsonl
execute_sample-Appends_example = execute_sample-Appends codec host "agent-1" "run" end sample bench
