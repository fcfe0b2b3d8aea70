-- ===== src/AgentLoop/Tests.antt =====
-- A concrete run of anima/kernel/agent_loop.py: one tool call, which leaves a file, and an answer.
use anima.AgentLoop.Alternation.{alternates}
use anima.Python.{ok, pure}
use anima.Prelude.{[], ◌∷◌, refl, true, none, some, zero, suc, ◌≡◌, ℕ, List}
use anima.AgentLoop.{
  Agent, Message, Reply, ToolCall, ToolResult, FileEntry, tool_call, tool_result, artifact, chunk,
  done, user, run, start, Artifact, ℕ, List, pure,
}
use anima.AgentLoop.Ending.{Finished, run-Finished}
use anima.AgentLoop.Sent.{InOrder, Sent, run-Sent}

abbrev call : ToolCall
call = record { call_id = "c1"; tool_name = "write_file"; arguments = "{}" }

abbrev wrote : ToolResult
wrote = record { output = 111 ∷ []; success = true; duration_ms = 1 }

-- The world counts the tool calls.
abbrev answer : ℕ → Reply
answer zero = record { content = none; tool_calls = call ∷ [] }
answer (suc n) = record { content = some (72 ∷ 101 ∷ 108 ∷ 108 ∷ 111 ∷ []); tool_calls = [] }

abbrev note : FileEntry
note = record {
  is_file = true;
  rel = "note.txt";
  path = "/w/note.txt";
  mime_type = some "text/plain";
  size = some 3;
}

abbrev files_of : ℕ → List FileEntry
files_of zero = []
files_of (suc n) = note ∷ []

abbrev agent : Agent ℕ Unit
agent = record {
  select = λ messages n. (ok (answer n), n);
  stream = λ messages n. (record { chunks = []; broke = none }, n);
  execute_tool = λ name params n. (ok wrote, suc n);
  listing = files_of;
  on_artifact = none;
  loads = λ arguments. some tt;
  no_params = tt;
  summarizer = record {
    complete = λ messages. pure [];
    summary_text = λ origin compressed summary. summary;
  };
}

abbrev question : List Message
question = record { role = user; content = some (63 ∷ []); tool_calls = []; tool_call_id = "" } ∷ []

question-InOrder : InOrder question
unfolding alternates
question-InOrder = refl

run-Sent_example : Sent agent 13 (run agent 0 question).1
run-Sent_example = run-Sent agent 0 question question-InOrder

run-Finished_example : Finished agent (start agent 0 question) (run agent 0 question)
run-Finished_example = run-Finished agent 0 question

abbrev note_artifact : Artifact
note_artifact = record {
  name = "note.txt";
  path = "/w/note.txt";
  mime_type = "text/plain";
  size_bytes = 3;
}

run_events :
    (run agent 0 question).1.events
    ≡ tool_call "c1" "write_file" tt
      ∷ tool_result "c1" "write_file" wrote
      ∷ artifact "" note_artifact
      ∷ chunk (72 ∷ 101 ∷ 108 ∷ 108 ∷ [])
      ∷ chunk (111 ∷ [])
      ∷ done
      ∷ []
unfolding run
run_events = refl
