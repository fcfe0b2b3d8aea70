-- ===== src/AgentLoop.antt =====
-- anima/kernel/agent_loop.py: the rounds of model calls and tool calls. The model, the tools, the
-- files of the workspace and the artifact callback are an `Agent` over a world `W`; the generator is
-- an action on a `Session`, which keeps the events that it has yielded and the messages of each call
-- of the model, oldest first.
pub mod Conversation
pub mod Interface
pub mod Turns
pub mod Alternation
pub mod Spoken
pub mod Calls
pub mod Ending
pub mod Prompts
pub mod Sent
mod Tests
use anima.Python.{ok, ◌>>=◌, ◌>>◌, Action, Exn, modify, pure, gets, Outcome, try_except}
use anima.Prelude.{
  [], ◌∷◌, true, false, none, some, zero, suc, Option, Bool, String, List, ℕ, contains, strip,
  or_default, not, if◌then◌else◌, ◌||◌, ◌++◌, ltb, length,
}
unfoldable pub use Conversation.*
pub use Interface.*

abbrev pub max_tool_rounds : ℕ
max_tool_rounds = 12

abbrev pub artifact_of : FileEntry → ℕ → Artifact
artifact_of f size = record {
  name = f.rel;
  path = f.path;
  mime_type = or_default f.mime_type "application/octet-stream";
  size_bytes = size;
}

-- `_detect_artifacts`: an `OSError` ends the scan, with its file among the known ones.
unfoldable pub detect_artifacts : List FileEntry → List String → List Artifact × List String
unfolding contains
detect_artifacts [] known_files = ([], known_files)
detect_artifacts (f ∷ files) known_files = elim (not f.is_file || contains known_files f.rel) [
  | true ↦ detect_artifacts files known_files
  | false ↦ elim f.size [
    | none ↦ ([], f.rel ∷ known_files)
    | some size ↦
        let (artifacts, known) = detect_artifacts files (f.rel ∷ known_files) in
        (artifact_of f size ∷ artifacts, known)
  ]
]

-- `text_content[i:i + chunk_size]` for `i` in steps of four
unfoldable pub chunks_of : Text → List Text
chunks_of [] = []
chunks_of (a ∷ b ∷ c ∷ d ∷ text) = (a ∷ b ∷ c ∷ d ∷ []) ∷ chunks_of text
chunks_of text = text ∷ []

abbrev pub call_back :
    {W : Type 0} → Option (Artifact → Action W String) → Artifact → Action W String
call_back none af = pure ""
call_back (some on_artifact) af = try_except (on_artifact af) (λ e. pure "")

module _ {W P : Type 0} where
  abbrev pub in_world : {A : Type 0} → Action W A → Action (Session W P) A
  in_world m s = let (r, w) = m s.world in (r, record s { world = w })

  -- `yield`
  abbrev pub emit : Event P → Action (Session W P) Unit
  emit event = modify (λ s. record s { events = s.events ++ event ∷ [] })

  abbrev pub append_message : Message → Action (Session W P) Unit
  append_message m = modify (λ s. record s { working_messages = s.working_messages ++ m ∷ [] })

  unfoldable pub emit_chunks : List Text → Action (Session W P) Unit
  emit_chunks [] = pure tt
  emit_chunks (text ∷ chunks) = emit (chunk text) >> emit_chunks chunks

  abbrev pub emit_error : Option Exn → Action (Session W P) Unit
  emit_error none = pure tt
  emit_error (some e) = emit (error e)

module _ {W P : Type 0} (agent : Agent W P) where
  abbrev pub note_asked : Action (Session W P) Unit
  note_asked = modify (λ s. record s { asked = s.asked ++ s.working_messages ∷ [] })

  -- `_llm_stream_final` and the loop over it, with its `except`
  unfoldable pub stream_final : Action (Session W P) Unit
  unfolding emit_chunks
  stream_final = do
    note_asked
    streamed ← λ s.
        let (streamed, w) = agent.stream s.working_messages s.world in
        (ok streamed, record s { world = w })
    emit_chunks streamed.chunks
    emit_error streamed.broke

  unfoldable pub report_artifacts : List Artifact → Action (Session W P) Unit
  report_artifacts [] = pure tt
  report_artifacts (af ∷ artifacts) = do
    artifact_id ← in_world (call_back agent.on_artifact af)
    emit (artifact artifact_id af)
    report_artifacts artifacts

  -- `_detect_artifacts(workdir, existing)`
  unfoldable pub new_artifacts : Action (Session W P) (List Artifact)
  unfolding detect_artifacts
  new_artifacts s =
      let (artifacts, existing) = detect_artifacts (agent.listing s.world) s.existing in
      (ok artifacts, record s { existing = existing })

  abbrev pub result_message : ToolCall → ToolResult → Message
  result_message tc result = record {
    role = tool;
    content = some result.output;
    tool_calls = [];
    tool_call_id = tc.call_id;
  }

  -- What follows a call that returned.
  unfoldable pub after_call : ToolCall → ToolResult → Action (Session W P) Unit
  unfolding new_artifacts report_artifacts
  after_call tc result = do
    emit (tool_result tc.call_id tc.tool_name result)
    append_message (result_message tc result)
    new_files ← new_artifacts
    report_artifacts new_files

  unfoldable pub run_call : ToolCall → Action (Session W P) Unit
  unfolding after_call
  run_call tc = do
    let params = or_default (agent.loads tc.arguments) agent.no_params
    emit (tool_call tc.call_id tc.tool_name params)
    result ← in_world (agent.execute_tool tc.tool_name params)
    after_call tc result

  unfoldable pub run_calls : List ToolCall → Action (Session W P) Unit
  unfolding run_call
  run_calls [] = pure tt
  run_calls (tc ∷ tool_calls) = run_call tc >> run_calls tool_calls

  unfoldable pub compress_long : Action (Session W P) Unit
  unfolding compress_working_messages
  compress_long s =
      if ltb compress_threshold (length s.working_messages)
      then (do
        messages ← in_world (compress_working_messages agent.summarizer s.working_messages)
        modify (λ t. record t { working_messages = messages }))
          s
      else (ok tt, s)

  -- `_llm_tool_call`; an exception is yielded, and ends the run.
  unfoldable pub select : Action (Session W P) (Option Reply)
  select = do
    note_asked
    s ← gets (λ s. s)
    try_except (in_world (agent.select s.working_messages) >>= λ reply. pure (some reply))
        (λ e. emit (error e) >> pure none)

  abbrev pub say : Text → Action (Session W P) Unit
  say [] = stream_final
  say (c ∷ text) = emit_chunks (chunks_of (c ∷ text))

  abbrev pub none_if_empty : Text → Option Text
  none_if_empty [] = none
  none_if_empty (c ∷ text) = some (c ∷ text)

  abbrev pub text_of : Reply → Text
  text_of reply = strip (or_default reply.content [])

  abbrev pub assistant_message : Reply → Message
  assistant_message reply = record {
    role = assistant;
    content = none_if_empty (text_of reply);
    tool_calls = reply.tool_calls;
    tool_call_id = "";
  }

  -- What follows the answer of the model; `rest` are the rounds that are left.
  unfoldable pub after_answer :
      Action (Session W P) Unit → Reply → List ToolCall → Action (Session W P) Unit
  unfolding stream_final emit_chunks chunks_of run_calls strip
  after_answer rest reply [] = say (text_of reply) >> emit done
  after_answer rest reply (tc ∷ tool_calls) = do
    append_message (assistant_message reply)
    run_calls (tc ∷ tool_calls)
    rest

  unfoldable pub after_reply : Action (Session W P) Unit → Option Reply → Action (Session W P) Unit
  unfolding after_answer
  after_reply rest none = pure tt
  after_reply rest (some reply) = after_answer rest reply reply.tool_calls

  -- The loop of `_run`, and what follows it.
  unfoldable pub rounds : ℕ → Action (Session W P) Unit
  unfolding stream_final compress_long select after_reply
  rounds zero = stream_final >> emit done
  rounds (suc n) = do compress_long; reply ← select; after_reply (rounds n) reply

  abbrev pub start : W → List Message → Session W P
  start world messages = record {
    world = world;
    working_messages = messages;
    existing = (detect_artifacts (agent.listing world) []).1;
    events = [];
    asked = [];
  }

  -- `_run`
  unfoldable pub run : W → List Message → Outcome Unit × Session W P
  unfolding rounds detect_artifacts
  run world messages = rounds max_tool_rounds (start world messages)
