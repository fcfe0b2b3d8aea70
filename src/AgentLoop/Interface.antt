-- ===== src/AgentLoop/Interface.antt =====
-- What a run of anima/kernel/agent_loop.py calls, keeps and yields.
use anima.Python.{Exn, Action}
use anima.Prelude.{Option, Bool, String, List, ℕ}
use anima.AgentLoop.Conversation.{Text, Message, ToolCall, Summarizer}

pub record Reply : Type 0 where
  pub content : Option Text
  pub tool_calls : List ToolCall

pub record ToolResult : Type 0 where
  pub output : Text
  pub success : Bool
  pub duration_ms : ℕ

-- A path below the workspace, in the order of `rglob`; `size` is `none` where `stat` raises.
pub record FileEntry : Type 0 where
  pub is_file : Bool
  pub rel : String
  pub path : String
  pub mime_type : Option String
  pub size : Option ℕ

pub record Artifact : Type 0 where
  pub name : String
  pub path : String
  pub mime_type : String
  pub size_bytes : ℕ

-- What a streamed answer yields, and the exception that breaks it off.
pub record Streamed : Type 0 where
  pub chunks : List Text
  pub broke : Option Exn

pub data Event (P : Type 0) : Type 0 where
  tool_call : String → String → P → Event P
  tool_result : String → String → ToolResult → Event P
  chunk : Text → Event P
  artifact : String → Artifact → Event P
  error : Exn → Event P
  done : Event P

pub record Agent (W P : Type 0) : Type 0 where
  pub select : List Message → Action W Reply
  pub stream : List Message → W → Streamed × W
  pub execute_tool : String → P → Action W ToolResult
  pub listing : W → List FileEntry
  pub on_artifact : Option (Artifact → Action W String)
  pub loads : String → Option P
  pub no_params : P
  pub summarizer : Summarizer W

pub record Session (W P : Type 0) : Type 0 where
  pub world : W
  pub working_messages : List Message
  pub existing : List String
  pub events : List (Event P)
  pub asked : List (List Message)
