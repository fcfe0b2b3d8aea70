-- ===== src/AgentLoop/Conversation.antt =====
-- The working messages of anima/kernel/agent_loop.py and their compression in the middle of a run.
-- Texts are lists of code points.
use anima.Python.{Action, pure, try_except, ◌>>=◌}
use anima.Prelude.{
  [], ◌∷◌, true, false, none, some, zero, suc, List, String, Option, Bool, ℕ, strip, get_elem?,
  if◌then◌else◌, ◌-◌, length, drop, ltb, ◌||◌, take, leb, ◌&&◌, ◌++◌, ◌==◌, ◌+◌,
}

abbrev pub Text : Type 0
Text = List ℕ

pub data Role : Type 0 where
  system user assistant tool : Role

pub record ToolCall : Type 0 where
  pub call_id : String
  pub tool_name : String
  pub arguments : String

pub record Message : Type 0 where
  pub role : Role
  pub content : Option Text
  pub tool_calls : List ToolCall
  pub tool_call_id : String

abbrev pub is_assistant : Role → Bool
is_assistant assistant = true
is_assistant _ = false

abbrev pub is_tool : Role → Bool
is_tool tool = true
is_tool _ = false

abbrev pub is_user : Role → Bool
is_user user = true
is_user _ = false

abbrev pub role_holds : (Role → Bool) → Option Message → Bool
role_holds p none = false
role_holds p (some m) = p m.role

-- `messages[i].get("role") == …`
abbrev pub role_at : (Role → Bool) → List Message → ℕ → Bool
role_at p messages i = role_holds p (get_elem? messages i)

-- `while idx > 1 and messages[idx - 1].get("role") == "tool": idx -= 1`
unfoldable pub skip_tools : List Message → ℕ → ℕ
skip_tools messages (suc (suc i)) =
    if role_at is_tool messages (suc i) then skip_tools messages (suc i) else suc (suc i)
skip_tools messages idx = idx

-- The outer loop of `_safe_tail_start`.
unfoldable pub turns_back : List Message → ℕ → ℕ → ℕ
unfolding skip_tools
turns_back messages zero idx = idx
turns_back messages (suc keep_turns) idx =
    let i = skip_tools messages idx in
    let earlier = turns_back messages keep_turns (i - 1) in
    if ltb 1 idx
    then if ltb 1 i && role_at is_assistant messages (i - 1) then earlier else i
    else idx

unfoldable pub safe_tail_start : List Message → ℕ → ℕ
unfolding turns_back
safe_tail_start messages keep_turns = turns_back messages keep_turns (length messages)

-- The loops of `_safe_compress_cut`; `in_turn` while the inner one runs over the results.
unfoldable pub cut_from : Bool → ℕ → ℕ → List Message → ℕ
cut_from in_turn i last_safe [] = last_safe
cut_from in_turn i last_safe (m ∷ messages) =
    if is_assistant m.role || in_turn && is_tool m.role
    then cut_from true (i + 1) (i + 1) messages
    else cut_from false (i + 1) last_safe messages

unfoldable pub safe_compress_cut : List Message → ℕ
unfolding cut_from
safe_compress_cut messages = cut_from false 0 0 messages

abbrev pub compress_threshold : ℕ
compress_threshold = 18

abbrev pub compress_keep_turns : ℕ
compress_keep_turns = 4

-- `while result and result[0].get("role") != "user": result = result[1:]`
unfoldable pub from_user : List Message → List Message
from_user [] = []
from_user (m ∷ messages) = if is_user m.role then m ∷ messages else from_user messages

-- The model that summarises: its prompt over the messages to compress, its answer, and the text of
-- the message that takes their place.
pub record Summarizer (W : Type 0) : Type 0 where
  pub complete : List Message → Action W Text
  pub summary_text : Message → ℕ → Text → Text

module _ {W : Type 0} (summarizer : Summarizer W) where
  abbrev pub or_working : List Message → List Message → List Message
  or_working [] working_messages = working_messages
  or_working (m ∷ result) working_messages = m ∷ result

  abbrev pub summary_message : Message → ℕ → Text → Message
  summary_message origin compressed summary = record {
    role = user;
    content = some (summarizer.summary_text origin compressed summary);
    tool_calls = [];
    tool_call_id = "";
  }

  -- What takes the place of the messages before `cut`, once the summary is there.
  unfoldable pub with_summary : Message → List Message → ℕ → ℕ → Text → List Message
  unfolding from_user
  with_summary origin rest tail_start cut [] = origin ∷ rest
  with_summary origin rest tail_start cut (c ∷ summary) =
      or_working
        (from_user (
          summary_message origin cut (c ∷ summary) ∷ drop cut (take (tail_start - 1) rest)
          ++ drop (tail_start - 1) rest))
        (origin ∷ rest)

  unfoldable pub compress_from : Message → List Message → ℕ → ℕ → Action W (List Message)
  unfolding with_summary strip
  compress_from origin rest tail_start cut =
      if leb tail_start 1 || cut == 0
      then pure (origin ∷ rest)
      else try_except
          (summarizer.complete (take cut (take (tail_start - 1) rest)) >>= λ content.
            pure (with_summary origin rest tail_start cut (strip content)))
          (λ e. pure (origin ∷ rest))

  -- `_compress_working_messages`
  unfoldable pub compress_working_messages : List Message → Action W (List Message)
  unfolding compress_from safe_tail_start safe_compress_cut
  compress_working_messages [] = pure []
  compress_working_messages (origin ∷ rest) =
      let tail_start = safe_tail_start (origin ∷ rest) compress_keep_turns in
      if leb (length rest) 1
      then pure (origin ∷ rest)
      else compress_from origin rest tail_start (safe_compress_cut (take (tail_start - 1) rest))
