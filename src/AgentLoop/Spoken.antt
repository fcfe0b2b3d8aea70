-- ===== src/AgentLoop/Spoken.antt =====
-- The events that one part of a run of anima/kernel/agent_loop.py yields.
use anima.Python.{Action, ◌>>=◌, Exn, bind-Keeps, modify, ◌>>◌}
use anima.Prelude.{
  [], ◌∷◌, refl, true, false, none, some, inl, inr, arith, Bool-cases, Option, List, ◌≡◌, ◌++◌,
  String, ◌∙◌, ltb, sym, ap, Bool, length, str_eq, ◌&&◌,
}
use mathlib.Core.List.{append_assoc, append-nil}
use anima.AgentLoop.{
  Event, tool_call, tool_result, chunk, artifact, error, done, Session, Agent, Text, emit_chunks,
  emit_error, stream_final, report_artifacts, compress_long, Artifact, in_world, call_back, emit,
  compress_working_messages, compress_threshold, Option, List, Action, String, Exn, ltb, Bool,
  length, modify,
}

module _ {P : Type 0} where
  -- Each call is followed at once by its result, no other result is yielded, and no `done`.
  unfoldable pub paired : Option (String × String) → List (Event P) → Bool
  paired none [] = true
  paired (some pending) [] = false
  paired none (tool_call call_id name params ∷ events) = paired (some (call_id, name)) events
  paired (some (call_id, name)) (tool_result id of_tool result ∷ events) =
      str_eq id call_id && str_eq of_tool name && paired none events
  paired none (chunk text ∷ events) = paired none events
  paired none (artifact id af ∷ events) = paired none events
  paired none (error e ∷ events) = paired none events
  paired _ _ = false

  pub paired-append :
      (pending : Option (String × String)) (a b : List (Event P))
      → paired pending a ≡ true
      → paired none b ≡ true
      → paired pending (a ++ b) ≡ true
  unfolding paired
  paired-append none [] b ha hb = hb
  paired-append (some pending) [] b ha hb = ground (arith, ha)
  paired-append none (tool_call call_id name params ∷ a) b ha hb =
      paired-append (some (call_id, name)) a b ha hb
  paired-append none (tool_result id of_tool result ∷ a) b ha hb = ground (arith, ha)
  paired-append none (chunk text ∷ a) b ha hb = paired-append none a b ha hb
  paired-append none (artifact id af ∷ a) b ha hb = paired-append none a b ha hb
  paired-append none (error e ∷ a) b ha hb = paired-append none a b ha hb
  paired-append none (done ∷ a) b ha hb = ground (arith, ha)
  paired-append (some (call_id, name)) (tool_result id of_tool result ∷ a) b ha hb =
      let rest : paired none a ≡ true = ground (arith, ha) in
      let more = paired-append none a b rest hb in ground (arith, ha, more)
  paired-append (some (call_id, name)) (tool_call id of_tool params ∷ a) b ha hb =
      ground (arith, ha)
  paired-append (some (call_id, name)) (chunk text ∷ a) b ha hb = ground (arith, ha)
  paired-append (some (call_id, name)) (artifact id af ∷ a) b ha hb = ground (arith, ha)
  paired-append (some (call_id, name)) (error e ∷ a) b ha hb = ground (arith, ha)
  paired-append (some (call_id, name)) (done ∷ a) b ha hb = ground (arith, ha)

module _ {W P : Type 0} where
  -- From one state to the next, paired events have been yielded.
  pub record Spoken (s t : Session W P) : Type 0 where
    pub new : List (Event P)
    pub events : t.events ≡ s.events ++ new
    pub pairs : paired none new ≡ true

  pub Spoken-refl : (s t : Session W P) → t.events ≡ s.events → Spoken s t
  unfolding paired
  Spoken-refl s t same = record {
    new = [];
    events = same ∙ sym (append-nil s.events);
    pairs = refl;
  }

  pub Spoken-trans : (s t u : Session W P) → Spoken s t → Spoken t u → Spoken s u
  Spoken-trans s t u a b = record {
    new = a.new ++ b.new;
    events = b.events ∙ ap (λ l. l ++ b.new) a.events ∙ append_assoc s.events a.new b.new;
    pairs = paired-append none a.new b.new a.pairs b.pairs;
  }

  -- However the action ends.
  abbrev pub Speaks : {A : Type 0} → Action (Session W P) A → Type 0
  Speaks m = (s : Session W P) → Spoken s (m s).1

  pub bind-Speaks :
      {A B : Type 0} (m : Action (Session W P) A) (f : A → Action (Session W P) B)
      → Speaks m
      → ((a : A) → Speaks (f a))
      → Speaks (m >>= f)
  bind-Speaks m f hm hf s =
      bind-Keeps (Spoken s) m f s (hm s) (λ a t h. Spoken-trans s t (f a t).1 h (hf a t))

  pub emit-Speaks : (event : Event P) → paired none (event ∷ []) ≡ true → Speaks (emit event)
  emit-Speaks event h s = record { new = event ∷ []; events = refl; pairs = h }

  pub emit_chunks-Speaks : (chunks : List Text) → Speaks (emit_chunks {W = W} {P = P} chunks)
  unfolding emit_chunks paired
  emit_chunks-Speaks [] s = Spoken-refl s s refl
  emit_chunks-Speaks (text ∷ chunks) s =
      bind-Speaks (emit (chunk text)) (λ _. emit_chunks chunks) (emit-Speaks (chunk text) refl)
        (λ _. emit_chunks-Speaks chunks) s

  pub emit_error-Speaks : (broke : Option Exn) → Speaks (emit_error {W = W} {P = P} broke)
  unfolding paired
  emit_error-Speaks none s = Spoken-refl s s refl
  emit_error-Speaks (some e) s = emit-Speaks (error e) refl s

  pub in_world-Speaks : {A : Type 0} (m : Action W A) → Speaks (in_world {W = W} {P = P} m)
  in_world-Speaks m s = Spoken-refl s _ refl

module _ {W P : Type 0} (agent : Agent W P) where
  pub stream_final-Speaks : Speaks (stream_final agent)
  unfolding stream_final
  stream_final-Speaks s =
      let (streamed, w) = agent.stream s.working_messages s.world in
      let t = record s { asked = s.asked ++ s.working_messages ∷ []; world = w } in
      Spoken-trans s t _ (Spoken-refl s t refl) (
        bind-Speaks (emit_chunks streamed.chunks) (λ _. emit_error streamed.broke)
          (emit_chunks-Speaks streamed.chunks) (λ _. emit_error-Speaks streamed.broke) t)

  pub report_artifacts-Speaks :
      (artifacts : List Artifact) → Speaks (report_artifacts agent artifacts)
  unfolding report_artifacts paired
  report_artifacts-Speaks [] s = Spoken-refl s s refl
  report_artifacts-Speaks (af ∷ artifacts) s =
      bind-Speaks (in_world (call_back agent.on_artifact af))
        (λ id. emit (artifact id af) >> report_artifacts agent artifacts)
        (in_world-Speaks (call_back agent.on_artifact af))
        (λ id.
          bind-Speaks (emit (artifact id af)) (λ _. report_artifacts agent artifacts)
            (emit-Speaks (artifact id af) refl) (λ _. report_artifacts-Speaks artifacts))
        s

  pub compress_long-Speaks : Speaks (compress_long agent)
  unfolding compress_long
  compress_long-Speaks s = elim (Bool-cases (ltb compress_threshold (length s.working_messages))) [
    | inl long ↦ rw long (
        bind-Speaks (in_world (compress_working_messages agent.summarizer s.working_messages))
          (λ messages. modify (λ t. record t { working_messages = messages }))
          (in_world-Speaks (compress_working_messages agent.summarizer s.working_messages))
          (λ messages t. Spoken-refl t _ refl) s)
    | inr short ↦ rw short (Spoken-refl s s refl)
  ]
