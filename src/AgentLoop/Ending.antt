-- ===== src/AgentLoop/Ending.antt =====
-- How a run of anima/kernel/agent_loop.py ends, and the events that it has yielded by then.
use anima.Python.{
  ok, raised, Outcome, Action, ◌>>◌, Exn, bind-of-ok, bind-of-raised, ◌>>=◌, pure, Outcome-cases,
  try_except, modify, try_except-ok, try_except-raised,
}
use anima.Prelude.{
  [], ◌∷◌, refl, none, some, inl, inr, ◌≡◌, List, Option, ◌⊎◌, sym, ◌++◌, ap, ◌∙◌, zero, suc,
  Bool-cases, ℕ, take, leb, ltb, ◌-◌, length, strip, ◌||◌, ◌==◌,
}
use mathlib.Core.Path.{subst}
use anima.AgentLoop.{
  safe_tail_start, safe_compress_cut, compress_keep_turns, after_answer, Event, error, done,
  Session, Agent, Text, Message, Reply, ToolCall, Summarizer, in_world, emit, emit_chunks,
  emit_error, stream_final, say, chunks_of, compress_long, compress_threshold,
  compress_working_messages, compress_from, with_summary, select, after_reply, assistant_message,
  run_calls, rounds, run, start, max_tool_rounds, text_of, List, Option, Outcome, Action, Exn, ℕ,
  pure, ltb, length, try_except, strip, modify,
}
use anima.AgentLoop.Spoken.{
  Spoken, Spoken-trans, Spoken-refl, stream_final-Speaks, emit_chunks-Speaks, compress_long-Speaks,
}
use anima.AgentLoop.Calls.{Broken, Ended, run_calls-Ended}

module _ {W P : Type 0} where
  -- Paired events, and then the last one: `done` or an error.
  pub record Closed (s t : Session W P) : Type 0 where
    pub before : Session W P
    pub spoken : Spoken s before
    pub last : Event P
    pub events : t.events ≡ before.events ++ last ∷ []
    pub closes : (last ≡ done) ⊎ ((e : Exn) × (last ≡ error e))

  Closed-after : (s t u : Session W P) → Spoken s t → Closed t u → Closed s u
  Closed-after s t u h c = record {
    before = c.before;
    spoken = Spoken-trans s t c.before h c.spoken;
    last = c.last;
    events = c.events;
    closes = c.closes;
  }

  emit_chunks-ok : (chunks : List Text) (s : Session W P) → (emit_chunks chunks s).0 ≡ ok tt
  unfolding emit_chunks
  emit_chunks-ok [] s = refl
  emit_chunks-ok (text ∷ chunks) s = emit_chunks-ok chunks _

  emit_error-ok : (broke : Option Exn) (s : Session W P) → (emit_error broke s).0 ≡ ok tt
  emit_error-ok none s = refl
  emit_error-ok (some e) s = refl

module _ {W P : Type 0} (agent : Agent W P) where
  -- A run is closed, or a tool broke it off.
  abbrev pub Finished : Session W P → Outcome Unit × Session W P → Type 0
  Finished s result =
      ((result.0 ≡ ok tt) × Closed s result.1)
      ⊎ ((e : Exn) × (result.0 ≡ raised e) × Broken agent s result.1)

  Finished-after :
      (s t : Session W P) (result : Outcome Unit × Session W P)
      → Spoken s t
      → Finished t result
      → Finished s result
  Finished-after s t result h (inl (returned, c)) = inl (returned, Closed-after s t result.1 h c)
  Finished-after s t result h (inr (e, failed, b)) = inr (
    e,
    failed,
    record {
      before = b.before;
      spoken = Spoken-trans s t b.before h b.spoken;
      call_id = b.call_id;
      name = b.name;
      params = b.params;
      events = b.events;
    },
  )

  stream_final-ok : (s : Session W P) → (stream_final agent s).0 ≡ ok tt
  unfolding stream_final
  stream_final-ok s =
      let (streamed, w) = agent.stream s.working_messages s.world in
      let t = record s { asked = s.asked ++ s.working_messages ∷ []; world = w } in
      let speak = emit_chunks streamed.chunks in
      ap (λ r. r.0)
        (bind-of-ok speak (λ _. emit_error streamed.broke) {s = t} {s' = (speak t).1}
          (ap (λ o. (o, (speak t).1)) (emit_chunks-ok streamed.chunks t)))
      ∙ emit_error-ok streamed.broke (speak t).1

  -- The last event of a part that returned.
  then_done :
      (m : Action (Session W P) Unit) (s : Session W P)
      → (m s).0 ≡ ok tt
      → Spoken s (m s).1
      → Finished s ((m >> emit done) s)
  then_done m s returned h =
      subst (Finished s)
        (sym
          (bind-of-ok m (λ _. emit done) {s = s} {s' = (m s).1} (ap (λ o. (o, (m s).1)) returned)))
        (inl (
          refl,
          record { before = (m s).1; spoken = h; last = done; events = refl; closes = inl refl },
        ))

  say-Finished : (text : Text) (s : Session W P) → Finished s ((say agent text >> emit done) s)
  say-Finished [] s =
      then_done (stream_final agent) s (stream_final-ok s) (stream_final-Speaks agent s)
  say-Finished (c ∷ text) s =
      let chunks = chunks_of (c ∷ text) in
      then_done (emit_chunks chunks) s (emit_chunks-ok chunks s) (emit_chunks-Speaks chunks s)

  bind-Finished :
      (m k : Action (Session W P) Unit) (s : Session W P)
      → Ended agent s (m s)
      → ((t : Session W P) → Finished t (k t))
      → Finished s ((m >> k) s)
  bind-Finished m k s (inl (returned, spoken)) hk =
      subst (Finished s)
        (sym (bind-of-ok m (λ _. k) {s = s} {s' = (m s).1} (ap (λ o. (o, (m s).1)) returned)))
        (Finished-after s (m s).1 (k (m s).1) spoken (hk (m s).1))
  bind-Finished m k s (inr (e, failed, b)) hk =
      subst (Finished s)
        (sym (bind-of-raised m (λ _. k) {s = s} {s' = (m s).1} (ap (λ o. (o, (m s).1)) failed)))
        (inr (e, refl, b))

  answer-Finished :
      (rest : Action (Session W P) Unit) (reply : Reply) (tool_calls : List ToolCall)
      (s : Session W P)
      → ((t : Session W P) → Finished t (rest t))
      → Finished s (after_answer agent rest reply tool_calls s)
  unfolding after_answer
  answer-Finished rest reply [] s hk = say-Finished (text_of agent reply) s
  answer-Finished rest reply (tc ∷ tool_calls) s hk =
      let t = record s {
        working_messages = s.working_messages ++ assistant_message agent reply ∷ [];
      } in
      Finished-after s t _ (Spoken-refl s t refl) (
        bind-Finished (run_calls agent (tc ∷ tool_calls)) rest t
          (run_calls-Ended agent (tc ∷ tool_calls) t) hk)

  -- A selection that fails is the last event.
  select-Finished :
      (rest : Action (Session W P) Unit) (s : Session W P)
      → ((t : Session W P) → Finished t (rest t))
      → Finished s ((select agent >>= after_reply agent rest) s)
  unfolding select after_reply
  select-Finished rest s hk =
      let t = record s { asked = s.asked ++ s.working_messages ∷ [] } in
      let ask = in_world (agent.select s.working_messages) in
      let found : Reply → Action (Session W P) (Option Reply) = λ reply. pure (some reply) in
      let give_up : Exn → Action (Session W P) (Option Reply) = λ e. emit (error e) >> pure none in
      let u = (ask t).1 in
      elim (Outcome-cases (agent.select s.working_messages s.world).0) [
        | inl (reply, answered) ↦
            subst (Finished s)
              (sym (
                bind-of-ok (try_except (ask >>= found) give_up) (after_reply agent rest) {s = t}
                  {s' = u}
                  (try_except-ok (ask >>= found) give_up {s = t} {s' = u}
                    (bind-of-ok ask found {s = t} {s' = u} (ap (λ o. (o, u)) answered)))))
              (Finished-after s u _ (Spoken-refl s u refl)
                (answer-Finished rest reply reply.tool_calls u hk))
        | inr (e, failed) ↦
            subst (Finished s)
              (sym (
                bind-of-ok (try_except (ask >>= found) give_up) (after_reply agent rest) {s = t} (
                  try_except-raised (ask >>= found) give_up {s = t} {s' = u}
                    (bind-of-raised ask found {s = t} {s' = u} (ap (λ o. (o, u)) failed)))))
              (inl (
                refl,
                record {
                  before = u;
                  spoken = Spoken-refl s u refl;
                  last = error e;
                  events = refl;
                  closes = inr (e, refl);
                },
              ))
      ]

  compress_from-ok :
      (summarizer : Summarizer W) (origin : Message) (rest : List Message) (tail_start cut : ℕ)
      (w : W)
      → (messages : List Message) × ((compress_from summarizer origin rest tail_start cut w).0
          ≡ ok messages)
  unfolding compress_from
  compress_from-ok summarizer origin rest tail_start cut w =
      let ask = summarizer.complete (take cut (take (tail_start - 1) rest)) in
      let put : Text → Action W (List Message) =
        λ content. pure (with_summary summarizer origin rest tail_start cut (strip content)) in
      let keep : Exn → Action W (List Message) = λ e. pure (origin ∷ rest) in
      let v = (ask w).1 in
      elim (Bool-cases (leb tail_start 1 || cut == 0)) [
        | inl nothing ↦ (origin ∷ rest, rw nothing refl)
        | inr long ↦ elim (Outcome-cases (ask w).0) [
          | inl (content, answered) ↦ (
            with_summary summarizer origin rest tail_start cut (strip content),
            rw long (
                ap (λ r. r.0)
                  (try_except-ok (ask >>= put) keep {s = w} {s' = v}
                    (bind-of-ok ask put {s = w} {s' = v} (ap (λ o. (o, v)) answered)))),
          )
          | inr (e, failed) ↦ (
            origin ∷ rest,
            rw long (
                ap (λ r. r.0)
                  (try_except-raised (ask >>= put) keep {s = w} {s' = v}
                    (bind-of-raised ask put {s = w} {s' = v} (ap (λ o. (o, v)) failed)))),
          )
        ]
      ]

  compress-ok :
      (messages : List Message) (w : W)
      → (compressed : List Message) × ((compress_working_messages agent.summarizer messages w).0
          ≡ ok compressed)
  unfolding compress_working_messages
  compress-ok [] w = ([], refl)
  compress-ok (origin ∷ rest) w = elim (Bool-cases (leb (length rest) 1)) [
    | inl short ↦ (origin ∷ rest, rw short refl)
    | inr long ↦
        let tail_start = safe_tail_start (origin ∷ rest) compress_keep_turns in
        rw long (
          compress_from-ok agent.summarizer origin rest tail_start
            (safe_compress_cut (take (tail_start - 1) rest)) w)
  ]

  compress_long-ok : (s : Session W P) → (compress_long agent s).0 ≡ ok tt
  unfolding compress_long
  compress_long-ok s = elim (Bool-cases (ltb compress_threshold (length s.working_messages))) [
    | inr short ↦ rw short refl
    | inl long ↦
        let compress = in_world (compress_working_messages agent.summarizer s.working_messages) in
        let set : List Message → Action (Session W P) Unit =
          λ messages. modify (λ t. record t { working_messages = messages }) in
        let (messages, returned) : (messages : List Message) × ((compress_working_messages
                agent.summarizer s.working_messages s.world).0
              ≡ ok messages) =
          compress-ok s.working_messages s.world in
        rw long (
          ap (λ r. r.0)
            (bind-of-ok compress set {s = s} {s' = (compress s).1}
              (ap (λ o. (o, (compress s).1)) returned)))
  ]

  rounds-Finished : (n : ℕ) (s : Session W P) → Finished s (rounds agent n s)
  unfolding rounds
  rounds-Finished zero s =
      then_done (stream_final agent) s (stream_final-ok s) (stream_final-Speaks agent s)
  rounds-Finished (suc n) s =
      bind-Finished (compress_long agent) (select agent >>= after_reply agent (rounds agent n)) s
        (inl (compress_long-ok s, compress_long-Speaks agent s))
        (λ t. select-Finished (rounds agent n) t (rounds-Finished n))

  -- Each run ends in one of two ways, after events in which each tool call is followed at once by its
  -- own result and no `done` stands: it returns, and its last event is `done` or an error; or a tool
  -- raises, and the last event is the call of that tool.
  pub run-Finished :
      (world : W) (messages : List Message)
      → Finished (start agent world messages) (run agent world messages)
  unfolding run
  run-Finished world messages = rounds-Finished max_tool_rounds (start agent world messages)
