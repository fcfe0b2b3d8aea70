-- ===== src/AgentLoop/Turns.antt =====
-- Where `_safe_tail_start` and `_safe_compress_cut` of anima/kernel/agent_loop.py cut the messages.
use anima.Prelude.{
  [], ◌∷◌, refl, true, false, zero, suc, inl, inr, arith, Bool, List, ◌||◌, ℕ, ◌≡◌, Bool-cases, ◌≤◌,
  ◌⊎◌, ◌&&◌, ◌+◌, ◌-◌, none, some, Option, ltb, length,
}
use anima.AgentLoop.{
  safe_tail_start, role_holds, Message, Role, is_tool, is_assistant, role_at, skip_tools,
  turns_back, cut_from,
}

-- An assistant message or a result.
abbrev pub in_turn : Role → Bool
in_turn role = is_assistant role || is_tool role

-- A cut `k` messages further on: one after a message of a turn, and before one that is no result.
pub record TurnEnd (messages : List Message) (k : ℕ) : Type 0 where
  pub before : role_at in_turn messages k ≡ true
  pub after : role_at is_tool messages (suc k) ≡ false

-- Where the loop goes: nowhere, and after a turn no result is next, or to the end of a turn.
abbrev pub CutAt : Bool → ℕ → ℕ → List Message → ℕ → Type 0
CutAt turn i last messages r =
    ((r ≡ last) × (turn ≡ true → role_at is_tool messages 0 ≡ false))
    ⊎ ((k : ℕ) × (r ≡ i + suc k) × TurnEnd messages k)

pub cut_from-CutAt :
    (turn : Bool) (i last : ℕ) (messages : List Message)
    → CutAt turn i last messages (cut_from turn i last messages)
unfolding cut_from
cut_from-CutAt turn i last [] = inl (refl, λ _. refl)
cut_from-CutAt turn i last (m ∷ messages) =
    elim (Bool-cases (is_assistant m.role || turn && is_tool m.role)) [
      | inl goes_on ↦ elim (cut_from-CutAt true (i + 1) (i + 1) messages) [
        | inl (same, next) ↦
            inr
              (0, rw goes_on (same), record { before = ground (arith, goes_on); after = next refl })
        | inr (k, same, end) ↦ inr (
          suc k,
          rw goes_on (omega (arith, same)),
          record { before = end.before; after = end.after },
        )
      ]
      | inr stops ↦ elim (cut_from-CutAt false (i + 1) last messages) [
        | inl (same, next) ↦ inl (rw stops same, λ t. ground (arith, t, stops))
        | inr (k, same, end) ↦ inr (
          suc k,
          rw stops (omega (arith, same)),
          record { before = end.before; after = end.after },
        )
      ]
    ]

skip_tools-lem :
    (messages : List Message) (idx : ℕ)
    → (skip_tools messages idx ≤ 1)
      ⊎ (role_at is_tool messages (skip_tools messages idx - 1) ≡ false)
unfolding skip_tools
skip_tools-lem messages zero = inl (omega arith)
skip_tools-lem messages (suc zero) = inl (omega arith)
skip_tools-lem messages (suc (suc i)) = elim (Bool-cases (role_at is_tool messages (suc i))) [
  | inl result ↦ rw result (skip_tools-lem messages (suc i))
  | inr other ↦ let back : suc (suc i) - 1 ≡ suc i = omega arith in inr (rw (other, back) other)
]

-- The tail starts at the second message at most, at one that is no result, or after one that is in
-- no turn.
abbrev pub TailAt : List Message → ℕ → Type 0
TailAt messages r =
    (r ≤ 1) ⊎ (role_at is_tool messages r ≡ false) ⊎ (role_at in_turn messages (r - 1) ≡ false)

assistant_is_no_tool :
    (o : Option Message) → role_holds is_assistant o ≡ true → role_holds is_tool o ≡ false
assistant_is_no_tool none h = refl
assistant_is_no_tool (some m) h = ground (arith, h)

in_turn_neither :
    (o : Option Message)
    → role_holds is_assistant o ≡ false
    → role_holds is_tool o ≡ false
    → role_holds in_turn o ≡ false
in_turn_neither none h k = refl
in_turn_neither (some m) h k = ground (arith, h, k)

and_right : (a b : Bool) → (a && b) ≡ true → b ≡ true
and_right a b h = ground (arith, h)

and_false : (a b : Bool) → (a && b) ≡ false → a ≡ true → b ≡ false
and_false a b h k = ground (arith, h, k)

turns_back-TailAt :
    (messages : List Message) (keep_turns idx : ℕ)
    → role_at is_tool messages idx ≡ false
    → TailAt messages (turns_back messages keep_turns idx)
unfolding turns_back
turns_back-TailAt messages zero idx h = inr (inl h)
turns_back-TailAt messages (suc keep_turns) idx h =
    let i = skip_tools messages idx in
    elim (Bool-cases (ltb 1 idx)) [
      | inr short ↦ rw short (inl (ground (arith, short)))
      | inl long ↦ elim (Bool-cases (ltb 1 i && role_at is_assistant messages (i - 1))) [
        | inl turn ↦
            rw (long, turn)
              (turns_back-TailAt messages keep_turns (i - 1)
                (assistant_is_no_tool _ (and_right (ltb 1 i) _ turn)))
        | inr none_left ↦
            rw (long, none_left)
              (elim (skip_tools-lem messages idx) [
                | inl small ↦ inl small
                | inr no_tool ↦ elim (Bool-cases (ltb 1 i)) [
                  | inr small ↦ inl (ground (arith, small))
                  | inl large ↦
                      inr (inr (in_turn_neither _ (and_false (ltb 1 i) _ none_left large) no_tool))
                ]
              ])
      ]
    ]

role_at_end :
    (p : Role → Bool) (messages : List Message) → role_at p messages (length messages) ≡ false
role_at_end p [] = refl
role_at_end p (m ∷ messages) = role_at_end p messages

pub safe_tail_start-TailAt :
    (messages : List Message) (keep_turns : ℕ)
    → TailAt messages (safe_tail_start messages keep_turns)
unfolding safe_tail_start
safe_tail_start-TailAt messages keep_turns =
    turns_back-TailAt messages keep_turns (length messages) (role_at_end is_tool messages)
