-- ===== src/AuditChain/Log.antt =====
-- The chain file and `_AuditChain` of anima/kernel/audit_chain.py: start-up, `append`, `read_all`.
use anima.AuditChain.Crypto.{Crypto, Payload}
use anima.Python.{
  ok, raised, ◌>>=◌, ◌>>◌, Action, raise, modify, try_except, key_error, pure, os_error,
}
use anima.Prelude.{
  [], ◌∷◌, none, some, Option, ℕ, String, List, if◌then◌else◌, Bool, str_eq, ◌+◌, ◌++◌, refl, map,
  ◌≡◌, ap,
}

-- A JSON object read from a line; a key may be missing. The records have the types that `append`
-- writes: a line whose `seq` is a text, say, is not in the model.
pub record RawRecord (k : Crypto) : Type 0 where
  pub seq : Option ℕ
  pub ts_ms : Option ℕ
  pub prev_hash : Option String
  pub payload : Option (Payload k.Json)
  pub hash : Option String
  pub sig : Option String

-- A line of the file: blank, not JSON, an object, or the last line without its newline, which may be
-- an object all the same.
pub data Line (k : Crypto) : Type 0 where
  blank : Line k
  garbage : Line k
  object : RawRecord k → Line k
  cut : Option (RawRecord k) → Line k

-- How the write of a line ends: in full, or it raises and has left nothing, the whole line, or a part
-- of it, whose JSON may be complete.
pub data ChainWrite : Type 0 where
  chain_written chain_untouched chain_whole : ChainWrite
  chain_cut : Bool → ChainWrite

-- The file (`none` where it does not exist) and the mutable fields of the object.
pub record AuditChain (k : Crypto) : Type 0 where
  pub file : Option (List (Line k))
  pub last_hash : String
  pub seq : ℕ
  pub last_ts_ms : ℕ

module _ (k : Crypto) where
  -- The record that `_append_locked` writes.
  abbrev pub signed_record : ℕ → ℕ → String → Payload k.Json → RawRecord k
  signed_record seq ts_ms prev_hash payload =
      let can = k.canonical seq ts_ms prev_hash payload in
      record {
        seq = some seq;
        ts_ms = some ts_ms;
        prev_hash = some prev_hash;
        payload = some payload;
        hash = some (k.hash_bytes can);
        sig = some (k.sign_hex can);
      }

  -- `d[key] = value`: a key that is there keeps its place.
  abbrev put_key : String → k.Json → Payload k.Json → Payload k.Json
  put_key key v [] = (key, v) ∷ []
  put_key key v ((j, w) ∷ d) = if str_eq j key then (j, v) ∷ d else (j, w) ∷ put_key key v d

  put_all : Payload k.Json → Payload k.Json → Payload k.Json
  put_all d [] = d
  put_all d ((key, v) ∷ rest) = put_all (put_key key v d) rest

  -- `{"type": event_type, **payload}`
  unfoldable pub full_payload : String → Payload k.Json → Payload k.Json
  unfolding put_all
  full_payload event_type payload = put_all (("type", k.text event_type) ∷ []) payload

  abbrev pub lines_of : Option (List (Line k)) → List (Line k)
  lines_of none = []
  lines_of (some ls) = ls

  -- What is written after a line without newline is glued to it.
  abbrev glued : Line k → Line k
  glued (cut o) = cut none
  glued l = garbage

  add_after : Line k → List (Line k) → Line k → List (Line k)
  add_after l (m ∷ ls) new = l ∷ add_after m ls new
  add_after (cut o) [] new = glued new ∷ []
  add_after blank [] new = blank ∷ new ∷ []
  add_after garbage [] new = garbage ∷ new ∷ []
  add_after (object r) [] new = object r ∷ new ∷ []

  -- The file with a line written at its end.
  unfoldable pub add_line : List (Line k) → Line k → List (Line k)
  unfolding add_after
  add_line [] new = new ∷ []
  add_line (l ∷ ls) new = add_after l ls new

  add_after-object :
      (r : RawRecord k) (rs : List (RawRecord k)) (new : Line k)
      → add_after (object r) (map object rs) new ≡ map object (r ∷ rs) ++ new ∷ []
  unfolding add_after
  add_after-object r [] new = refl
  add_after-object r (q ∷ rs) new = ap (λ l. object r ∷ l) (add_after-object q rs new)

  pub add_line-object :
      (rs : List (RawRecord k)) (new : Line k)
      → add_line (map object rs) new ≡ map object rs ++ new ∷ []
  unfolding add_line
  add_line-object [] new = refl
  add_line-object (r ∷ rs) new = add_after-object r rs new

  -- The last line that is not blank.
  unfoldable pub last_line : List (Line k) → Option (Line k) → Option (Line k)
  last_line [] found = found
  last_line (blank ∷ ls) found = last_line ls found
  last_line (garbage ∷ ls) found = last_line ls (some garbage)
  last_line (object r ∷ ls) found = last_line ls (some (object r))
  last_line (cut o ∷ ls) found = last_line ls (some (cut o))

  -- `rec[key]`
  abbrev pub or_key_error : {A : Type 0} → Option A → Action (AuditChain k) A
  or_key_error none = raise key_error
  or_key_error (some a) = pure a

  -- The three assignments; one that raises leaves those before it done.
  abbrev pub load_fields : RawRecord k → Action (AuditChain k) Unit
  load_fields r = do
    hash ← or_key_error r.hash
    modify (λ c. record c { last_hash = hash })
    seq ← or_key_error r.seq
    modify (λ c. record c { seq = seq })
    ts_ms ← or_key_error r.ts_ms
    modify (λ c. record c { last_ts_ms = ts_ms })

  abbrev pub load_line : Option (Line k) → AuditChain k → AuditChain k
  load_line (some (object r)) c = (try_except (load_fields r) (λ e. pure tt) c).1
  load_line (some (cut (some r))) c = (try_except (load_fields r) (λ e. pure tt) c).1
  load_line (some (cut none)) c = c
  load_line (some garbage) c = c
  load_line (some blank) c = c
  load_line none c = c

  -- The object that `__init__` makes over a file; `_load_chain_tail`.
  unfoldable pub open_chain : Option (List (Line k)) → AuditChain k
  unfolding last_line
  open_chain file =
      load_line (last_line (lines_of file) none)
        (record { file = file; last_hash = ""; seq = 0; last_ts_ms = 0 })

  -- A failed write that has left a line.
  abbrev left_line : Line k → AuditChain k → AuditChain k
  left_line l c = record c { file = some (add_line (lines_of c.file) l) }

  -- The record that `_append_locked` makes.
  abbrev new_record : String → Payload k.Json → ℕ → AuditChain k → RawRecord k
  new_record event_type payload ts_ms c =
      signed_record (c.seq + 1) ts_ms c.last_hash (full_payload event_type payload)

  -- `_append_locked` at a time, with how the write to the file ends.
  unfoldable pub append_locked :
      String → Payload k.Json → ℕ → ChainWrite → Action (AuditChain k) (RawRecord k)
  unfolding add_line
  append_locked event_type payload ts_ms chain_untouched c = (raised os_error, c)
  append_locked event_type payload ts_ms chain_whole c =
      (raised os_error, left_line (object (new_record event_type payload ts_ms c)) c)
  append_locked event_type payload ts_ms (chain_cut complete) c = (
    raised os_error,
    left_line (cut (if complete then some (new_record event_type payload ts_ms c) else none)) c,
  )
  append_locked event_type payload ts_ms chain_written c =
      let full = full_payload event_type payload in
      let rec = signed_record (c.seq + 1) ts_ms c.last_hash full in
      (
        ok rec,
        record {
          file = some (add_line (lines_of c.file) (object rec));
          last_hash = k.hash_bytes (k.canonical (c.seq + 1) ts_ms c.last_hash full);
          seq = c.seq + 1;
          last_ts_ms = ts_ms;
        },
      )

  -- `append`: an empty dict (`none`) on any failure.
  unfoldable pub append :
      String → Payload k.Json → ℕ → ChainWrite → Action (AuditChain k) (Option (RawRecord k))
  unfolding append_locked
  append event_type payload ts_ms write =
      try_except (do rec ← append_locked event_type payload ts_ms write; pure (some rec))
        (λ e. pure none)

  -- `read_all`: what was read before the first line that does not parse.
  unfoldable pub read_all : List (Line k) → List (RawRecord k)
  read_all [] = []
  read_all (blank ∷ ls) = read_all ls
  read_all (garbage ∷ ls) = []
  read_all (cut none ∷ ls) = []
  read_all (cut (some r) ∷ ls) = r ∷ read_all ls
  read_all (object r ∷ ls) = r ∷ read_all ls
