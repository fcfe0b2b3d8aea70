-- ===== src/PamOperator/Writes.antt =====
-- How the writes of anima/kernel/pam_operator.py end, and what they leave alone.
use anima.Python.{ok, raised, Outcome, os_error}
use anima.Prelude.{
  ℕ, String, List, false, some, ◌≡◌, refl, none, inl, inr, ◌∙◌, str_eq, Option, if◌then◌else◌,
  eq_refl, ◌≢◌, ◌⊎◌,
}
use anima.PamOperator.{
  write_fails, write_tears, written, PamHost, put, str_eq, Option, PamSnapshot, Write, Files,
  PamRevert, write_bytes, written, write_tears, os_error, unlink,
}

-- Nothing but the file at `path` and the timer has changed.
pub record Elsewhere (path : String) (h h' : PamHost) : Type 0 where
  pub backups : h'.backups ≡ h.backups
  pub files : (q : String) → str_eq q path ≡ false → h'.files q ≡ h.files q

pub Elsewhere-trans :
    {path : String} {a b c : PamHost} → Elsewhere path a b → Elsewhere path b c → Elsewhere path a c
Elsewhere-trans ab bc = record {
  backups = bc.backups ∙ ab.backups;
  files = λ q other. bc.files q other ∙ ab.files q other;
}

pub put_self :
    (path : String) (text : Option (List ℕ)) (files : Files) → put path text files path ≡ text
unfolding put
put_self path text files = simp eq_refl

pub put_other :
    (path : String) (text : Option (List ℕ)) (files : Files) (q : String)
    → str_eq q path ≡ false
    → put path text files q ≡ files q
unfolding put
put_other path text files q other = rw other refl

pub put-Elsewhere :
    (path : String) (text : Option (List ℕ)) (armed : Option PamRevert) (h : PamHost)
    → Elsewhere path h (record h { files = put path text h.files; armed = armed })
put-Elsewhere path text armed h = record { backups = refl; files = put_other path text h.files }

pub armed-Elsewhere :
    (path : String) (armed : Option PamRevert) (h : PamHost)
    → Elsewhere path h (record h { armed = armed })
armed-Elsewhere path armed h = record { backups = refl; files = λ q other. refl }

-- What `restore` puts back from a backup.
abbrev pub former : PamSnapshot → List ℕ → Option (List ℕ)
former snap prior = if snap.was_absent then none else some prior

-- How a call of `write_bytes` or `restore` ends: with the text in the file, or with an `OSError`.
abbrev pub Ends : String → Write → Option (List ℕ) → PamHost → Outcome Unit × PamHost → Type 0
Ends path write text h result =
    ((write ≡ written) × (result ≡ (ok tt, record h { files = put path text h.files })))
    ⊎ ((write ≢ written)
        × (h' : PamHost) × (result ≡ (raised os_error, h'))
        × Elsewhere path h h'
        × (h'.armed ≡ h.armed))

pub write_bytes-Ends :
    (write : Write) (path : String) (text : List ℕ) (h : PamHost)
    → Ends path write (some text) h (write_bytes write path text h)
write_bytes-Ends written path text h = inl (refl, refl)
write_bytes-Ends write_fails path text h =
    inr (λ e. cc, h, refl, armed-Elsewhere path h.armed h, refl)
write_bytes-Ends (write_tears part) path text h =
    inr (λ e. cc, _, refl, put-Elsewhere path (some part) h.armed h, refl)

pub unlink-Ends :
    (write : Write) (path : String) (h : PamHost) → Ends path write none h (unlink write path h)
unlink-Ends written path h = inl (refl, refl)
unlink-Ends write_fails path h = inr (λ e. cc, h, refl, armed-Elsewhere path h.armed h, refl)
unlink-Ends (write_tears part) path h = inr (λ e. cc, h, refl, armed-Elsewhere path h.armed h, refl)
