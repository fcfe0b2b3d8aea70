-- ===== src/Systemd.antt =====
-- `subprocess.run(["systemctl", "stop", …])` without `check=True`, as the disarm methods of
-- anima/kernel/self_reload.py, venv_operator.py and pam_operator.py call it: an exit status other
-- than 0 is not looked at. Only a call that cannot be run, or that takes too long, raises.
use anima.Python.{Action, raise, other_error, pure}
use anima.Prelude.{Option, none}

pub data Stop : Type 0 where
  stopped stop_ignored stop_raises : Stop

-- What is left of a timer.
abbrev pub after_stop {ℓ} : {A : Type ℓ} → Stop → Option A → Option A
after_stop stopped timer = none
after_stop _ timer = timer

abbrev pub systemctl_stop : {S : Type 0} → Action S Unit → Stop → Action S Unit
systemctl_stop action stopped = action
systemctl_stop action stop_ignored = pure tt
systemctl_stop action stop_raises = raise other_error
