-- ===== src/Tests/Jobs.antt =====
-- Runs of core/engine/files.go.
use tailcat_gui.Transfers.{transfer_loop}
use tailcat_gui.Session.{shutdown}
use tailcat_gui.Session.{set_state}
use tailcat_gui.Session.{session_step}
use tailcat_gui.Session.{fail}
use tailcat_gui.Session.{emit, logf}
use tailcat_gui.Session.{add_closer}
use tailcat_gui.Session.{State-discrete}
use tailcat_gui.Prelude.{Text-discrete}
use tailcat_gui.Prelude.{
  ℤ, false, length, Text-discrete, ℕ, ◌*◌, true, Bool, List, [], ◌∷◌, ◌≡◌, refl, Text, codes,
}
use tailcat_gui.Errors.{err, coded, bad_request}
use tailcat_gui.Session.{Scope, new_session, send, session_run}
use tailcat_gui.Session.Coherent.{IsCoherent}
use tailcat_gui.Tokens.{Outcome, good}
use tailcat_gui.Transfers.{
  Job, Report, complete, broken, uploads, transfer_ops, check_send, emit_reports,
}
use tailcat_gui.Share.Counting.{Progress}
use tailcat_gui.Prelude.Dict.{lookup, insert, erase}
use tailcat_gui.Prelude.{Text-discrete}
use tailcat_gui.Transfers.Throttle.{
  throttle, throttle_all, spaced, finals, of_file, due, throttle_all-spaced,
}
use tailcat_gui.Transfers.Outcomes.{Leaves, transfer_ops-Leaves}

abbrev clock : ℕ → ℕ
clock n = 1000 * n

abbrev sending : Scope
sending = record {
  session = new_session 5 (codes "send-1") send;
  queue = record { events = []; dropped = 0 };
  readings = 0;
  closed_log = [];
}

sending-IsCoherent : IsCoherent sending
unfolding new_session
sending-IsCoherent = record { released = λ _. refl; cancelled = λ h. cc }

abbrev half : Report
half = record {
  now = 1000;
  progress = record { path = codes "a"; bytes = 5; total = ℤ.pos 10; upload = true; done = false };
  rate = 100;
}

abbrev two_files : List Job
two_files =
    record { path = codes "a"; reports = half ∷ []; ending = complete }
    ∷ record { path = codes "b"; reports = []; ending = broken (codes "permission denied") }
    ∷ []

abbrev one_retry : List Text
one_retry = codes "handshake attempt 1: timeout" ∷ []

abbrev all_exist : Text → Outcome Bool
all_exist _ = good true

no_paths : check_send all_exist [] ≡ err (coded bad_request (codes "no paths given") [])
unfolding check_send
no_paths = refl

stops_at_b :
    let t =
      session_run clock
        (transfer_ops uploads (codes "send-1") (good tt) one_retry two_files)
        sending in
    t.session.detail ≡ codes "upload b: permission denied"
unfolding session_run transfer_ops transfer_loop emit_reports throttle lookup insert session_step
    logf fail shutdown set_state State-discrete emit add_closer new_session Text-discrete
stops_at_b = refl

transfer_ops-Leaves_example : Leaves uploads sending (good tt) two_files (
    session_run clock (transfer_ops uploads (codes "send-1") (good tt) one_retry two_files) sending)
unfolding new_session
transfer_ops-Leaves_example =
    transfer_ops-Leaves clock uploads (codes "send-1") (good tt) one_retry two_files sending
      sending-IsCoherent refl tt

abbrev progress : Bool → ℕ → Progress
progress done n = record {
  path = codes "/a";
  bytes = n;
  total = ℤ.pos 100;
  upload = true;
  done = done;
}

-- Three reports within 100 ms, the last of them final, and one of the next transfer.
abbrev reports : List (ℕ × Progress)
reports =
    (1000, progress false 10)
    ∷ (2000, progress false 20)
    ∷ (3000, progress true 100)
    ∷ (4000, progress false 5)
    ∷ []

drops_one : length (throttle_all reports []) ≡ 3
unfolding throttle_all throttle lookup insert erase Text-discrete
drops_one = refl

throttle_all-spaced_example :
    (spaced (codes "/a") (lookup (codes "/a") []) (throttle_all reports []) ≡ true)
    × (finals (throttle_all reports []) ≡ finals reports)
    × (of_file (codes "/a") (throttle_all reports [])
        ≡ due (codes "/a") (lookup (codes "/a") []) reports)
throttle_all-spaced_example = throttle_all-spaced (codes "/a") reports []
