-- ===== src/Ttp/Tests.antt =====
-- A trace of two CPUs with room for two events each.
use grinch.Prelude.{◌≡◌, refl, true, false, List, [], ◌∷◌}
use grinch.Errno.{err, eagain}
use grinch.Ttp.{TtpEvent, Ttp, emit}
use grinch.Ttp.Record.{Call}
use grinch.Ttp.Session.{session, report, session-report}

abbrev block : List TtpEvent
block = record { id = 9; abstime = 9 } ∷ record { id = 8; abstime = 8 } ∷ []

abbrev stopped : Ttp
stopped = record {
  maxevents = 2;
  trace_active = false;
  stor = λ cpu. record { print_max = false; eventcount = 1; events = block };
  printed = [];
}

abbrev calls : List Call
calls = (0, 5, 100) ∷ (1, 6, 101) ∷ (0, 7, 102) ∷ (0, 5, 103) ∷ []

emit-stopped : (emit stopped 0 5 100).1 ≡ err eagain
unfolding emit
emit-stopped = refl

report-calls : report 2 (0 ∷ 1 ∷ []) calls ≡ (0, 5, 100) ∷ (0, 7, 102) ∷ (1, 6, 101) ∷ []
report-calls = refl

session-report_example :
    (session stopped (0 ∷ 1 ∷ []) calls).printed ≡ (0, 5, 100) ∷ (0, 7, 102) ∷ (1, 6, 101) ∷ []
session-report_example = session-report stopped (0 ∷ 1 ∷ []) calls refl (λ c h. refl)

abbrev active : Ttp
active = record stopped { trace_active = true }
