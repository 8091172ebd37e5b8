-- ===== src/Daemon/BusTests.antt =====
-- A bus that keeps the functions in a table, and the calls that reach them.
use rdk_audiocapturemgr.Prelude.{◌≡◌, refl, Option, none, some, ◌==◌, if◌then◌else◌}
use rdk_audiocapturemgr.Prelude.Int.{pos}
use rdk_audiocapturemgr.Daemon.Bus.{
  Bus, CallName, Handler, name_open, open_session, number_of, activate, activate-called,
}

abbrev table : Bus
table = record {
  Registry = CallName → Option Handler;
  register_call = λ r n f. ((λ n'. if number_of n' == number_of n then some f else r n'), pos 0);
  called = λ r n. r n;
  called-register_call = λ r n n' f. refl;
}

table_activated : table.called (activate table (λ n. none)).0 name_open ≡ some open_session
table_activated = activate-called table (λ n. none) name_open
