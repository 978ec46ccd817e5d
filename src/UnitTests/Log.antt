-- ===== src/UnitTests/Log.antt =====
-- unittests/src/log-tests.cpp: seven loggers with channels of all levels, and a log on each.
use octo_logger_cpp.Prelude.{
  ◌≡◌, refl, ◌==◌, Bool, true, false, ◌&&◌, Option, none, some, List, [], ◌∷◌, ◌++◌,
}
use octo_logger_cpp.Prelude.Text.{Text, text_Eq, codes}
use octo_logger_cpp.Prelude.Map.{find, insert_or_assign}
use octo_logger_cpp.Level.{LogLevel, value}
use octo_logger_cpp.Channel.{Logger, Log, set_log_level, c_string, until_nul}
use octo_logger_cpp.Manager.{Manager, with_heap, new_manager, create_channel}
use octo_logger_cpp.Logger.{no_manager, managed, instance_of, make_logger, make_log}

-- The short names, with the levels.
abbrev levels : List (Text × LogLevel)
levels =
    (codes "trace", LogLevel.trace)
    ∷ (codes "debug", LogLevel.debug)
    ∷ (codes "info", LogLevel.info)
    ∷ (codes "notice", LogLevel.notice)
    ∷ (codes "warning", LogLevel.warning)
    ∷ (codes "error", LogLevel.error)
    ∷ (codes "quiet", LogLevel.quiet)
    ∷ []

-- The members of LogTestsFixture: one logger after the other.
abbrev make_all : List (Text × LogLevel) → Manager → List Logger × Manager
make_all [] m = ([], m)
make_all ((name, level) ∷ rest) m =
    let (l, m1) =
      make_logger record { bytes = codes "logger_" ++ (name ++ codes "_channel"); after = [] }
        (managed m) in
    let (ls, m2) = make_all rest m1 in (l ∷ ls, m2)

-- The body of its constructor
abbrev set_all_levels : List (Text × LogLevel) → List Logger → Manager → Manager
set_all_levels ((name, level) ∷ rest) (l ∷ ls) m =
    set_all_levels rest ls (with_heap (set_log_level level l.channel_view m.memory.channel_heap) m)
set_all_levels [] ls m = m
set_all_levels (x ∷ rest) [] m = m

abbrev fixture : List Logger × Manager
fixture =
    let before =
      instance_of
        (no_manager record { channel_heap = []; sink_heap = []; calls = []; released = [] }) in
    let (ls, m) = make_all levels before in (ls, set_all_levels levels ls m)

-- LogLevelEquals(level).match(log.log_level())
abbrev level_matches : LogLevel → Option Log → Bool
level_matches level none = false
level_matches level (some l) = value level == value l.log_level

-- The section "Initialize LogLevel"
abbrev initialize_log_level : List (Text × LogLevel) → List Logger → Bool
initialize_log_level ((name, level) ∷ rest) (l ∷ ls) =
    level_matches level (make_log level (codes "log_" ++ name) [] l fixture.1.memory.channel_heap)
    && initialize_log_level rest ls
initialize_log_level [] [] = true
initialize_log_level [] (l ∷ ls) = false
initialize_log_level (x ∷ rest) [] = false

all_pass : initialize_log_level levels fixture.0 ≡ true
unfolding instance_of make_logger new_manager create_channel c_string until_nul find
    insert_or_assign set_log_level make_log
all_pass = refl
