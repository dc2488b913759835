-- ===== src/Log.antt =====
-- share/log/Log.hpp, share/log/Log.cpp, and `OpenLog` of api/Api.cpp. The file system and the sinks
-- of spdlog are the interface `Files`.
pub mod Opening
pub mod Console
use samp_plugin_api.Prelude.{
  Bool, true, false, not, Option, none, some, List, [], ◌∷◌, ◌++◌, Text, codes, if◌then◌else◌,
}

-- `Fs` is the state of the file system. A test and `create_directories` give nothing where they
-- throw `filesystem_error`; `open_daily` is the constructor of a daily file sink, and gives nothing
-- where it throws `spdlog_ex`.
pub record Files (Fs Sink : Type 0) : Type 0 where
  pub is_regular_file : Fs → Text → Option Bool
  pub is_directory : Fs → Text → Option Bool
  pub parent_path : Text → Text
  pub create_directories : Text → Fs → Fs × Option Bool
  pub open_daily : Text → Fs → Fs × Option Sink
  pub console : Sink

pub record Logger (Sink : Type 0) : Type 0 where
  pub name : Text
  pub sinks : List Sink
  pub flushes_on_error : Bool

pub record Log (Sink : Type 0) : Type 0 where
  pub sinks : List Sink
  pub logger : Option (Logger Sink)

abbrev is_blank : Text → Bool
is_blank [] = true
is_blank (_ ∷ _) = false

-- `SAMP_LOG_INIT`.
abbrev new_log : {Sink : Type 0} → Log Sink
new_log = record { sinks = []; logger = none }

-- A branch on a test that may throw; no result stands for an exception that leaves the call.
abbrev pub branch :
    {Fs : Type 0} → Fs → Option Bool → Fs × Option Bool → Fs × Option Bool → Fs × Option Bool
branch fs none hit miss = (fs, none)
branch fs (some true) hit miss = hit
branch fs (some false) hit miss = miss

module _ {Fs Sink : Type 0} (files : Files Fs Sink) where
  open files use {
    is_regular_file, is_directory, parent_path, create_directories, open_daily, console,
  }

  -- `Log::CheckPath`.
  unfoldable pub check_path : Text → Fs → Fs × Option Bool
  check_path path fs =
      let parent = parent_path path in
      let fit : Fs × Option Bool = (fs, some true) in
      branch fs (is_regular_file fs path) fit (
        if is_blank parent
        then fit
        else branch fs (is_directory fs parent) fit
            (branch fs (is_regular_file fs parent) fit (create_directories parent fs)))

  -- `Log::SetupDefaultLogger`.
  pub setup_default_logger : Text → Log Sink → Log Sink
  setup_default_logger name log = record log {
    logger = some (record { name = name; sinks = log.sinks; flushes_on_error = true });
  }

  -- `Log::RegisterLogSink` of a sink.
  unfoldable pub register_sink : Sink → Log Sink → Log Sink × Bool
  register_sink sink log = (record log { sinks = log.sinks ++ sink ∷ [] }, true)

  -- `Log::RegisterLogSink` of a path, behind the check of the path. It catches `spdlog_ex`, and no
  -- other exception.
  unfoldable pub register_opened : Log Sink → Fs × Option Sink → Fs × Log Sink × Option Bool
  register_opened log (fs, none) = (fs, log, some false)
  register_opened log (fs, some sink) =
      (fs, record log { sinks = log.sinks ++ sink ∷ [] }, some true)

  unfoldable pub register_checked : Text → Log Sink → Fs × Option Bool → Fs × Log Sink × Option Bool
  register_checked name log (fs, none) = (fs, log, none)
  register_checked name log (fs, some false) = (fs, log, some false)
  register_checked name log (fs, some true) = register_opened log (open_daily name fs)

  unfoldable pub register_file : Text → Fs → Log Sink → Fs × Log Sink × Option Bool
  register_file name fs log = register_checked name log (check_path name fs)

  -- `OpenLog` behind its two sinks.
  unfoldable pub finish_log : Fs × Log Sink × Option Bool → Fs × Log Sink × Option Bool
  finish_log (fs, log, none) = (fs, log, none)
  finish_log (fs, log, some false) = (fs, log, some false)
  finish_log (fs, log, some true) = (fs, setup_default_logger (codes "SA-MP Api") log, some true)

  -- `OpenLog`: the file system, the log, and the result, if no exception leaves it.
  unfoldable pub open_log : Fs → Fs × Log Sink × Option Bool
  open_log fs =
      let (log, done) = register_sink console new_log in
      if not done
      then (fs, log, some false)
      else finish_log (register_file (codes "logs/api.log") fs log)
