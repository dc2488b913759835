-- ===== src/Log/Opening.antt =====
-- When the log opens, and what it then writes to.
use samp_plugin_api.Prelude.{
  ◌≡◌, ◌≢◌, ◌⊎◌, refl, Bool, true, false, Option, none, some, [], ◌∷◌, ◌++◌, Text, codes, inl, inr,
  arith,
}
use samp_plugin_api.Log.{
  Files, Log, check_path, register_opened, register_checked, register_file, finish_log, open_log,
  register_sink, setup_default_logger,
}

module _ {Fs Sink : Type 0} (files : Files Fs Sink) where
  open files use {
    is_regular_file, is_directory, parent_path, create_directories, open_daily, console,
  }

  -- What the check of a path comes to. It throws if the test of the path does; the path is fit if
  -- it is a file, or has no parent; else it depends on the parent: it throws if a test of that
  -- does, the path is fit if the parent is a directory or a file, and otherwise the check creates the
  -- parent, and ends as this does.
  abbrev pub Parental : Text → Fs → Fs × Option Bool → Type 0
  Parental parent fs c =
      ((is_directory fs parent ≡ none) × (c ≡ (fs, none)))
      ⊎ (((is_directory fs parent ≡ some true) × (c ≡ (fs, some true)))
          ⊎ ((is_directory fs parent ≡ some false)
              × (((is_regular_file fs parent ≡ none) × (c ≡ (fs, none)))
                  ⊎ (((is_regular_file fs parent ≡ some true) × (c ≡ (fs, some true)))
                      ⊎ ((is_regular_file fs parent ≡ some false)
                          × (c ≡ create_directories parent fs))))))

  abbrev pub Checks : Text → Fs → Fs × Option Bool → Type 0
  Checks path fs c =
      ((is_regular_file fs path ≡ none) × (c ≡ (fs, none)))
      ⊎ (((is_regular_file fs path ≡ some true) × (c ≡ (fs, some true)))
          ⊎ ((is_regular_file fs path ≡ some false)
              × (((parent_path path ≡ []) × (c ≡ (fs, some true)))
                  ⊎ ((parent_path path ≢ []) × Parental (parent_path path) fs c))))

  check_path-Checks : (path : Text) (fs : Fs) → Checks path fs (check_path files path fs)
  unfolding check_path
  check_path-Checks path fs = ground arith

  -- What registering a file can come to, from the check of its path.
  abbrev Registered : Text → Log Sink → Fs × Option Bool → Fs × Log Sink × Option Bool → Type 0
  Registered name log checked (fs, log', done) =
      ((done ≡ none) × (checked ≡ (fs, none)) × (log' ≡ log))
      ⊎ (((done ≡ some false)
            × (log' ≡ log)
            × ((checked ≡ (fs, some false))
                ⊎ ((checked.1 ≡ some true) × (open_daily name checked.0 ≡ (fs, none)))))
          ⊎ ((sink : Sink) × (done ≡ some true)
              × (checked.1 ≡ some true)
              × (open_daily name checked.0 ≡ (fs, some sink))
              × (log'.sinks ≡ log.sinks ++ sink ∷ [])))

  register_opened-Registered :
      (name : Text) (log : Log Sink) (fs : Fs) (o : Fs × Option Sink)
      → open_daily name fs ≡ o
      → Registered name log (fs, some true) (register_opened files log o)
  unfolding register_opened
  register_opened-Registered name log fs (fs', none) e = inr (inl (refl, refl, inr (refl, e)))
  register_opened-Registered name log fs (fs', some sink) e = inr (inr (sink, refl, refl, e, refl))

  register_checked-Registered :
      (name : Text) (log : Log Sink) (c : Fs × Option Bool)
      → Registered name log c (register_checked files name log c)
  unfolding register_checked
  register_checked-Registered name log (fs, none) = inl (refl, refl, refl)
  register_checked-Registered name log (fs, some false) = inr (inl (refl, refl, inl refl))
  register_checked-Registered name log (fs, some true) =
      register_opened-Registered name log fs (open_daily name fs) refl

  -- A file sink is added at the end exactly if its path is fit and it opens. Where the path is not
  -- fit or the file does not open, the call fails; where the check of the path throws, so does the
  -- call; and in both cases the sinks stay as they were.
  register_file-Registered :
      (name : Text) (fs : Fs) (log : Log Sink)
      → Registered name log (check_path files name fs) (register_file files name fs log)
  unfolding register_file
  register_file-Registered name fs log =
      register_checked-Registered name log (check_path files name fs)

  -- What opening the log can come to, from the check of the path: an exception that comes from the
  -- check; a failure, since the path is not fit or the daily file does not open; or a logger with the
  -- console and the sink of that file.
  abbrev pub Opened : Fs × Option Bool → Fs × Log Sink × Option Bool → Type 0
  Opened checked (fs, log, done) =
      ((done ≡ none) × (checked ≡ (fs, none)) × (log.logger ≡ none))
      ⊎ (((done ≡ some false)
            × (log.logger ≡ none)
            × ((checked ≡ (fs, some false))
                ⊎ ((checked.1 ≡ some true)
                    × (open_daily (codes "logs/api.log") checked.0 ≡ (fs, none)))))
          ⊎ ((sink : Sink) × (done ≡ some true)
              × (checked.1 ≡ some true)
              × (open_daily (codes "logs/api.log") checked.0 ≡ (fs, some sink))
              × (log.logger
                  ≡ some (record {
                    name = codes "SA-MP Api";
                    sinks = console ∷ sink ∷ [];
                    flushes_on_error = true;
                  }))))

  finish_log-Opened :
      (c : Fs × Option Bool) (out : Fs × Log Sink × Option Bool)
      → Registered (codes "logs/api.log") (record { sinks = console ∷ []; logger = none }) c out
      → Opened c (finish_log files out)
  unfolding finish_log setup_default_logger
  finish_log-Opened c (fs, log, none) (inl (e, f, same)) = inl (refl, f, ground arith)
  finish_log-Opened c (fs, log, some b) (inl (e, f, same)) = cc
  finish_log-Opened c (fs, log, some false) (inr (inl (e, same, why))) =
      inr (inl (refl, ground arith, why))
  finish_log-Opened c (fs, log, some true) (inr (inl (e, same, _))) = cc
  finish_log-Opened c (fs, log, none) (inr (inl (e, same, _))) = cc
  finish_log-Opened c (fs, log, some true) (inr (inr (sink, _, fit, opened, e))) =
      inr (inr (sink, refl, fit, opened, ground arith))
  finish_log-Opened c (fs, log, some false) (inr (inr (sink, yep, _, _, _))) = cc
  finish_log-Opened c (fs, log, none) (inr (inr (sink, yep, _, _, _))) = cc

  -- `OpenLog` follows the check of `logs/api.log`, whose outcome the tests of the file system
  -- determine, and the opening of the daily file: if the path is fit and the file opens, it leaves a
  -- logger that writes to the server's console and to that file and flushes on errors; if the path is
  -- not fit or the file does not open, it fails and sets no logger up; if the check throws, so does
  -- it.
  pub open_log-Opened :
      (fs : Fs)
      → (c : Fs × Option Bool) × Checks (codes "logs/api.log") fs c × Opened c (open_log files fs)
  unfolding open_log register_sink
  open_log-Opened fs = (
    check_path files (codes "logs/api.log") fs,
    check_path-Checks (codes "logs/api.log") fs,
    finish_log-Opened (check_path files (codes "logs/api.log") fs) _ (
        register_file-Registered (codes "logs/api.log") fs
          (record { sinks = console ∷ []; logger = none })),
  )
