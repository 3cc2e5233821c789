-- ===== src/Tcp/Client/Main.antt =====
-- GO++PROJECT/src/cpp_tcp_benchmark/client/tcp_client.cpp: `main`. What it finds on the disk, how the
-- writing of the test file goes, whether the file's size can be asked for and the file opened for
-- reading, what the operations of the client have completed with so far, and whether the directory and
-- the two CSV files of the reports can be made are arguments.
pub mod Exit
use grpccapnp.Base.{
  ℕ, ◌-◌, ◌<◌, ◌≡◌, ◌⊎◌, ◌||◌, inl, inr, refl, sym, subst, ap, ◌∙◌, Bool, true, false, not, List,
  [], Option, none, some, Byte, arith, ◌==◌, ==_refl, ==_eq, Bool-cases, if◌then◌else◌,
}
use grpccapnp.Common.Double.{Double}
use grpccapnp.Common.Stream.{File, IsSound}
use grpccapnp.Tcp.Config.{test_file_name, total_file_size, chunk_size}
use grpccapnp.Tcp.TestFile.{Prepared, generate_test_file_if_not_exists, test_file_prepared}
use grpccapnp.Tcp.ChunkReader
use grpccapnp.Tcp.ChunkReader.{ChunkReader, make_opened}
use grpccapnp.Tcp.Metrics
use grpccapnp.Tcp.Metrics.Report.{Line, Saved, print_summary, save_to_csv}
use grpccapnp.Tcp.Client.{Waiting, nothing, unwound, Clock, Client, make}
use grpccapnp.Tcp.Client.Outcomes.{Completion, complete_all}
use grpccapnp.Tcp.Client.Stopped.{is_pending, IsUnstopped, IsStopped}

pub record Setting : Type 0 where
  pub found : Option File
  pub opens : Bool
  pub disk : ℕ → Bool
  pub rng : ℕ → Byte
  pub lost : ℕ
  pub measured : Bool
  pub readable : Bool
  pub completions : List (Clock × Completion)
  pub directory_ready : Bool
  pub overall_opens : Bool
  pub rtt_opens : Bool

-- How far `main` has come: its exit status, `none` while `io_context.run()` has not returned, its client
-- if it came to that, and its reports.
pub record Ended (double : Double) : Type 0 where
  pub exit_code : Option ℕ
  pub client : Option (Client double)
  pub summary : List (Line double.Carrier)
  pub saved : Option (Saved double.Carrier)

module _ (double : Double) where
  pub aborted : Ended double
  aborted = record { exit_code = some 1; client = none; summary = []; saved = none }

  pub report : Setting → Client double → Ended double
  report w c =
      let saved = save_to_csv double w.directory_ready w.overall_opens w.rtt_opens c.metrics in
      record {
        exit_code = some (if saved.thrown then 1 else 0);
        client = some c;
        summary = print_summary double c.metrics;
        saved = some saved;
      }

  -- `io_context.run()` returns once nothing is under way, and lets a handler's exception through.
  pub run_ends : Setting → Waiting → Client double → Ended double
  unfolding report
  run_ends w nothing c = report w c
  run_ends w unwound c = record { exit_code = some 1; client = some c; summary = []; saved = none }
  run_ends w _ c = record { exit_code = none; client = some c; summary = []; saved = none }

  pub run_client : Setting → ChunkReader → Ended double
  unfolding run_ends
  run_client w reader =
      let metrics = Metrics.make double "CPP_TCP" total_file_size chunk_size in
      let c = complete_all double w.completions (make double reader metrics) in
      run_ends w c.waiting c

  pub start_client : Setting → Option ChunkReader → Ended double
  unfolding aborted run_client
  start_client w none = aborted
  start_client w (some reader) = run_client w reader

  pub check_file : Setting → Option File → Ended double
  unfolding start_client
  check_file w none = aborted
  check_file w (some f) =
      if not w.measured || not (f.size == total_file_size)
      then aborted
      else start_client w
          (ChunkReader.make (λ name. if w.readable then some f else none) test_file_name chunk_size)

  pub after_file : Setting → Prepared → Ended double
  unfolding check_file
  after_file w p = if p.thrown then aborted else check_file w p.file

  pub from_preparation : Setting → Option Prepared → Option (Ended double)
  unfolding after_file
  from_preparation w none = none
  from_preparation w (some p) = some (after_file w p)

  -- `none` means that the fuel for writing the test file ran out.
  unfoldable pub main : Setting → Option (Ended double)
  unfolding from_preparation
  main w =
      from_preparation w
        (generate_test_file_if_not_exists w.found w.opens w.disk w.rng w.lost total_file_size)

  -- The client of `main` after the completions so far.
  abbrev pub client_over : Setting → File → Client double
  client_over w f = complete_all double w.completions (
      make double (make_opened f chunk_size)
        (Metrics.make double "CPP_TCP" total_file_size chunk_size))

  -- Where `main` stands with that client: it waits on, or an exception of a handler has ended it, or the
  -- client has stopped, and then the status is that of saving the reports.
  abbrev pub Ran : Setting → Client double → Ended double → Type 0
  Ran w c e =
      (IsUnstopped double c
        × (is_pending c.waiting ≡ true)
        × (e.exit_code ≡ none)
        × (e.saved ≡ none))
      ⊎ (IsUnstopped double c × (c.waiting ≡ unwound) × (e.exit_code ≡ some 1) × (e.saved ≡ none))
      ⊎ (IsStopped double c
          × (e.exit_code ≡ some (if w.directory_ready then 0 else 1))
          × (e.saved
              ≡ some (save_to_csv double w.directory_ready w.overall_opens w.rtt_opens c.metrics)))

  -- Why `main` has given up before it has a client.
  pub data Obstacle (w : Setting) : Type 0 where
    unopened : w.opens ≡ false → Obstacle w
    unwritten : (k : ℕ) → k < total_file_size → w.disk k ≡ false → Obstacle w
    unflushed : 0 < w.lost → Obstacle w
    unmeasured : w.measured ≡ false → Obstacle w
    unreadable : w.readable ≡ false → Obstacle w

  abbrev pub GaveUp : Setting → Ended double → Type 0
  GaveUp w e = (e.exit_code ≡ some 1) × (e.client ≡ none) × (e.saved ≡ none) × Obstacle w

  abbrev pub Accounted : Setting → Ended double → Type 0
  Accounted w e =
      ((f : File) × (f.size ≡ total_file_size)
        × ((w.found ≡ some f) ⊎ IsSound f)
        × (w.measured ≡ true)
        × (w.readable ≡ true)
        × (e.client ≡ some (client_over w f))
        × Ran w (client_over w f) e)
      ⊎ GaveUp w e
