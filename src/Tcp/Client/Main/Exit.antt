-- ===== src/Tcp/Client/Main/Exit.antt =====
-- How `main` of the TCP client ends.
use grpccapnp.Base.{
  ℕ, ◌-◌, ◌<◌, ◌≡◌, ◌⊎◌, ◌||◌, inl, inr, refl, sym, subst, ap, ◌∙◌, Bool, true, false, not, [],
  none, some, arith, ◌==◌, ==_refl, ==_eq, if◌then◌else◌,
}
use grpccapnp.Common.Double.{Double}
use grpccapnp.Common.Stream.{File, IsSound}
use grpccapnp.Tcp.Config.{test_file_name, total_file_size, chunk_size}
use grpccapnp.Tcp.TestFile.{Prepared, generate_test_file_if_not_exists, test_file_prepared}
use grpccapnp.Tcp.ChunkReader
use grpccapnp.Tcp.ChunkReader.{make_opened}
use grpccapnp.Tcp.Metrics
use grpccapnp.Tcp.Metrics.Report.{save_to_csv}
use grpccapnp.Tcp.Client.{Waiting, nothing, unwound, Client}
use grpccapnp.Tcp.Client.Stopped.{is_pending}
use grpccapnp.Tcp.Client.Stopped.Once.{stops_once}
use grpccapnp.Tcp.Client.Main.{
  Setting, Ended, aborted, report, run_ends, run_client, start_client, check_file, after_file,
  from_preparation, main, client_over, Ran, unopened, unwritten, unflushed, unmeasured, unreadable,
  Accounted,
}

module _ (double : Double) where
  report-status :
      (w : Setting) (c : Client double)
      → (report double w c).exit_code ≡ some (if w.directory_ready then 0 else 1)
  unfolding report save_to_csv
  report-status w c = ground arith

  run_ends_waiting :
      (w : Setting) (wait : Waiting) (c : Client double)
      → is_pending wait ≡ true
      → run_ends double w wait c
        ≡ record { exit_code = none; client = some c; summary = []; saved = none }
  unfolding run_ends
  run_ends_waiting w nothing c e = absurd cc
  run_ends_waiting w unwound c e = absurd cc
  run_ends_waiting w _ c e = refl

  run_ends_thrown :
      (w : Setting) (wait : Waiting) (c : Client double)
      → wait ≡ unwound
      → run_ends double w wait c
        ≡ record { exit_code = some 1; client = some c; summary = []; saved = none }
  unfolding run_ends
  run_ends_thrown w wait c e = ap (λ q. run_ends double w q c) e

  run_ends_well :
      (w : Setting) (wait : Waiting) (c : Client double)
      → wait ≡ nothing
      → run_ends double w wait c ≡ report double w c
  unfolding run_ends
  run_ends_well w wait c e = ap (λ q. run_ends double w q c) e

  abbrev Runs : Setting → Client double → Ended double → Type 0
  Runs w c e = (e.client ≡ some c) × Ran double w c e

  run-Ran :
      (w : Setting) (f : File)
      → let c = client_over double w f in Runs w c (run_ends double w c.waiting c)
  unfolding report
  run-Ran w f =
      let c = client_over double w f in
      elim (stops_once double (make_opened f chunk_size)
        (Metrics.make double "CPP_TCP" total_file_size chunk_size) w.completions []) [
          | inl (h, e) ↦
              subst (Runs w c) (sym (run_ends_waiting w c.waiting c e))
                (refl, inl (h, e, refl, refl))
          | inr (inl (h, e, _)) ↦
              subst (Runs w c) (sym (run_ends_thrown w c.waiting c e))
                (refl, inr (inl (h, e, refl, refl)))
          | inr (inr (h, _)) ↦
              subst (Runs w c) (sym (run_ends_well w c.waiting c h.5))
                (refl, inr (inr (h, report-status w c, refl)))
        ]

  -- `check_file` as its three tests decide.
  abbrev decided : Setting → File → Bool → Bool → Bool → Ended double
  decided w f measured same readable =
      if not measured || not same
      then aborted double
      else start_client double w
          (ChunkReader.make (λ name. if readable then some f else none) test_file_name chunk_size)

  abbrev Origin : Setting → File → Type 0
  Origin w f =
      ((w.found ≡ some f) × (f.size ≡ total_file_size))
      ⊎ (IsSound f × (f.size ≡ total_file_size - w.lost))

  found_or_sound : (w : Setting) (f : File) → Origin w f → (w.found ≡ some f) ⊎ IsSound f
  found_or_sound w f (inl (found, _)) = inl found
  found_or_sound w f (inr (sound, _)) = inr sound

  short : (a b l : ℕ) → (a == b) ≡ false → a ≡ b - l → 0 < l
  short a b l e h = ground arith

  decided_outcome :
      (w : Setting) (f : File) (measured same readable : Bool)
      → w.measured ≡ measured
      → (f.size == total_file_size) ≡ same
      → w.readable ≡ readable
      → Origin w f
      → Accounted double w (decided w f measured same readable)
  unfolding aborted start_client run_client ChunkReader.make
  decided_outcome w f false same readable m e r origin = inr (refl, refl, refl, unmeasured m)
  decided_outcome w f true false readable m e r (inl (_, size)) =
      absurd (ground (arith, e, size, ==_refl total_file_size))
  decided_outcome w f true false readable m e r (inr (_, size)) =
      inr (refl, refl, refl, unflushed (short f.size total_file_size w.lost e size))
  decided_outcome w f true true false m e r origin = inr (refl, refl, refl, unreadable r)
  decided_outcome w f true true true m e r origin =
      let (is, ran) = run-Ran w f in
      inl (f, ==_eq f.size total_file_size e, found_or_sound w f origin, m, r, is, ran)

  file_outcome :
      (w : Setting) (f : File) → Origin w f → Accounted double w (check_file double w (some f))
  unfolding check_file
  file_outcome w f origin = decided_outcome w f w.measured _ w.readable refl refl refl origin

  main_step :
      (w : Setting) (p : Prepared)
      → generate_test_file_if_not_exists w.found w.opens w.disk w.rng w.lost total_file_size
        ≡ some p
      → main double w ≡ some (after_file double w p)
  unfolding main
  main_step w p e = ap (from_preparation double w) e

  after_outcome :
      (w : Setting) (p p' : Prepared)
      → generate_test_file_if_not_exists w.found w.opens w.disk w.rng w.lost total_file_size
        ≡ some p
      → p ≡ p'
      → Accounted double w (after_file double w p')
      → (e : Ended double) × (main double w ≡ some e) × Accounted double w e
  after_outcome w p p' made is h = (after_file double w p', main_step w p' (made ∙ ap some is), h)

  -- Preparing the test file always ends. Then `main` either stands where its client stands, over a file
  -- of the expected size that was found or reads to its end: while an operation is under way, `main`
  -- has not ended; if an exception has left a handler, it has ended with 1 and saved nothing; and once
  -- the client has stopped, with or without an error, it has gone on to save the reports, and ended
  -- with 0, or with 1 if the directory for them was not to be had. Or it has ended with 1, with no
  -- client and nothing saved, since the test file could not be opened for writing, a write below its
  -- size failed, its last flush lost bytes, its size could not be asked for, or it could not be opened
  -- for reading.
  pub main_exit :
      (w : Setting) → (e : Ended double) × (main double w ≡ some e) × Accounted double w e
  unfolding after_file aborted
  main_exit w =
      let (p, made, cases) =
        test_file_prepared w.found w.opens w.disk w.rng w.lost total_file_size in
      elim cases [
        | inl (f, found, size, is) ↦
            after_outcome w p _ made is (file_outcome w f (inl (found, size)))
        | inr (inl (opens, inl (f, is, size, sound))) ↦
            after_outcome w p _ made is (file_outcome w f (inr (sound, size)))
        | inr (inl (opens, inr (is, k, below, failed))) ↦
            after_outcome w p _ made is (inr (refl, refl, refl, unwritten k below failed))
        | inr (inr (closed, is)) ↦
            after_outcome w p _ made is (inr (refl, refl, refl, unopened closed))
      ]
