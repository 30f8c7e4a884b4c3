-- ===== src/Shell/Eval/Sound.antt =====
-- The shell of sp_prj2/phase3/myshell.c keeps its job table sound from its start on.
use system_programming.Base.{
  Bool, List, Option, [], arith, false, inl, inr, length, none, refl, some, suc, true, ℕ, ℤ, ◌+◌,
  ◌<◌, ◌∷◌, ◌≡◌, ◌⊎◌, Option-cases, ap,
}
use system_programming.Shell.Text.{Text, normalize_jobcmd}
use system_programming.Shell.Words.{parseline}
use system_programming.Shell.Line.{Line, parse_line}
use system_programming.Shell.Jobs.{Table, init_jobs}
use system_programming.Shell.Jobs.Invariant.{IsTable, init_jobs-IsTable, add_job-IsTable}
use system_programming.Shell.Wait.{Outcome, returned, asleep, deliver}
use system_programming.Shell.Wait.Ends.{deliver-IsTable}
use system_programming.Shell.Builtins.{Command, exits, handled, external, builtin_command, Env}
use system_programming.Shell.Builtins.Sound.{
  Keeps, wait_for_foreground-Keeps, Leaves, builtin_command-Leaves,
}
use system_programming.Shell.Launch.{
  Stage, Image, Ending, finished, became, launch_pipeline, register, end_launch, Progress, Flow,
  onward, pipe_failed, replaced, launch_loop, first_progress, state_of,
}
use system_programming.Shell.Eval.{
  Answers, Evaluated, exit_shell, effect, launched, with_stages, launch_line, after_builtin,
  eval_one, eval_line, eval, Input, line, end_of_input, read_error, Round, Session, prompting, left,
  stuck, replaced_by, head_arg, after_outcome, after_eval, main_round, main_loop,
}

end_launch-Keeps :
    (env : Env) (bg : Bool) (pgid : ℤ) (r : Option ℕ) (t : Table)
    → IsTable t
    → Keeps (end_launch env bg pgid r t).outcome
unfolding end_launch
end_launch-Keeps env bg pgid none t h = h
end_launch-Keeps env true pgid (some i) t h = h
end_launch-Keeps env false pgid (some i) t h =
    wait_for_foreground-Keeps pgid env.schedule env.last t h

Flow-cases :
    (flow : Flow)
    → ((s : Progress) × (flow ≡ onward s))
      ⊎ (((s : Progress) × (flow ≡ pipe_failed s)) ⊎ ((image : Image) × (flow ≡ replaced image)))
Flow-cases (onward s) = inl (s, refl)
Flow-cases (pipe_failed s) = inr (inl (s, refl))
Flow-cases (replaced image) = inr (inr (image, refl))

abbrev EndingKeeps : Ending → Type 0
EndingKeeps (finished l) = Keeps l.outcome
EndingKeeps (became image) = Unit {0}

launch_pipeline-Keeps :
    (env : Env) (segments : List (Text × Stage)) (bg : Bool) (cmdline : Text) (t : Table)
    → 0 < length segments
    → IsTable t
    → EndingKeeps (launch_pipeline env segments bg cmdline t)
unfolding launch_pipeline register
launch_pipeline-Keeps env segments bg cmdline t some_segment h =
    elim (Flow-cases (launch_loop segments first_progress)) [
      | inl (s, e) ↦
          rw (e, launch_pipeline)
            (end_launch-Keeps env bg s.pgid _ _ (
              deliver-IsTable env.pending _ (
                add_job-IsTable s.pgid s.pids (length segments) (state_of bg) cmdline t h
                  some_segment)))
      | inr (inl (s, e)) ↦ rw (e, launch_pipeline) (deliver-IsTable env.pending t h)
      | inr (inr (image, e)) ↦ rw (e, launch_pipeline) tt
    ]

abbrev EvaluatedKeeps : Evaluated → Type 0
EvaluatedKeeps exit_shell = Unit {0}
EvaluatedKeeps (effect e) = Keeps e.outcome
EvaluatedKeeps (launched ending) = EndingKeeps ending

length-with_stages :
    (stages : ℕ → Stage) (k : ℕ) (segments : List Text)
    → length (with_stages stages k segments) ≡ length segments
unfolding with_stages
length-with_stages stages k [] = refl
length-with_stages stages k (segment ∷ rest) = ap suc (length-with_stages stages (k + 1) rest)

after_builtin-Keeps :
    (c : Command) (next : Evaluated)
    → Leaves c
    → EvaluatedKeeps next
    → EvaluatedKeeps (after_builtin c next)
unfolding after_builtin
after_builtin-Keeps exits next h k = tt
after_builtin-Keeps (handled e) next h k = h
after_builtin-Keeps external next h k = k

module _ (answers : Answers) (t : Table) (h : IsTable t) where
  launch_line-Keeps :
      (cmdline : Text) (l : Line)
      → 0 < length l.segments
      → EvaluatedKeeps (launch_line answers cmdline l t)
  unfolding launch_line
  launch_line-Keeps cmdline l some_segment =
      launch_pipeline-Keeps answers.env (with_stages answers.stages 0 l.segments) l.bg
        (normalize_jobcmd cmdline) t (omega (arith, length-with_stages answers.stages 0 l.segments))
        h

  eval_one-Keeps :
      (argv : List Text) (next : Evaluated)
      → EvaluatedKeeps next
      → EvaluatedKeeps (eval_one answers argv next t)
  unfolding eval_one
  eval_one-Keeps [] next k = h
  eval_one-Keeps (name ∷ args) next k =
      after_builtin-Keeps (builtin_command answers.env name (head_arg args) t) next
        (builtin_command-Leaves answers.env name (head_arg args) t h) k

  eval_line-Keeps :
      (cmdline : Text) (segments : List Text) (bg : Bool)
      → EvaluatedKeeps (eval_line answers cmdline (record { segments = segments; bg = bg }) t)
  unfolding eval_line
  eval_line-Keeps cmdline [] bg = h
  eval_line-Keeps cmdline (segment ∷ []) bg =
      eval_one-Keeps (parseline segment) _
        (launch_line-Keeps cmdline (record { segments = segment ∷ []; bg = bg }) (omega arith))
  eval_line-Keeps cmdline (segment ∷ s ∷ rest) bg =
      launch_line-Keeps cmdline (record { segments = segment ∷ s ∷ rest; bg = bg }) (omega arith)

  eval-Keeps : (cmdline : Text) → EvaluatedKeeps (eval answers cmdline t)
  unfolding eval
  eval-Keeps cmdline = elim (Option-cases (parse_line cmdline)) [
    | inl n ↦ rw (n, eval) h
    | inr (l, e) ↦ rw (e, eval) (eval_line-Keeps cmdline l.segments l.bg)
  ]

-- The table of a process that is still a shell is sound.
abbrev pub SessionKeeps : Session → Type 0
SessionKeeps (prompting t) = IsTable t
SessionKeeps left = Unit {0}
SessionKeeps (stuck t) = IsTable t
SessionKeeps (replaced_by image) = Unit {0}

after_outcome-Keeps :
    (o : Outcome) (next : Table → Session)
    → Keeps o
    → ((t : Table) → IsTable t → SessionKeeps (next t))
    → SessionKeeps (after_outcome o next)
after_outcome-Keeps (returned t) next h k = k t h
after_outcome-Keeps (asleep t) next h k = h

after_eval-Keeps :
    (e : Evaluated) (next : Table → Session)
    → EvaluatedKeeps e
    → ((t : Table) → IsTable t → SessionKeeps (next t))
    → SessionKeeps (after_eval e next)
unfolding after_eval
after_eval-Keeps exit_shell next h k = tt
after_eval-Keeps (effect e) next h k = after_outcome-Keeps e.outcome next h k
after_eval-Keeps (launched (finished l)) next h k = after_outcome-Keeps l.outcome next h k
after_eval-Keeps (launched (became image)) next h k = tt

main_round-Keeps :
    (input : Input) (answers : Answers) (next : Table → Session) (t : Table)
    → IsTable t
    → ((u : Table) → IsTable u → SessionKeeps (next u))
    → SessionKeeps (main_round input answers next t)
unfolding main_round
main_round-Keeps end_of_input answers next t h k = tt
main_round-Keeps read_error answers next t h k = k t h
main_round-Keeps (line cmdline) answers next t h k =
    after_eval-Keeps (eval answers cmdline t) next (eval-Keeps answers t h cmdline) k

main_loop-Keeps : (rounds : List Round) (t : Table) → IsTable t → SessionKeeps (main_loop rounds t)
unfolding main_loop
main_loop-Keeps [] t h = h
main_loop-Keeps (round ∷ rounds) t h =
    main_round-Keeps round.input round.answers (main_loop rounds) (deliver round.idle t)
      (deliver-IsTable round.idle t h) (λ u k. main_loop-Keeps rounds u k)

-- Whatever lines the shell reads from its start on, whatever signals come in at the prompt and in
-- its waits, and whatever the kernel answers: a process that still runs the shell's code, a child
-- whose `execvp` failed included, has a sound job table.
pub main_loop-IsTable : (rounds : List Round) → SessionKeeps (main_loop rounds init_jobs)
main_loop-IsTable rounds = main_loop-Keeps rounds init_jobs init_jobs-IsTable
