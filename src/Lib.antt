-- ===== src/Lib.antt =====
-- Verification of the shells of sp_prj2 and the command interpreter of sp_prj1 (a course's system
-- programming projects).
--
-- The program. sp_prj2/phase3/myshell.c is a shell with job control. `main` reads a line and hands
-- it to `eval`, which splits it by `parse_line` into the segments of a pipeline; a single segment is
-- split by `parseline` and tried as a built-in command, and everything else goes to
-- `launch_pipeline`, which forks a process for each segment, wires them by pipes, and registers the
-- job. The handler of SIGCHLD, the built-in commands and the wait for the foreground job all work on
-- one job table. The shells of sp_prj2/phase1/myshell.c and sp_prj2/phase2/myshell.c are its earlier
-- stages: one command a line, and pipelines by a recursive `run_pipe`.
-- sp_prj1/20241620/main.c reads commands that create, change and print lists, hash tables and bitmaps
-- by their names; it calls the libraries list.c, hash.c and bitmap.c beside it.
--
-- The files. Each function of the source has a definition of its name.
--   Base: shared names, lists and tests over the native numbers, signed integers, chains of Option.
--   Shell/Text, Shell/Trim, Shell/Find: `trim_ws`, `normalize_jobcmd` and the searches in a text.
--   Shell/Line: `parse_line`. Shell/Words: `parseline`. Shell/JobId: `parse_job_id` with strtol.
--   Shell/Jobs: the job table and its operations; the slots, their invariant and the look-up.
--   Shell/Signals, Shell/Handlers: the handlers and their installation; Shell/Signals/PerJob: the handler
--     of SIGCHLD against a specification without slots. Shell/Wait: `wait_for_foreground`.
--   Shell/Builtins: `builtin_command` and the commands behind it.
--   Shell/Launch: `launch_pipeline`, its wiring, its descriptors (counted in Shell/Launch/Balance and
--     Shell/Launch/Descriptors) and its failures. Shell/System: the
--     wrappers of the system calls, and what they print in one turn of the loop.
--   Shell/Eval: `eval` and the loop of `main`; Shell/Eval/Runs: a whole line, from its text to its job.
--   Tokens: `strtok` in a loop. Phase1: phase1/myshell.c. Phase2: phase2/myshell.c; Phase2/Bound: its
--     `parseline` against that of phase 3.
--   Interp: main.c of sp_prj1, with its libraries as the parameters of Interp/Library: the tables and
--     the texts of commands, Interp/Items and Interp/World for its helpers and objects, Interp/Lists,
--     Interp/Hashes and Interp/Bitmaps for the three ladders of commands, Interp/Main for its loop;
--     Interp/Names, Interp/Sound, Interp/Objects and Interp/Chain for what is proved of them.
--   Interp/Spec: the commands on lists as operations on lists of numbers, the laws of list.h that they
--     rest on, and the refinement, from one command to the run of `main`; Interp/Spec/Slots, Create,
--     Delete and Cleanup for the slots of the lists. Tests/Linked: a library that keeps the laws.
--   Interp/Added, Links: the functions added to sp_prj1/20241620/bitmap.c, hash.c and list.c.
--   Interp/Ranges: the functions of sp_prj1/20241620/bitmap.c on several bits, over those on one bit;
--     Interp/Ranges/Scan for the search of a group of bits.
--   Tests: runs at concrete inputs, and each theorem at an input that meets its hypotheses.
--
-- The state. A `char *` is the list of bytes up to its NUL. `jobs`, `next_jid` and `fg_pgid` are the
-- record `Table`; a `job_t *` is the index of its slot. What the kernel answers (the results of
-- fork, pipe, execvp and kill, and the reports of waitpid) comes as arguments: an `Env`, a `Stage`
-- for each turn of `launch_pipeline`, and a schedule of deliveries for the waits. A function that
-- forks is followed in either process: a result of 0 stands for the child.
-- In Interp a function of a library is a step on an abstract store that may abort, and the objects of
-- the program are the record `Tables`; an overflow of `int` in hash_apply counts as an abort.
--
-- Bounds and fuel. The loops of `parseline` run on one unit of fuel more than the line has bytes,
-- since each turn passes over a byte. The loops of `dump_list`,
-- `dump_hash` and `destroy_list` run on one unit more than the container has elements, and `list_swap`,
-- which calls itself once with its arguments changed about, on 2. Every other loop is a recursion on
-- its list or on the slots.
-- Process ids and groups are signed. `next_jid` is a number without bound; it would reach the end
-- of `int` after 2 ^ 31 - 1 jobs. A `long` has 64 bits and an `int` 32.
--
-- `argv` has room for 127 words and its NULL in all three shells. Phase 3 stops there; in phase 1 and
-- phase 2 a line with more is an ending of its own, the store behind the array, of which nothing
-- further is said.
--
-- Taken as given: setpgid succeeds; kill and printf in `builtin_bg` see the job as it is at one moment,
-- with no SIGCHLD between them. A process of a pipeline whose execvp failed goes on in the shell's code
-- with SIGCHLD let in; the reports before its own `add_job` are on processes that its table does not
-- have.
-- The lines of sp_prj1 that the sessions are made of end in their newline and are shorter than
-- LINE_LEN; fgets hands over a longer one in parts, each of which is a line of the model.
--
-- Not modelled: the wording of the messages of `unix_error` and `perror`, reading a line into its buffer,
-- and the libraries of sp_prj1/20241620 but for what is named above; sp_prj1/sp_prj1_code/main.c is a
-- second copy of the interpreter.
-- The textbook's csapp.c and shellex.c are copies that no program here is linked with.
pub mod Base
pub mod Shell
pub mod Tokens
pub mod Phase1
pub mod Phase2
pub mod Interp
pub mod Links
pub mod Tests
