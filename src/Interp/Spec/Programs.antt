-- ===== src/Interp/Spec/Programs.antt =====
-- Whole sessions of sp_prj1/20241620/main.c that create, use and delete lists.
use system_programming.Base.{
  ℕ, zero, suc, ℤ, All, Bool-cases, false, Option, none, some, List, [], ◌∷◌, ◌≡◌, ◌∙◌, refl, sym,
  ap, inl, inr, map, take, replicate, ◌<◌,
}
use system_programming.Shell.Text.{Text, newline}
use system_programming.Shell.Builtins.{same_text}
use system_programming.Tokens.Laws.{IsToken, tokens-spaced_end}
use system_programming.Interp.{find_used, max_ds, token_max}
use system_programming.Interp.Names.{same_text-eq}
use system_programming.Interp.Library.{Library, ◌>>=◌}
use system_programming.Interp.Objects.{run_tokens-unknown}
use system_programming.Interp.World.{Tables, no_objects, unused_slot, in_use}
use system_programming.Interp.Main.{
  is_delimiter, tokenize, goes_on, run_tokens, run_line, main_loop, main,
}
use system_programming.Interp.Spec.{step, Op, command, arguments}
use system_programming.Interp.Spec.Laws.{ListModel, ListLaws, values}
use system_programming.Interp.Spec.Lines.{
  word, command-IsToken, take-words, command-others, run_tokens-Runs,
}
use system_programming.Interp.Spec.Views.{Becomes}
use system_programming.Interp.Spec.Slots.{same_slot, other_slot, HasNames}
use system_programming.Interp.Spec.Objects.{
  Command, create, delete, on, Named, rename, exec, exec_all, nothing, command_words, command_line,
  HasWords, AreAllowed, StandsFor, absent_object,
}
use system_programming.Interp.Spec.Create.{create-StandsFor}
use system_programming.Interp.Spec.Delete.{delete-StandsFor}
use system_programming.Interp.Spec.Cleanup.{cleanup_all_objects-frees}

command_words-AreTokens :
    (c : Command) (m : Named) → HasWords c m → All (IsToken is_delimiter) (command_words c)
unfolding is_delimiter
command_words-AreTokens (create name) m h = (word refl refl, (word refl refl, (h.0, tt)))
command_words-AreTokens (delete name) m h = (word refl refl, (h, tt))
command_words-AreTokens (on name op) m h = (command-IsToken op, h)

take-command_words : (c : Command) → take token_max (command_words c) ≡ command_words c
take-command_words (create name) = refl
take-command_words (delete name) = refl
take-command_words (on name op) = take-words name op

tokenize-command_line :
    (c : Command) (m : Named) → HasWords c m → tokenize (command_line c) ≡ command_words c
unfolding tokenize
tokenize-command_line c m h =
    rw
      (tokens-spaced_end is_delimiter 32 newline (command_words c) (unfold is_delimiter in refl)
        (unfold is_delimiter in refl) (command_words-AreTokens c m h))
      (take-command_words c)

module _ (lib : Library) (model : ListModel lib) (laws : ListLaws lib model) where
  open lib use {Store, Bitmap}

  used-StandsFor :
      (w : Tables Bitmap) (s s' : Store) (m : Named) (name : Text) (i : ℕ) (vs : List ℤ)
      → StandsFor lib model w s m
      → find_used name w.lists ≡ some i
      → Becomes lib model laws s s' i vs
      → StandsFor lib model w s' (rename name (some vs) m.count m)
  used-StandsFor w s s' m name i vs h found (at, becomes, others) = record {
    no_hash = h.no_hash;
    no_bitmap = h.no_bitmap;
    list = λ other j f. elim (Bool-cases (same_text other name)) [
      | inl y ↦
          let same : i ≡ j = same_slot w.lists name other i j (same_text-eq other name y) found f in
          rw (y, ← same) (at, ap some (sym becomes))
      | inr n ↦
          let (has, kept) =
            others j (other_slot w.lists name other i j n found f) (h.list other j f).0 in
          rw n (has, (h.list other j f).1 ∙ ap some (sym kept))
    ];
    absent = λ other f. elim (Bool-cases (same_text other name)) [
      | inl y ↦ let e = same_text-eq other name y in cc
      | inr n ↦ rw n (h.absent other f)
    ];
    names = h.names;
    count = h.count;
    size = h.size;
  }

  -- A line does what the specification says.
  abbrev Does : Tables Bitmap → Store → Named → Command → Type 0
  Does w s m c =
      let (m', out) = exec c m in
      (w' : Tables Bitmap) × (s' : Store) × (run_tokens lib w (command_words c) s
        ≡ some (goes_on w' out, s'))
      × StandsFor lib model w' s' m'

  on-Does :
      (w : Tables Bitmap) (s : Store) (m : Named) (name : Text) (op : Op) (r : Option ℕ)
      → StandsFor lib model w s m
      → find_used name w.lists ≡ r
      → Does w s m (on name op)
  on-Does w s m name op none h e =
      let others = command-others op in
      rw (h.absent name e) (
        w,
        s,
        run_tokens-unknown lib w (command op) name (arguments op) s others.0 others.1
            (absent_object lib model w s m name h e),
        h,
      )
  on-Does w s m name op (some i) h e =
      let (at, has) = h.list name i e in
      let (s', runs, becomes) = run_tokens-Runs lib model laws w name op i s e at in
      let vs = (step op (values lib model s i)).0 in
      rw has (w, s', runs, used-StandsFor w s s' m name i vs h e becomes)

  run_tokens-Does :
      (w : Tables Bitmap) (s : Store) (m : Named) (c : Command)
      → StandsFor lib model w s m
      → HasWords c m
      → Does w s m c
  run_tokens-Does w s m (create name) h ok = create-StandsFor lib model laws w s m name h ok.1 ok.2
  run_tokens-Does w s m (delete name) h ok = delete-StandsFor lib model laws w s m name h
  run_tokens-Does w s m (on name op) h ok = on-Does w s m name op (find_used name w.lists) h refl

  main_loop-exec_all :
      (cs : List Command) (w : Tables Bitmap) (s : Store) (m : Named)
      → StandsFor lib model w s m
      → AreAllowed cs m
      → let (m', out) = exec_all cs m in
        (w' : Tables Bitmap) × (s' : Store) × (main_loop lib w (map command_line cs) s
          ≡ some ((w', out), s'))
        × StandsFor lib model w' s' m'
  unfolding main_loop run_line
  main_loop-exec_all [] w s m h ok = (w, s, refl, h)
  main_loop-exec_all (c ∷ cs) w s m h (ok, rest) =
      let (w1, s1, runs, h1) = run_tokens-Does w s m c h ok.0 in
      let (w', s', loops, h') = main_loop-exec_all cs w1 s1 (exec c m).0 h1 rest in
      (w', s', rw (tokenize-command_line c m ok.0, ◌>>=◌, runs, loops) refl, h')

  nowhere :
      {A : Type 0} (name : Text) (n : ℕ) (a : A)
      → find_used name (replicate n (unused_slot a)) ≡ none
  unfolding find_used
  nowhere name zero a = refl
  nowhere name (suc n) a = rw (nowhere name n a)

  unused-HasNames : {A : Type 0} (n : ℕ) (a : A) → HasNames (replicate n (unused_slot a))
  unused-HasNames zero a = tt
  unused-HasNames (suc n) a = (λ used. cc, unused-HasNames n a)

  no_objects-StandsFor : (s : Store) → StandsFor lib model no_objects s nothing
  no_objects-StandsFor s = record {
    no_hash = λ name. nowhere name max_ds tt;
    no_bitmap = λ name. nowhere name max_ds none;
    list = λ name i f. let e = nowhere name max_ds tt in cc;
    absent = λ name f. refl;
    names = unused-HasNames max_ds tt;
    count = refl;
    size = refl;
  }

  -- With a library that keeps the laws of list.h and finds memory, the program run on the lines, each
  -- with its newline and short enough for the buffer, of a session of commands that create lists, use
  -- them (all commands but insert, splice, unique, swap and shuffle) and delete them, in which what is
  -- created has a new name that fits, comes to its end, prints exactly what the specification prints,
  -- and has freed every slot of a list, whatever the store is at its start.
  pub main-refines :
      (cs : List Command) (s : Store)
      → AreAllowed cs nothing
      → (w : Tables Bitmap) × (s' : Store) × (main lib (map command_line cs) s
          ≡ some ((w, (exec_all cs nothing).1), s'))
        × ((k : ℕ) → k < max_ds → in_use w.lists k ≡ false)
  unfolding main
  main-refines cs s ok =
      let (w1, s1, loops, h) =
        main_loop-exec_all cs no_objects s nothing (no_objects-StandsFor s) ok in
      let (w, s', cleans, freed) =
        cleanup_all_objects-frees lib model laws w1 s1 (exec_all cs nothing).0 h in
      (w, s', rw (loops, ◌>>=◌, cleans), freed)
