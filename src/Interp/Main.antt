-- ===== src/Interp/Main.antt =====
-- The loop of `main` of sp_prj1/20241620/main.c.
use system_programming.Base.{
  ℕ, Bool, none, some, List, [], ◌∷◌, ◌++◌, ◌||◌, ◌==◌, take, length, if◌then◌else◌, get_elem?,
}
use system_programming.Shell.Text.{Text, newline}
use system_programming.Shell.Builtins.{same_text}
use system_programming.Tokens.{tokens}
use system_programming.Interp.{Out, token_max, codes, is_word}
use system_programming.Interp.Library.{Library, Run, ◌>>=◌, pure}
use system_programming.Interp.Lists.{do_list_command}
use system_programming.Interp.Hashes.{do_hash_command}
use system_programming.Interp.Bitmaps.{do_bitmap_command}
use system_programming.Interp.World.{
  Tables, no_objects, do_create, do_delete, do_dumpdata, cleanup_all_objects,
}

-- The delimiters `" \n"`.
unfoldable pub is_delimiter : ℕ → Bool
is_delimiter c = (c == 32) || (c == newline)

-- The first `TOKEN_MAX` tokens; the rest of the line is not read.
unfoldable pub tokenize : Text → List Text
unfolding tokens is_delimiter
tokenize line = take token_max (tokens is_delimiter line)

-- `!strncmp (s, "...", n)` for a literal of `n` bytes.
unfoldable pub has_prefix : Text → Text → Bool
unfolding same_text
has_prefix s literal = same_text (take (length literal) s) literal

module _ (lib : Library) where
  open lib use {Store, Bitmap}

  -- What a line did: `quit`, or the objects behind it and what it printed.
  pub data Turn : Type 0 where
    quits : Turn
    goes_on : Tables Bitmap → List Out → Turn

  abbrev silent : Run Store (Tables Bitmap) → Run Store Turn
  silent m = do w ← m; pure (goes_on w [])

  abbrev printing : Tables Bitmap → Run Store (List Out) → Run Store Turn
  printing w m = do out ← m; pure (goes_on w out)

  unfoldable pub do_bitmaps : Tables Bitmap → Text → List Text → Run Store Turn
  unfolding do_bitmap_command
  do_bitmaps w cmd toks = do
    (out, slots) ← do_bitmap_command lib w.bitmaps cmd toks
    pure (goes_on (record w { bitmaps = slots }) out)

  -- The commands that are told by a prefix.
  unfoldable pub by_prefix : Tables Bitmap → Text → List Text → Run Store Turn
  unfolding has_prefix do_list_command do_hash_command do_bitmaps
  by_prefix w cmd toks =
      if has_prefix cmd (codes "list_")
      then printing w (do_list_command lib w.lists cmd toks)
      else if has_prefix cmd (codes "hash_")
      then printing w (do_hash_command lib w.hashes cmd toks)
      else if has_prefix cmd (codes "bitmap_")
      then do_bitmaps w cmd toks
      else pure (goes_on w [])

  -- `delete` and `dumpdata` with no name fall through to the tests of the prefix, which they fail.
  unfoldable pub dispatch : Tables Bitmap → Text → List Text → Run Store Turn
  unfolding is_word do_create do_delete do_dumpdata by_prefix
  dispatch w cmd toks =
      if is_word cmd "quit"
      then pure quits
      else if is_word cmd "create"
      then silent (do_create lib w toks)
      else if is_word cmd "delete"
      then elim (get_elem? toks 1) [
        | none ↦ by_prefix w cmd toks
        | some name ↦ silent (do_delete lib w name)
      ]
      else if is_word cmd "dumpdata"
      then elim (get_elem? toks 1) [
        | none ↦ by_prefix w cmd toks
        | some name ↦ printing w (do_dumpdata lib w name)
      ]
      else by_prefix w cmd toks

  unfoldable pub run_tokens : Tables Bitmap → List Text → Run Store Turn
  unfolding dispatch
  run_tokens w [] = pure (goes_on w [])
  run_tokens w (cmd ∷ args) = dispatch w cmd (cmd ∷ args)

  unfoldable pub run_line : Tables Bitmap → Text → Run Store Turn
  unfolding run_tokens tokenize
  run_line w line = run_tokens w (tokenize line)

  -- The lines that `fgets` reads, to the end of the input; with the objects behind the loop.
  unfoldable pub main_loop : Tables Bitmap → List Text → Run Store (Tables Bitmap × List Out)
  unfolding run_line
  main_loop w [] = pure (w, [])
  main_loop w (line ∷ lines) = do
    turn ← run_line w line
    elim turn [
      | quits ↦ pure (w, [])
      | goes_on w' out ↦ (do (w'', rest) ← main_loop w' lines; pure (w'', out ++ rest))
    ]

  unfoldable pub main : List Text → Run Store (Tables Bitmap × List Out)
  unfolding main_loop cleanup_all_objects
  main lines = do
    (w, out) ← main_loop no_objects lines
    w' ← cleanup_all_objects lib w
    pure (w', out)
