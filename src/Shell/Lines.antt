-- ===== src/Shell/Lines.antt =====
-- main.c: the words of a line.
use zkclient.Prelude.{ℕ, suc, ◌≤◌, ◌≡◌, refl, ap, ◌∙◌, some, List, [], ◌∷◌, length, le→leb, arith}
use zkclient.Outcome.{returns, Step}
use zkclient.Archive.Loads.{IsGenerous}
use zkclient.Util.Words.{words}
use zkclient.Util.Scan.{sdssplitlen-words}
use zkclient.Shell.Dispatch.{Terminal, Console, process_command, process_words, process_line}

-- What a line means: its words are a command with arguments, and a line of blanks is nothing.
abbrev pub run_words : Terminal → List (List ℕ) → Step Console
run_words t [] s = returns 0 s
run_words t (cmd ∷ args) s = process_command t (cmd ∷ args) s

words_lem :
    (t : Terminal) (s : Console) (ws : List (List ℕ))
    → process_words t s (returns 0 (some ws, length ws))
      ≡ run_words t ws (record s { narg = length ws })
unfolding process_words
words_lem t s [] = refl
words_lem t s (cmd ∷ args) = rw (le→leb 1 (suc (length args)) (omega arith)) refl

-- The loop of `main` gives the longest pieces of a line without a blank, in order, to
-- `processCommand`, with their number, and does nothing for a line without any. The line has at
-- most 2 ^ 26 bytes, and the allocator answers.
pub process_line-words :
    (t : Terminal) (line : List ℕ) (s : Console)
    → IsGenerous t.host
    → length line ≤ 67108864
    → process_line t line s
      ≡ run_words t (words b' ' line) (record s { narg = length (words b' ' line) })
unfolding process_line
process_line-words t line s g small =
    ap (process_words t s) (sdssplitlen-words t.host b' ' line s.narg g small)
    ∙ words_lem t s (words b' ' line)
