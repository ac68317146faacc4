-- ===== src/Tests/Texts.antt =====
-- Lines, numbers and paths.
use zkclient.Prelude.{ℕ, ◌≡◌, refl, some, List, [], ◌∷◌, arith}
use zkclient.Outcome.{returns}
use zkclient.Util.Split.{sdssplitlen}
use zkclient.Util.Words.{words}
use zkclient.Util.Scan.{sdssplitlen-words}
use zkclient.Util.Decimal.{Printed, ll2string-Printed}
use zkclient.Shell.Path.{IsStripped, strip_slashes, strip_loop, is_slash, strip_slashes-IsStripped}
use zkclient.Shell.Dispatch.{ls_cmd, set_cmd, stat_cmd}
use zkclient.Shell.Completion.{commands, same_start, add_matches, command_completion}
use zkclient.Shell.Offers.{Offers, command_completion-Offers}
use zkclient.Tests.Samples.{linux, linux-IsGenerous}

-- " ls  /zk", with blanks around the words.
abbrev line : List ℕ
line = b' ' ∷ b'l' ∷ b's' ∷ b' ' ∷ b' ' ∷ b'/' ∷ b'z' ∷ b'k' ∷ []

abbrev ls_zk : List (List ℕ)
ls_zk = (b'l' ∷ b's' ∷ []) ∷ (b'/' ∷ b'z' ∷ b'k' ∷ []) ∷ []

words_of_line : words b' ' line ≡ ls_zk
words_of_line = refl

sdssplitlen-words_example :
    sdssplitlen linux line 8 (b' ' ∷ []) 1 0 ≡ returns 0 (some (words b' ' line), 2)
sdssplitlen-words_example = sdssplitlen-words linux b' ' line 0 linux-IsGenerous (omega arith)

ll2string-Printed_example : Printed linux 4294967296
ll2string-Printed_example =
    ll2string-Printed linux 4294967296 linux-IsGenerous (omega arith) (omega arith)

strip_slashes-IsStripped_example :
    IsStripped (b'/' ∷ b'a' ∷ b'/' ∷ b'/' ∷ []) (strip_slashes (b'/' ∷ b'a' ∷ b'/' ∷ b'/' ∷ []))
strip_slashes-IsStripped_example = strip_slashes-IsStripped (b'/' ∷ b'a' ∷ b'/' ∷ b'/' ∷ [])

-- "/a//" is "/a", and "/" stays.
stripped_twice : strip_slashes (b'/' ∷ b'a' ∷ b'/' ∷ b'/' ∷ []) ≡ b'/' ∷ b'a' ∷ []
unfolding strip_slashes strip_loop is_slash
stripped_twice = refl

root_stays : strip_slashes (b'/' ∷ []) ≡ b'/' ∷ []
unfolding strip_slashes strip_loop is_slash
root_stays = refl

-- "s", behind one completion.
command_completion-Offers_example :
    Offers (b's' ∷ []) commands (ls_cmd ∷ []) (command_completion (b's' ∷ []) 1 (ls_cmd ∷ []))
command_completion-Offers_example = command_completion-Offers (b's' ∷ []) (ls_cmd ∷ [])

set_and_stat : command_completion (b's' ∷ []) 1 [] ≡ set_cmd ∷ stat_cmd ∷ []
unfolding command_completion add_matches same_start
set_and_stat = refl
