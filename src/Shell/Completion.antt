-- ===== src/Shell/Completion.antt =====
-- main.c: the completion of a line. The completions of linenoise are a list of texts, to which
-- `linenoiseAddCompletion` adds one at the end. The texts hold no NUL.
use zkclient.Prelude.{
  ℕ, zero, suc, ◌+◌, ◌-◌, Bool, true, false, ◌&&◌, ◌||◌, Option, none, some, List, [], ◌∷◌, ◌++◌,
  length, take, drop, get_elem?, ltb, leb, ◌==◌, if◌then◌else◌,
}
use zkclient.CInt.{is_negative}
use zkclient.Outcome.{Outcome, returns, undefined}
use zkclient.Archive.{CString}
use zkclient.Jute.Watch.{StringVector}
use zkclient.Jute.Children.{GetChildrenResponse}
use zkclient.Request.Call.{Session, Context}
use zkclient.Request.Operations.{zk_get_children}
use zkclient.Shell.Dispatch.{
  ls_cmd, create_cmd, get_cmd, set_cmd, del_cmd, stat_cmd, mkdir_cmd, quit_cmd,
}
use zkclient.Shell.Path.{is_slash}

abbrev pub commands : List (List ℕ)
commands = ls_cmd ∷ create_cmd ∷ get_cmd ∷ set_cmd ∷ del_cmd ∷ stat_cmd ∷ mkdir_cmd ∷ quit_cmd ∷ []

-- `strncmp(a, b, n) == 0`.
unfoldable pub same_start : ℕ → List ℕ → List ℕ → Bool
same_start zero a b = true
same_start (suc n) [] [] = true
same_start (suc n) (x ∷ a) (y ∷ b) = x == y && same_start n a b
same_start (suc n) _ _ = false

unfoldable pub add_matches : List ℕ → ℕ → List (List ℕ) → List (List ℕ) → List (List ℕ)
add_matches buf len [] lc = lc
add_matches buf len (c ∷ cs) lc =
    add_matches buf len cs (if same_start len buf c then lc ++ c ∷ [] else lc)

unfoldable pub command_completion : List ℕ → ℕ → List (List ℕ) → List (List ℕ)
command_completion buf len lc = add_matches buf len commands lc

unfoldable pub is_blank : Option ℕ → Bool
is_blank none = false
is_blank (some c) = c == b' ' || c == 9

-- The place behind the last blank among the first `n` characters.
unfoldable pub behind_blank : List ℕ → ℕ → ℕ
behind_blank buf zero = 0
behind_blank buf (suc n) =
    let before = behind_blank buf n in if is_blank (get_elem? buf n) then suc n else before

-- The last '/' up to `j`, or 0.
unfoldable pub last_slash : List ℕ → ℕ → ℕ
last_slash buf zero = 0
last_slash buf (suc j) =
    let before = last_slash buf j in if is_slash (get_elem? buf (suc j)) then suc j else before

-- The path from behind the blank to the slash, without the slash at its end unless it is the root.
unfoldable pub path_to : List ℕ → ℕ → ℕ → List ℕ
path_to buf from slash =
    let n = slash + 1 - from in
    if ltb 1 n && is_slash (get_elem? buf slash)
    then take (n - 1) (drop from buf)
    else take n (drop from buf)

-- The loop over the children, with those that begin like the rest of the line. A null pointer is no
-- string for `strncmp`.
unfoldable pub add_children : List ℕ → ℕ → ℕ → List CString → List (List ℕ) → Option (List (List ℕ))
add_children name len zero items lc = some lc
add_children name len (suc n) [] lc = none
add_children name len (suc n) (none ∷ items) lc = none
add_children name len (suc n) ((some child) ∷ items) lc =
    add_children name len n items (if same_start len name child then lc ++ child ∷ [] else lc)

-- A completion that is alone takes the line in front of it.
unfoldable pub whole_line : List ℕ → List (List ℕ) → List (List ℕ)
whole_line front (c ∷ []) = (front ++ c) ∷ []
whole_line front lc = lc

-- The completions, with the client behind them.
abbrev pub Completed : Type 0
Completed = Outcome (List (List ℕ) × Session)

unfoldable pub completed : List ℕ → Session → Option (List (List ℕ)) → Completed
completed front s none = undefined
completed front s (some lc) = returns 0 (whole_line front lc, s)

unfoldable pub children_found :
    List ℕ → ℕ → ℕ → List (List ℕ) → Outcome (StringVector × Session) → Completed
children_found buf len slash lc undefined = undefined
children_found buf len slash lc (returns status (v, s)) =
    if status == 0
    then completed (take (slash + 1) buf) s (
        add_children (drop (slash + 1) buf) (len - slash - 1)
          (if is_negative v.count then 0 else v.count) v.items lc)
    else returns 0 (lc, s)

-- `resp` is what the variable of `zk_get_children` holds.
unfoldable pub path_completion :
    Context → GetChildrenResponse → List ℕ → ℕ → List (List ℕ) → Session → Completed
path_completion k resp buf len lc s =
    let from = behind_blank buf len in
    let slash = last_slash buf (len - 1) in
    if from == len || leb (slash + 1) from
    then returns 0 (lc, s)
    else children_found buf len slash lc (
        zk_get_children k resp (some (path_to buf from slash))
          (record { count = 0; items = [] }, s))

-- The line without the blanks in front.
unfoldable pub skip_blanks : List ℕ → List ℕ
skip_blanks [] = []
skip_blanks (c ∷ buf) = if is_blank (some c) then skip_blanks buf else c ∷ buf

unfoldable pub has_space : List ℕ → Bool
has_space [] = false
has_space (c ∷ buf) = c == b' ' || has_space buf

unfoldable pub completion :
    Context → GetChildrenResponse → List ℕ → List (List ℕ) → Session → Completed
completion k resp buf lc s =
    let rest = skip_blanks buf in
    if length rest == 0
    then returns 0 (lc, s)
    else if has_space rest
    then path_completion k resp rest (length rest) lc s
    else returns 0 (command_completion rest (length rest) lc, s)
