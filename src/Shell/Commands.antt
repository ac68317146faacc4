-- ===== src/Shell/Commands.antt =====
-- main.c: the commands. What `printf` prints is noted with the path and the values, the words around
-- them left out; the printing of the JSON object of `statCommand` is that of cJSON.
use zkclient.Prelude.{
  ℕ, zero, suc, Bool, Option, none, some, List, [], ◌∷◌, ◌++◌, map, ltb, ◌==◌, ◌||◌, if◌then◌else◌,
}
use zkclient.CInt.{is_negative, to_size}
use zkclient.Outcome.{Outcome, returns, undefined}
use zkclient.Host.{Host, store}
use zkclient.Archive.{Buffer, CString}
use zkclient.Conn.{zk_ok}
use zkclient.Jute.Stat.{Stat}
use zkclient.Jute.Watch.{StringVector}
use zkclient.Jute.Data.{GetDataResponse, SetDataResponse}
use zkclient.Jute.Exists.{ExistsResponse}
use zkclient.Jute.Children.{GetChildrenResponse}
use zkclient.Request.Call.{Session, Context}
use zkclient.Request.Operations.{zk_get, zk_get_children, zk_set, zk_del, zk_exists, zk_create}
use zkclient.Request.Mkdir.{CreateCall, zk_mkdir}
use zkclient.Util.Digits.{ll2string}

-- A value of the object that `statCommand` prints.
pub data JsonValue : Type 0 where
  json_number : ℕ → JsonValue
  json_text : Option (List ℕ) → JsonValue

-- What a command prints: the bytes or the names of a node, its status, or how the command ended.
pub data Message : Type 0 where
  empty_node : Message
  contents : List ℕ → Message
  names : List (List ℕ) → Message
  status_object : List JsonValue → Message
  success : List ℕ → Message
  failure : List ℕ → ℕ → Message
  argument_error : Message
  unknown_command : Message

-- The variables of one command that are not initialised, and the times of its requests:
-- `second` is that of the `zk_get` in `getCommand`.
pub record Locals : Type 0 where
  pub context : Context
  pub second : Context
  pub create_calls : ℕ → CreateCall
  pub get_resp : GetDataResponse
  pub children_resp : GetChildrenResponse
  pub set_resp : SetDataResponse
  pub exists_resp : ExistsResponse
  pub stat : Stat
  pub childs : StringVector

-- The client, and what was printed.
pub record Shell : Type 0 where
  pub session : Session
  pub printed : List Message

abbrev pub print : Message → Shell → Shell
print m s = record s { printed = s.printed ++ m ∷ [] }

abbrev pub last_err_of : Shell → ℕ
last_err_of s = s.session.world.client.last_err

-- The line on the failure, and `return c->last_err`.
unfoldable pub fail : List ℕ → Shell → Outcome Shell
fail path s = returns (last_err_of s) (print (Message.failure path (last_err_of s)) s)

-- The line on the end of a command that has no result but its status.
unfoldable pub report : List ℕ → Shell → Outcome {0} (Unit × Session) → Outcome Shell
report path s undefined = undefined
report path s (returns status (out, m)) =
    let s' : Shell = record s { session = m } in
    if status == zk_ok then returns zk_ok (print (Message.success path) s') else fail path s'

-- The bytes up to the first NUL.
unfoldable pub until_nul : List ℕ → List ℕ
until_nul [] = []
until_nul (b ∷ bs) = if b == 0 then [] else b ∷ until_nul bs

-- `data.buff[data.len] = '\0'`, and the text printed.
unfoldable pub print_text : Option (List ℕ) → Shell → Outcome Shell
print_text none s = undefined
print_text (some mem) s = returns zk_ok (print (Message.contents (until_nul mem)) s)

unfoldable pub add_terminator : Buffer → Option (List ℕ)
add_terminator b = elim b.buff [ none ↦ none | some mem ↦ store mem (to_size b.len) (0 ∷ []) ]

unfoldable pub got_data : List ℕ → Shell → Outcome (Buffer × Session) → Outcome Shell
got_data path s undefined = undefined
got_data path s (returns status (b, m)) =
    let s' : Shell = record s { session = m } in
    if status == zk_ok then print_text (add_terminator b) s' else fail path s'

unfoldable pub got_stat : Locals → List ℕ → Shell → Outcome (Stat × Session) → Outcome Shell
got_stat k path s undefined = undefined
got_stat k path s (returns status (stat, m)) =
    let s' : Shell = record s { session = m } in
    if status == 1
    then (if stat.data_length == 0
        then returns zk_ok (print Message.empty_node s')
        else got_data path s'
            (zk_get k.second k.get_resp (some path) (record { len = 0; buff = none }, m)))
    else fail path s'

unfoldable pub get_command : Locals → List ℕ → Shell → Outcome Shell
get_command k path s =
    got_stat k path s (zk_exists k.context k.exists_resp (some path) (k.stat, s.session))

unfoldable pub create_command : Locals → List ℕ → Option (List ℕ) → ℕ → Shell → Outcome Shell
create_command k path buf len s =
    report path s
      (zk_create k.context (k.create_calls 0).resp (some path) buf len 0 (tt, s.session))

unfoldable pub made : List ℕ → Shell → Outcome (ℕ × Session) → Outcome Shell
made path s undefined = undefined
made path s (returns status (n, m)) = report path s (returns status (tt, m))

unfoldable pub mkdir_command : Host → Locals → List ℕ → Shell → Outcome Shell
mkdir_command host k path s = made path s (zk_mkdir host k.create_calls path (0, s.session))

-- The strings of the first `n` items. A null pointer is no string for `printf`.
unfoldable pub strings : ℕ → List CString → Option (List (List ℕ))
strings zero items = some []
strings (suc n) [] = none
strings (suc n) (none ∷ items) = none
strings (suc n) ((some name) ∷ items) = elim (strings n items) [
  | none ↦ none
  | some others ↦ some (until_nul name ∷ others)
]

unfoldable pub print_names : Option (List (List ℕ)) → Shell → Outcome Shell
print_names none s = undefined
print_names (some found) s = returns zk_ok (print (Message.names found) s)

unfoldable pub got_children : List ℕ → Shell → Outcome (StringVector × Session) → Outcome Shell
got_children path s undefined = undefined
got_children path s (returns status (v, m)) =
    let s' : Shell = record s { session = m } in
    if status == zk_ok
    then print_names (strings (if is_negative v.count then 0 else v.count) v.items) s'
    else fail path s'

unfoldable pub ls_command : Locals → List ℕ → Shell → Outcome Shell
ls_command k path s =
    got_children path s
      (zk_get_children k.context k.children_resp (some path) (k.childs, s.session))

-- `v <= 2147483647`, where `v` is a `long long`.
unfoldable pub is_small : ℕ → Bool
is_small v = ltb 9223372036854775807 v || ltb v 2147483648

unfoldable pub add_longlong : Host → ℕ → (JsonValue → Outcome Shell) → Outcome Shell
add_longlong host v next =
    if is_small v then next (JsonValue.json_number v) else elim (ll2string host v) [
      | undefined ↦ undefined
      | returns rc text ↦ next (JsonValue.json_text text)
    ]

-- The five numbers, and the six values that may be texts.
unfoldable pub print_stat : Host → Stat → Shell → Outcome Shell
print_stat host stat s = add_longlong host stat.czxid (λ a. add_longlong host stat.mzxid (λ b.
    add_longlong host stat.pzxid (λ c. add_longlong host stat.ctime (λ d.
      add_longlong host stat.mtime (λ e. add_longlong host stat.ephemeral_owner (λ f.
        returns zk_ok (
          print
            (Message.status_object (
              map JsonValue.json_number (
                stat.version ∷ stat.cversion ∷ stat.aversion ∷ stat.data_length ∷ stat.num_children
                ∷ [])
              ++ (a ∷ b ∷ c ∷ d ∷ e ∷ f ∷ [])))
            s)))))))

unfoldable pub stat_found : Host → Shell → Outcome (Stat × Session) → Outcome Shell
stat_found host s undefined = undefined
stat_found host s (returns status (stat, m)) =
    let s' : Shell = record s { session = m } in
    if status == 1 then print_stat host stat s' else returns (last_err_of s') s'

unfoldable pub stat_command : Host → Locals → List ℕ → Shell → Outcome Shell
stat_command host k path s =
    stat_found host s (zk_exists k.context k.exists_resp (some path) (k.stat, s.session))

-- The version is not used.
unfoldable pub set_command : Locals → List ℕ → List ℕ → ℕ → ℕ → Shell → Outcome Shell
set_command k path buf len version s = report path s (
    zk_set k.context k.set_resp (some path) (record { len = len; buff = some buf }) (tt, s.session))

-- The version is not used.
unfoldable pub del_command : Locals → List ℕ → ℕ → Shell → Outcome Shell
del_command k path version s = report path s (zk_del k.context (some path) (tt, s.session))
