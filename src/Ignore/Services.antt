-- ===== src/Ignore/Services.antt =====
-- privmsg.c: the commands that users send to operserv and chanserv as private messages.
use opennap.Base.{ℕ, ◌%◌, List, [], ◌∷◌, Option, none, some, length, if◌then◌else◌}
use opennap.Text.{Bytes, codes, case_eq}
use opennap.Args.{next_arg}
use opennap.Server.{text, Output, sent, msg_nosuch}
use opennap.Ignore.{msg_privmsg}
use Prim.Native.String.{String}

abbrev pub Command : Type 0
Command = Bytes × ℕ

unfoldable pub oper_commands : List Command
oper_commands =
    (codes "chanlevel", 10201)
    ∷ (codes "links", 10112)
    ∷ (codes "stats", 10115)
    ∷ (codes "connect", 10100)
    ∷ (codes "disconnect", 10101)
    ∷ (codes "killserver", 10110)
    ∷ (codes "register", 10200)
    ∷ (codes "chanlimit", 826)
    ∷ (codes "kick", 10202)
    ∷ (codes "usermode", 10203)
    ∷ (codes "config", 810)
    ∷ (codes "reconfig", 800)
    ∷ (codes "cban", 422)
    ∷ (codes "cunban", 423)
    ∷ (codes "cbanlist", 420)
    ∷ (codes "cbanclear", 424)
    ∷ (codes "clearchan", 820)
    ∷ (codes "cloak", 652)
    ∷ (codes "op", 10204)
    ∷ (codes "oplist", 10206)
    ∷ (codes "deop", 10205)
    ∷ (codes "rehash", 10117)
    ∷ []

unfoldable pub chan_commands : List Command
chan_commands =
    (codes "ban", 422)
    ∷ (codes "unban", 423)
    ∷ (codes "banclear", 424)
    ∷ (codes "banlist", 420)
    ∷ (codes "clear", 820)
    ∷ (codes "kick", 829)
    ∷ (codes "oplist", 10206)
    ∷ (codes "topic", 410)
    ∷ (codes "limit", 826)
    ∷ (codes "drop", 10207)
    ∷ (codes "op", 10204)
    ∷ (codes "deop", 10205)
    ∷ (codes "wallop", 10208)
    ∷ (codes "invite", 10210)
    ∷ (codes "mode", 10209)
    ∷ (codes "muzzle", 10213)
    ∷ (codes "unmuzzle", 10214)
    ∷ (codes "unvoice", 10212)
    ∷ (codes "voice", 10211)
    ∷ []

-- The chain of comparisons.
unfoldable pub tag_of : Bytes → List Command → Option ℕ
tag_of cmd [] = none
tag_of cmd ((name, tag) ∷ l) = if case_eq name cmd then some tag else tag_of cmd l

-- A call of `dispatch_command` with the tag, the length and the text, or what is sent.
pub data Answer : Type 0 where
  dispatched : ℕ → ℕ → Bytes → Answer
  answered : List Output → Answer

abbrev pub help : List String → List Output
help [] = []
help (line ∷ l) = sent msg_privmsg line [] ∷ help l

abbrev pub oper_help : List String
oper_help =
    "OperServ Help for OperServ:" ∷ "OperServ cloak" ∷ "OperServ config" ∷ "OperServ connect"
    ∷ "OperServ disconnect" ∷ "OperServ help" ∷ "OperServ killserver" ∷ "OperServ links"
    ∷ "OperServ reconfig" ∷ "OperServ register" ∷ "OperServ rehash [server]" ∷ "OperServ stats"
    ∷ "OperServ usermode" ∷ "OperServ END of help for OperServ" ∷ []

abbrev pub chan_help : List String
chan_help =
    "ChanServ HELP for ChanServ commands:" ∷ "ChanServ ban <channel> <user> [reason]"
    ∷ "ChanServ banclear <channel>" ∷ "ChanServ banlist <channel>" ∷ "ChanServ clear <channel>"
    ∷ "ChanServ deop <channel> <user> [user ...]" ∷ "ChanServ drop <channel>" ∷ "ChanServ help"
    ∷ "ChanServ invite <channel> <user>" ∷ "ChanServ kick <channel> <user> [reason]"
    ∷ "ChanServ limit <channel> <number>" ∷ "ChanServ mode <channel> [mode]"
    ∷ "ChanServ muzzle <channel> <user>" ∷ "ChanServ op <channel> <user> [user ...]"
    ∷ "ChanServ oplist <channel>" ∷ "ChanServ topic <channel> [topic]" ∷ "ChanServ unban <channel>"
    ∷ "ChanServ unmuzzle <channel> <user>" ∷ "ChanServ unvoice <channel> [user [user ...]]"
    ∷ "ChanServ voice <channel> [user [user ...]]" ∷ "ChanServ wallop <channel> <text>"
    ∷ "ChanServ END of ChanServ HELP" ∷ []

-- The length is a short; a null pointer stands for no text.
abbrev pub dispatch : ℕ → Option Bytes → Answer
dispatch tag none = dispatched tag 0 []
dispatch tag (some pkt) = dispatched tag (length pkt % 65536) pkt

abbrev pub served : List Output → List Output → Bytes → Option Bytes → Option ℕ → Answer
served help' unknown cmd rest (some tag) = dispatch tag rest
served help' unknown cmd rest none =
    answered (if case_eq (codes "help") cmd then help' else unknown)

-- `none` is a comparison with a null pointer.
abbrev pub serve :
    List Command → List Output → (Bytes → List Output) → Option Bytes × Option Bytes → Option Answer
serve commands help' unknown (none, rest) = none
serve commands help' unknown (some cmd, rest) =
    some (served help' (unknown cmd) cmd rest (tag_of cmd commands))

unfoldable pub oper_serve : Bytes → Option Answer
unfolding next_arg tag_of oper_commands
oper_serve pkt =
    serve oper_commands (help oper_help)
      (λ cmd. sent msg_nosuch "Unknown OperServ command: %s" (text cmd ∷ []) ∷ [])
      (next_arg (some pkt))

unfoldable pub chan_serve : Bytes → Option Answer
unfolding next_arg tag_of chan_commands
chan_serve pkt =
    serve chan_commands (help chan_help) (λ cmd. sent msg_nosuch "unknown ChanServ command" [] ∷ [])
      (next_arg (some pkt))
