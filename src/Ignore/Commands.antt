-- ===== src/Ignore/Commands.antt =====
-- privmsg.c and handler.c: the commands of the services, against the table of commands.
use opennap.Base.{ℕ, ◌≡◌, Bool, true, false, List, [], ◌∷◌, Option, none, some, if◌then◌else◌}
use opennap.Text.{Bytes, case_eq}
use opennap.Args.{next_arg}
use opennap.Server.{Output}
use opennap.Protocol.{
  Search, found, absent, out_of_range, no_fuel, find_handler, find_loop, protocol,
}
use opennap.Protocol.Find.{quiet}
use opennap.Ignore.Services.{
  Command, Answer, dispatched, answered, oper_commands, chan_commands, tag_of, served, oper_serve,
  chan_serve,
}

abbrev pub is_found : Search → Bool
is_found (found i) = true
is_found absent = false
is_found out_of_range = false
is_found no_fuel = false

abbrev IsHandled : ℕ → Type 0
IsHandled tag = is_found (find_handler quiet protocol tag) ≡ true

-- There is an answer, and a command that is dispatched has a handler.
abbrev pub IsServed : Option Answer → Type 0
IsServed none = ⊥
IsServed (some (dispatched tag len pkt)) = IsHandled tag
IsServed (some (answered outputs)) = Unit

abbrev AllHandled : List Command → Type 0
AllHandled [] = Unit
AllHandled ((name, tag) ∷ l) = IsHandled tag × AllHandled l

oper_commands-AllHandled : AllHandled oper_commands
unfolding oper_commands find_handler protocol find_loop
oper_commands-AllHandled = search

chan_commands-AllHandled : AllHandled chan_commands
unfolding chan_commands find_handler protocol find_loop
chan_commands-AllHandled = search

abbrev TagHandled : Option ℕ → Type 0
TagHandled none = Unit
TagHandled (some tag) = IsHandled tag

TagHandled-if :
    (b : Bool) (x y : Option ℕ) → TagHandled x → TagHandled y → TagHandled (if b then x else y)
TagHandled-if true x y h k = h
TagHandled-if false x y h k = k

tag_of-TagHandled : (cmd : Bytes) (l : List Command) → AllHandled l → TagHandled (tag_of cmd l)
unfolding tag_of
tag_of-TagHandled cmd [] h = tt
tag_of-TagHandled cmd ((name, tag) ∷ l) (h, hs) =
    TagHandled-if (case_eq name cmd) _ _ h (tag_of-TagHandled cmd l hs)

served-IsServed :
    (help' unknown : List Output) (cmd : Bytes) (rest : Option Bytes) (o : Option ℕ)
    → TagHandled o
    → IsServed (some (served help' unknown cmd rest o))
served-IsServed help' unknown cmd rest none h = tt
served-IsServed help' unknown cmd none (some tag) h = h
served-IsServed help' unknown cmd (some pkt) (some tag) h = h

-- Whatever the text, operserv and chanserv compare no null pointer, and every command that they
-- dispatch is one that `find_handler` finds in the table of handler.c, with no signal caught.
pub serve-IsServed : (pkt : Bytes) → IsServed (oper_serve pkt) × IsServed (chan_serve pkt)
unfolding oper_serve chan_serve next_arg
serve-IsServed pkt = (
  served-IsServed _ _ _ _ _ (tag_of-TagHandled _ oper_commands oper_commands-AllHandled),
  served-IsServed _ _ _ _ _ (tag_of-TagHandled _ chan_commands chan_commands-AllHandled),
)
