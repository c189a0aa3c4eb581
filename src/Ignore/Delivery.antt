-- ===== src/Ignore/Delivery.antt =====
-- privmsg.c: which private messages reach a user who ignores others.
use opennap.Base.{
  ℕ, ◌≡◌, refl, ap, ◌∙◌, Bool, true, false, List, [], ◌∷◌, Option, some, take, ℤ, if◌then◌else◌,
  ltb, inl, inr, Bool-cases,
}
use opennap.Text.{Bytes, codes, case_eq}
use opennap.Hash.{hash_lookup}
use opennap.Args.{next_arg_noskip}
use opennap.Server.{User, user_con, text, sent_to, Globals, is_over, is_user, pop_user, msg_nosuch}
use opennap.Ignore.{
  Outcome, done, user_told, is_ignoring, privmsg, privmsg_args, deliver, msg_privmsg, level_user,
}
use opennap.Ignore.Lists.{Message, handle_all, mark_all, handle_all-mark_all}

-- What comes of a message to a user of this server, by whether the user ignores the sender.
abbrev pub Handed : User → User → Bytes → Bool → Outcome
Handed sender user said refused =
    if refused
    then user_told sender msg_nosuch "%s is ignoring you" (text (user.nick) ∷ [])
    else done (sent_to (user.nick) msg_privmsg "%s %s" (text (sender.nick) ∷ text said ∷ []) ∷ [])

not_to_service :
    (g : Globals) (sender : User) (name said : Bytes) (ignores : ℕ → List Bytes)
    → case_eq name (codes "operserv") ≡ false
    → case_eq (codes "chanserv") name ≡ false
    → privmsg_args g (user_con sender) ignores sender (name, some said)
      ≡ deliver (user_con sender) ignores sender said (hash_lookup (g.users) name)
unfolding is_user
not_to_service g sender name said ignores no_oper no_chan =
    elim (Bool-cases (ltb level_user (sender.level))) [
      | inl e ↦ rw (e, no_oper, no_chan) refl
      | inr e ↦ rw (e, no_chan) refl
    ]

if_true : (b : Bool) (x y : Outcome) → b ≡ true → (if b then x else y) ≡ x
if_true true x y e = refl
if_true false x y e = cc

deliver-Handed :
    (sender user : User) (said : Bytes) (ignores : ℕ → List Bytes)
    → user.local ≡ true
    → deliver (user_con sender) ignores sender said (some user)
      ≡ Handed sender user said (is_ignoring (ignores (user.address)) (sender.nick))
unfolding deliver
deliver-Handed sender user said ignores here = if_true (user.local) _ _ here

-- A user of this server sends a private message to another, by a name that is not the name of a
-- service and a text. The list of the other has come about by any sequence of the messages 322, 323
-- and 326, without a limit. The message, cut to 180 bytes, is handed to the other, unless the set
-- that those messages make has the nick of the sender: then the sender is told that it is ignored.
pub privmsg-mark_all :
    (g : Globals) (max_ignore : ℤ) (ms : List Message) (sender user : User) (pkt name said : Bytes)
    (ignores : ℕ → List Bytes)
    → ((n : ℕ) → is_over max_ignore n ≡ false)
    → next_arg_noskip (take 180 pkt) ≡ (name, some said)
    → case_eq name (codes "operserv") ≡ false
    → case_eq (codes "chanserv") name ≡ false
    → hash_lookup (g.users) name ≡ some user
    → user.local ≡ true
    → ignores (user.address) ≡ handle_all g max_ignore user ms []
    → privmsg g (user_con sender) pkt ignores
      ≡ some (Handed sender user said (mark_all g max_ignore user ms (λ nick. false) (sender.nick)))
unfolding privmsg pop_user is_ignoring
privmsg-mark_all g max_ignore ms sender user pkt name said ignores no_limit cut no_oper no_chan
      found here list =
    ap (λ (a : Bytes × Option Bytes). some (privmsg_args g (user_con sender) ignores sender a)) cut
    ∙ ap some (
        not_to_service g sender name said ignores no_oper no_chan
        ∙ ap (deliver (user_con sender) ignores sender said) found
        ∙ deliver-Handed sender user said ignores here
        ∙ ap (λ (l : List Bytes). Handed sender user said (is_ignoring l (sender.nick))) list
        ∙ ap (Handed sender user said)
            ((handle_all-mark_all g max_ignore user no_limit ms [] tt).1 (sender.nick)))
