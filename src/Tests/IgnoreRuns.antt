-- ===== src/Tests/IgnoreRuns.antt =====
-- A user who ignores another, and the commands to the services.
use opennap.Base.{◌≡◌, refl, true, false, List, some, pos, [], ◌∷◌, if◌then◌else◌}
use opennap.Text.{Bytes, codes, case_eq, is_space, to_lower}
use opennap.Hash.{hash_add, hash_lookup}
use opennap.Args.{next_arg_noskip, split_at, skip_spaces, is_delimiter}
use opennap.Server.{Globals, user_con, text, sent_to, is_over, invalid_nick, pop_user}
use opennap.Ignore.{is_ignoring, user_told, done, privmsg}
use opennap.Ignore.Lists.{
  Message, ignoring, unignoring, IsUnique, handle_all, mark_all, handle_all-mark_all,
}
use opennap.Ignore.Delivery.{privmsg-mark_all}
use opennap.Ignore.Commands.{IsServed, serve-IsServed}
use opennap.Ignore.Services.{dispatched, oper_serve, chan_serve}
use opennap.Tests.ChannelRuns.{amy, bob, globals}

abbrev messages : List Message
messages =
    ignoring (codes "BOB")
    ∷ ignoring (codes "carl")
    ∷ ignoring (codes "Carl")
    ∷ unignoring (codes "CARL")
    ∷ []

only_bob : handle_all globals (pos 0) amy messages [] ≡ codes "BOB" ∷ []
unfolding handle_all is_ignoring invalid_nick case_eq to_lower
only_bob = refl

handle_all-mark_all_example :
    IsUnique (handle_all globals (pos 0) amy messages [])
    × ((nick : Bytes)
        → is_ignoring (handle_all globals (pos 0) amy messages []) nick
          ≡ mark_all globals (pos 0) amy messages (is_ignoring []) nick)
handle_all-mark_all_example =
    handle_all-mark_all globals (pos 0) amy (unfold is_over in λ n. refl) messages [] tt

abbrev with_amy : Globals
with_amy = record globals {
  users =
      some
        (hash_add true
          (record { bucket = [] ∷ [] ∷ []; numbuckets = 2; dbsize = 0; destroy = true })
          (codes "amy") amy).1;
}

bob_is_ignored :
    privmsg with_amy (user_con bob) (codes "Amy hello") (λ u. codes "BOB" ∷ [])
    ≡ some (user_told bob 404 "%s is ignoring you" (text (codes "amy") ∷ []))
unfolding privmsg pop_user hash_lookup hash_add next_arg_noskip is_ignoring split_at case_eq
    to_lower
bob_is_ignored = refl

privmsg-mark_all_example :
    privmsg with_amy
      (user_con bob)
      (codes "Amy hello")
      (λ u. handle_all with_amy (pos 0) amy messages [])
    ≡ some (
        if mark_all with_amy (pos 0) amy messages (λ nick. false) (codes "bob")
        then user_told bob 404 "%s is ignoring you" (text (codes "amy") ∷ [])
        else done (
            sent_to (codes "amy") 205 "%s %s" (text (codes "bob") ∷ text (codes "hello") ∷ [])
            ∷ []))
unfolding is_over hash_lookup hash_add next_arg_noskip split_at case_eq to_lower
privmsg-mark_all_example =
    privmsg-mark_all with_amy (pos 0) messages bob amy (codes "Amy hello") (codes "Amy")
      (codes "hello") (λ u. handle_all with_amy (pos 0) amy messages []) (λ n. refl) refl refl refl
      refl refl refl

set_the_limit : chan_serve (codes "Limit #tea 5") ≡ some (dispatched 826 6 (codes "#tea 5"))
unfolding chan_serve case_eq skip_spaces is_space split_at is_delimiter to_lower
set_the_limit = refl

serve-IsServed_example :
    IsServed (oper_serve (codes "stats")) × IsServed (chan_serve (codes "stats"))
serve-IsServed_example = serve-IsServed (codes "stats")
