-- ===== src/Server/Senders.antt =====
-- serverlib.c: the results of `pop_user` and `pop_user_server`.
use opennap.Base.{
  ℕ, ◌≡◌, ◌⊎◌, refl, ap, Bool, true, false, [], ◌∷◌, Option, none, some, ◌==◌, Bool-cases, inl, inr,
}
use opennap.Text.{Bytes}
use opennap.Args.{next_arg, skip_spaces, arg_at}
use opennap.Hash.{hash_lookup}
use opennap.Server.{
  User, Connection, unknown_con, user_con, server_con, is_known, Globals, Popped, failed, null_user,
  popped, pop_user_server, pop_user, pop_sender, known_user, remote_user, is_server,
}

-- No read through a null pointer, and with `named` a user.
abbrev pub IsRead : Bool → Popped → Type 0
IsRead named failed = Unit
IsRead named null_user = ⊥
IsRead true (popped nick none pkt) = ⊥
IsRead false (popped nick none pkt) = Unit
IsRead named (popped nick (some user) pkt) = Unit

-- A message of a server that names, behind the colon, neither a server nor a user.
pub data NamesNobody (g : Globals) : Connection → Bytes → Type 0 where
  nobody :
      {c : ℕ} {pkt nick : Bytes} {rest : Option Bytes}
      → (c == b':') ≡ true
      → next_arg (some pkt) ≡ (some nick, rest)
      → is_server g nick ≡ false
      → hash_lookup (g.users) nick ≡ none
      → NamesNobody g server_con (c ∷ pkt)

-- Either the null pointer of an unknown user is read, or none is.
abbrev pub Pops : Globals → Connection → Bytes → Popped → Type 0
Pops g con pkt p = (NamesNobody g con pkt × (p ≡ null_user)) ⊎ IsRead false p

pop_sender-Pops :
    (g : Globals) (c : ℕ) (pkt : Bytes)
    → (c == b':') ≡ true
    → Pops g server_con (c ∷ pkt) (pop_sender g (next_arg (some pkt)))
unfolding next_arg
pop_sender-Pops g c pkt colon = named (arg_at (skip_spaces pkt)) refl
  where
    known :
        (nick : Bytes) (rest : Option Bytes) (o : Option User)
        → next_arg (some pkt) ≡ (some nick, rest)
        → is_server g nick ≡ false
        → hash_lookup (g.users) nick ≡ o
        → Pops g server_con (c ∷ pkt) (known_user nick o rest)
    known nick rest none is_arg other unknown = inl (nobody colon is_arg other unknown, refl)
    known nick rest (some user) is_arg other found = inr tt

    named :
        (a : Bytes × Option Bytes)
        → arg_at (skip_spaces pkt) ≡ a
        → Pops g server_con (c ∷ pkt) (pop_sender g (some (a.0), a.1))
    named (nick, rest) is_arg = elim (Bool-cases (is_server g nick)) [
      | inl e ↦ rw e (inr tt)
      | inr e ↦ rw e (
          known nick rest (hash_lookup (g.users) nick)
            (ap (λ (a : Bytes × Option Bytes). (some (a.0), a.1)) is_arg) e refl)
    ]

pub pop_user_server-Pops :
    (g : Globals) (con : Connection) (pkt : Bytes)
    → is_known con ≡ true
    → Pops g con pkt (pop_user_server g con pkt)
unfolding pop_user_server is_known
pop_user_server-Pops g unknown_con pkt h = cc
pop_user_server-Pops g (user_con user) pkt h = inr tt
pop_user_server-Pops g server_con [] h = inr tt
pop_user_server-Pops g server_con (c ∷ pkt) h = elim (Bool-cases (c == b':')) [
  | inl e ↦ rw e (pop_sender-Pops g c pkt e)
  | inr e ↦ rw e (inr tt)
]

remote_user-IsRead : (o : Option User) (pkt : Option Bytes) → IsRead true (remote_user o pkt)
remote_user-IsRead none pkt = tt
remote_user-IsRead (some user) pkt = elim (Bool-cases (user.local)) [
  | inl e ↦ rw e tt
  | inr e ↦ rw e tt
]

pub pop_user-IsRead :
    (g : Globals) (con : Connection) (pkt : Bytes)
    → is_known con ≡ true
    → IsRead true (pop_user g con pkt)
unfolding pop_user is_known next_arg
pop_user-IsRead g unknown_con pkt h = cc
pop_user-IsRead g (user_con user) pkt h = tt
pop_user-IsRead g server_con [] h = tt
pop_user-IsRead g server_con (c ∷ pkt) h = elim (Bool-cases (c == b':')) [
  | inl e ↦ rw e (
      remote_user-IsRead (hash_lookup (g.users) (arg_at (skip_spaces pkt)).0)
        (arg_at (skip_spaces pkt)).1)
  | inr e ↦ rw e tt
]
