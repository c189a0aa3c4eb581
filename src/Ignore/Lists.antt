-- ===== src/Ignore/Lists.antt =====
-- privmsg.c: the messages on the lists of those whom a user ignores, against the set of their names.
use opennap.Base.{
  ℕ, suc, ◌≤◌, ◌≡◌, refl, ap, ◌∙◌, inl, inr, Bool, true, false, ◌&&◌, ◌||◌, not, List, [], ◌∷◌,
  arith, if◌then◌else◌, length, ℤ, pos, Bool-cases, fun_ext,
}
use opennap.Text.{Bytes, case_eq}
use opennap.Text.Fold.{case_eq_congr_left, case_eq_congr_right}
use opennap.Server.{User, user_con, is_user, Globals, is_over, invalid_nick}
use opennap.Ignore.{Change, is_ignoring, unlink_name, ignore, unignore, clear_ignore}

-- No name is there twice, in any case of its letters.
abbrev pub IsUnique : List Bytes → Type 0
IsUnique [] = Unit
IsUnique (name ∷ l) = (is_ignoring l name ≡ false) × IsUnique l

pub data Message : Type 0 where
  ignoring : Bytes → Message
  unignoring : Bytes → Message
  clearing : Message

ignoring_congr :
    (l : List Bytes) (a b : Bytes) → case_eq a b ≡ true → is_ignoring l a ≡ is_ignoring l b
unfolding is_ignoring
ignoring_congr [] a b h = refl
ignoring_congr (name ∷ l) a b h = rw (case_eq_congr_left a b name h, ignoring_congr l a b h) refl

is_ignoring-unlink_name :
    (pkt : Bytes) (l : List Bytes) (nick : Bytes)
    → IsUnique l
    → is_ignoring (unlink_name pkt l) nick ≡ is_ignoring l nick && not (case_eq nick pkt)
unfolding is_ignoring unlink_name
is_ignoring-unlink_name pkt [] nick u = refl
is_ignoring-unlink_name pkt (name ∷ l) nick (new, u) = elim (Bool-cases (case_eq pkt name)) [
  | inl e ↦
      let same = case_eq_congr_right nick pkt name e in
      let absent = ignoring_congr l nick name in ground arith
  | inr e ↦
      let rest = is_ignoring-unlink_name pkt l nick u in
      let other = case_eq_congr_left nick pkt name in ground arith
]

unlink_name-IsUnique : (pkt : Bytes) (l : List Bytes) → IsUnique l → IsUnique (unlink_name pkt l)
unfolding unlink_name
unlink_name-IsUnique pkt [] u = tt
unlink_name-IsUnique pkt (name ∷ l) (new, u) = elim (Bool-cases (case_eq pkt name)) [
  | inl e ↦ rw e u
  | inr e ↦
      let rest = is_ignoring-unlink_name pkt l name u in
      rw e (rest ∙ rw new refl, unlink_name-IsUnique pkt l u)
]

IsUnique-if :
    (b : Bool) (x y : Change)
    → (b ≡ true → IsUnique (x.list))
    → (b ≡ false → IsUnique (y.list))
    → IsUnique ((if b then x else y).list)
IsUnique-if true x y h k = h refl
IsUnique-if false x y h k = k refl

module _ (g : Globals) (max_ignore : ℤ) (user : User) where
  unfoldable pub handle : Message → List Bytes → List Bytes
  unfolding ignore unignore clear_ignore
  handle (ignoring pkt) l = (ignore g max_ignore (user_con user) 322 pkt l).list
  handle (unignoring pkt) l = (unignore g (user_con user) 323 pkt l).list
  handle clearing l = (clear_ignore (user_con user) 326 l).list

  unfoldable pub handle_all : List Message → List Bytes → List Bytes
  unfolding handle
  handle_all [] l = l
  handle_all (m ∷ ms) l = handle_all ms (handle m l)

  -- The set of the names, in any case of their letters.
  unfoldable pub mark : Message → (Bytes → Bool) → Bytes → Bool
  mark (ignoring pkt) set nick = set nick || (not (invalid_nick g pkt) && case_eq nick pkt)
  mark (unignoring pkt) set nick = set nick && (invalid_nick g pkt || not (case_eq nick pkt))
  mark clearing set nick = false

  unfoldable pub mark_all : List Message → (Bytes → Bool) → Bytes → Bool
  unfolding mark
  mark_all [] set = set
  mark_all (m ∷ ms) set = mark_all ms (mark m set)

  handle-IsUnique : (m : Message) (l : List Bytes) → IsUnique l → IsUnique (handle m l)
  unfolding handle ignore unignore clear_ignore is_user
  handle-IsUnique (ignoring pkt) l u =
      IsUnique-if (invalid_nick g pkt) _ _ (λ e. u)
        (λ e.
          IsUnique-if (is_ignoring l pkt) _ _ (λ there. u)
            (λ absent. IsUnique-if (is_over max_ignore (length l)) _ _ (λ o. u) (λ o. (absent, u))))
  handle-IsUnique (unignoring pkt) l u =
      IsUnique-if (invalid_nick g pkt) _ _ (λ e. u)
        (λ e.
          IsUnique-if (is_ignoring l pkt) _ _ (λ there. unlink_name-IsUnique pkt l u) (λ absent. u))
  handle-IsUnique clearing l u = tt

  module _ (no_limit : (n : ℕ) → is_over max_ignore n ≡ false) where
    is_ignoring-handle :
        (m : Message) (l : List Bytes) (nick : Bytes)
        → IsUnique l
        → is_ignoring (handle m l) nick ≡ mark m (is_ignoring l) nick
    unfolding handle ignore unignore clear_ignore is_user is_ignoring mark
    is_ignoring-handle (ignoring pkt) l nick u =
        let over = no_limit (length l) in let same = ignoring_congr l nick pkt in ground arith
    is_ignoring-handle (unignoring pkt) l nick u =
        let same = ignoring_congr l nick pkt in
        let left = is_ignoring-unlink_name pkt l nick u in ground arith
    is_ignoring-handle clearing l nick u = refl

    -- Where the lists have no limit, and no name is on the list twice: after any sequence of the
    -- messages 322, 323 and 326 none is, in any case of its letters, and the list has exactly the names
    -- of the set to which the valid names of the messages 322 are added, from which those of the
    -- messages 323 are taken, and that a message 326 empties.
    pub handle_all-mark_all :
        (ms : List Message) (l : List Bytes)
        → IsUnique l
        → IsUnique (handle_all ms l)
          × ((nick : Bytes) → is_ignoring (handle_all ms l) nick ≡ mark_all ms (is_ignoring l) nick)
    unfolding handle_all mark_all
    handle_all-mark_all [] l u = (u, λ nick. refl)
    handle_all-mark_all (m ∷ ms) l u =
        let (unique, same) = handle_all-mark_all ms (handle m l) (handle-IsUnique m l u) in
        (
          unique,
          λ nick.
              same nick
              ∙ ap (λ (set : Bytes → Bool). mark_all ms set nick)
                  (fun_ext (λ n. is_ignoring-handle m l n u)),
        )

length-unlink_name : (pkt : Bytes) (l : List Bytes) → length (unlink_name pkt l) ≤ length l
unfolding unlink_name
length-unlink_name pkt [] = omega arith
length-unlink_name pkt (name ∷ l) = ground (arith, length-unlink_name pkt l)

length-handle :
    (g : Globals) (limit : ℕ) (user : User) (m : Message) (l : List Bytes)
    → length l ≤ suc (suc limit)
    → length (handle g (pos (suc limit)) user m l) ≤ suc (suc limit)
unfolding handle ignore unignore clear_ignore is_user is_over
length-handle g limit user (ignoring pkt) l h = ground arith
length-handle g limit user (unignoring pkt) l h =
    let shorter = length-unlink_name pkt l in ground arith
length-handle g limit user clearing l h = omega arith

-- A list that has no more names than the limit and one more never grows beyond that.
pub length-handle_all :
    (g : Globals) (limit : ℕ) (user : User) (ms : List Message) (l : List Bytes)
    → length l ≤ suc (suc limit)
    → length (handle_all g (pos (suc limit)) user ms l) ≤ suc (suc limit)
unfolding handle_all
length-handle_all g limit user [] l h = h
length-handle_all g limit user (m ∷ ms) l h =
    length-handle_all g limit user ms (handle g (pos (suc limit)) user m l)
      (length-handle g limit user m l h)
