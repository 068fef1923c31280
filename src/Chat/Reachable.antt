-- ===== src/Chat/Reachable.antt =====
-- Any commands in any order, and what a logout leaves.
use asca_ci.Base.Counts.{one, count, count-erase}
use asca_ci.Base.{
  ℕ, zero, suc, ◌+◌, ◌≡◌, refl, Bool, true, false, not, List, [], ◌∷◌, ◌++◌, Option, none, some,
  ◌==◌, ◌||◌, if◌then◌else◌, arith, Bool-cases, inl, inr, All,
}
use asca_ci.Chat.Orderly.{
  Shrinks-AreOrderly, in_private_channel-Shrinks, invite_player-Keeps, exclude_player-Keeps,
  add_user_to_channel-Shrinks, remove_user_from_channel-Shrinks,
  remove_user_from_all_channels-Shrinks,
}
use asca_ci.Chat.Private.{IsPrivate, AreOrderly, owned, numbered}
use asca_ci.Chat.{
  PrivateChatChannel, remove_invite, remove_user, invite_player, exclude_player,
  has_private_channel, has_slot, find_slot, emplace, create_private_channel,
  remove_user_from_all_channels, Command, creates, invites_to, excludes, opens, closes, logs_out,
  run_command, run_commands,
}

has_private_channel-owned :
    (q : ℕ) (cs : List PrivateChatChannel) → has_private_channel q cs ≡ false → owned q cs ≡ 0
unfolding has_private_channel
has_private_channel-owned q [] h = refl
has_private_channel-owned q (c ∷ cs) h = ground (arith, h, has_private_channel-owned q cs)

has_slot-numbered :
    (i : ℕ) (cs : List PrivateChatChannel) → has_slot i cs ≡ false → numbered i cs ≡ 0
unfolding has_slot
has_slot-numbered i [] h = refl
has_slot-numbered i (c ∷ cs) h = ground (arith, h, has_slot-numbered i cs)

find_slot-free :
    (n i k : ℕ) (cs : List PrivateChatChannel) → find_slot n i cs ≡ some k → has_slot k cs ≡ false
unfolding find_slot
find_slot-free zero i k cs e = absurd (ground (arith, e))
find_slot-free (suc n) i k cs e = elim (Bool-cases (has_slot i cs)) [
  | inl taken ↦ find_slot-free n (i + 1) k cs (rw taken at e)
  | inr free ↦ let same : i ≡ k = ground (arith, e, free) in rw (← same) free
]

owned-snoc :
    (q : ℕ) (cs : List PrivateChatChannel) (c : PrivateChatChannel)
    → owned q (cs ++ c ∷ []) ≡ owned q cs + one (c.owner == q)
owned-snoc q [] c = ground arith
owned-snoc q (d ∷ cs) c = ground (arith, owned-snoc q cs c)

numbered-snoc :
    (i : ℕ) (cs : List PrivateChatChannel) (c : PrivateChatChannel)
    → numbered i (cs ++ c ∷ []) ≡ numbered i cs + one (c.id == i)
numbered-snoc i [] c = ground arith
numbered-snoc i (d ∷ cs) c = ground (arith, numbered-snoc i cs c)

All-snoc :
    (cs : List PrivateChatChannel) (c : PrivateChatChannel)
    → All IsPrivate cs
    → IsPrivate c
    → All IsPrivate (cs ++ c ∷ [])
All-snoc [] c h i = (i, tt)
All-snoc (d ∷ cs) c (h, hs) i = (h, All-snoc cs c hs i)

emplace-AreOrderly :
    (player : ℕ) (o : Option ℕ) (cs : List PrivateChatChannel)
    → owned player cs ≡ 0
    → ((k : ℕ) → o ≡ some k → has_slot k cs ≡ false)
    → AreOrderly cs
    → AreOrderly (emplace player o cs)
emplace-AreOrderly player none cs unowned free i = i
emplace-AreOrderly player (some k) cs unowned free i =
    let c : PrivateChatChannel = record {
      id = k;
      owner = player;
      invites = [];
      users = player ∷ [];
    } in
    record {
      each = All-snoc cs c i.each (record {
        once = λ q. ground arith;
        invited_once = λ q. omega arith;
        allowed = λ q. omega arith;
      });
      one_each = λ q. ground (arith, owned-snoc q cs c, i.one_each q, unowned);
      distinct = λ n.
          ground (arith, numbered-snoc n cs c, i.distinct n, has_slot-numbered k cs (free k refl));
    }

unless-AreOrderly :
    (refused : Bool) (player : ℕ) (o : Option ℕ) (cs : List PrivateChatChannel)
    → (refused ≡ false → owned player cs ≡ 0)
    → ((k : ℕ) → o ≡ some k → has_slot k cs ≡ false)
    → AreOrderly cs
    → AreOrderly (if refused then cs else emplace player o cs)
unless-AreOrderly true player o cs unowned free i = i
unless-AreOrderly false player o cs unowned free i =
    emplace-AreOrderly player o cs (unowned refl) free i

create_private_channel-AreOrderly :
    (is_premium : ℕ → Bool) (player : ℕ) (cs : List PrivateChatChannel)
    → AreOrderly cs
    → AreOrderly (create_private_channel is_premium player cs)
unfolding create_private_channel
create_private_channel-AreOrderly is_premium player cs i =
    unless-AreOrderly (not (is_premium player) || has_private_channel player cs) player
      (find_slot 9900 100 cs) cs
      (λ may. has_private_channel-owned player cs (free_owner (is_premium player) may))
      (λ k e. find_slot-free 9900 100 k cs e) i
  where
    free_owner :
        (b : Bool)
        → (not b || has_private_channel player cs) ≡ false
        → has_private_channel player cs ≡ false
    free_owner true h = h
    free_owner false h = absurd (ground (arith, h))

run_command-AreOrderly :
    (is_premium : ℕ → Bool) (cmd : Command) (cs : List PrivateChatChannel)
    → AreOrderly cs
    → AreOrderly (run_command is_premium cmd cs)
unfolding run_command
run_command-AreOrderly is_premium (creates player) cs i =
    create_private_channel-AreOrderly is_premium player cs i
run_command-AreOrderly is_premium (invites_to player other) cs i =
    elim (Bool-cases (player == other)) [
      | inl self ↦ rw self i
      | inr others ↦ rw others (
          Shrinks-AreOrderly i (
            in_private_channel-Shrinks player (invite_player other) cs (invite_player-Keeps other)
              i.each))
    ]
run_command-AreOrderly is_premium (excludes player other) cs i =
    elim (Bool-cases (player == other)) [
      | inl self ↦ rw self i
      | inr others ↦ rw others (
          Shrinks-AreOrderly i (
            in_private_channel-Shrinks player (exclude_player other) cs (exclude_player-Keeps other)
              i.each))
    ]
run_command-AreOrderly is_premium (opens player n) cs i =
    Shrinks-AreOrderly i (add_user_to_channel-Shrinks player n cs i.each)
run_command-AreOrderly is_premium (closes player n) cs i =
    Shrinks-AreOrderly i (remove_user_from_channel-Shrinks player n cs i.each)
run_command-AreOrderly is_premium (logs_out player) cs i =
    Shrinks-AreOrderly i (remove_user_from_all_channels-Shrinks player cs i.each)

-- Whatever the players create, open, close, invite, exclude and log out, in any order: every user
-- of a private channel is its owner or invited, nobody is in it twice, a player has at most one
-- private channel, and no two have the same number.
pub run_commands-AreOrderly :
    (is_premium : ℕ → Bool) (cmds : List Command) (cs : List PrivateChatChannel)
    → AreOrderly cs
    → AreOrderly (run_commands is_premium cmds cs)
unfolding run_commands
run_commands-AreOrderly is_premium [] cs i = i
run_commands-AreOrderly is_premium (cmd ∷ cmds) cs i =
    run_commands-AreOrderly is_premium cmds (run_command is_premium cmd cs)
      (run_command-AreOrderly is_premium cmd cs i)

-- How often a player is the owner, a user or invited.
abbrev pub mentions : ℕ → List PrivateChatChannel → ℕ
mentions q [] = 0
mentions q (c ∷ cs) = one (c.owner == q) + count q c.users + count q c.invites + mentions q cs

nobody_left :
    (player : ℕ) (cs : List PrivateChatChannel)
    → All IsPrivate cs
    → mentions player (remove_user_from_all_channels player cs) ≡ 0
unfolding remove_user_from_all_channels remove_user remove_invite
nobody_left player [] h = refl
nobody_left player (c ∷ cs) (h, hs) = elim (Bool-cases (c.owner == player)) [
  | inl own ↦ rw own (nobody_left player cs hs)
  | inr visits ↦ rw visits (
      ground (
        arith,
        visits,
        h.once player,
        h.invited_once player,
        count-erase player player c.users,
        count-erase player player c.invites,
        nobody_left player cs hs,
      ))
]

-- After a player has logged out of channels that are in order, no private channel has the player
-- as its owner, as a user or as invited.
pub mentions-remove_user_from_all_channels :
    (player : ℕ) (cs : List PrivateChatChannel)
    → AreOrderly cs
    → mentions player (remove_user_from_all_channels player cs) ≡ 0
mentions-remove_user_from_all_channels player cs i = nobody_left player cs i.each
