-- ===== src/Chat/Private.antt =====
-- A private channel is used by its owner and the invited, and each player has one at most.
use asca_ci.Base.Counts.{elem, one, count, count-erase, elem-count, count-elem}
use asca_ci.Base.{ℕ, ◌+◌, ◌≤◌, ◌≡◌, true, List, [], ◌∷◌, ◌==◌, arith, Bool-cases, inl, inr, All}
use asca_ci.Chat.{
  PrivateChatChannel, is_invited, remove_invite, remove_user, add_user, invite_player,
}

-- Nobody is a user or invited twice, and every user is the owner or invited.
pub record IsPrivate (c : PrivateChatChannel) : Type 0 where
  pub once : (q : ℕ) → count q c.users ≤ 1
  pub invited_once : (q : ℕ) → count q c.invites ≤ 1
  pub allowed : (q : ℕ) → count q c.users ≤ one (c.owner == q) + count q c.invites

-- How many channels a player has.
abbrev pub owned : ℕ → List PrivateChatChannel → ℕ
owned q [] = 0
owned q (c ∷ cs) = one (c.owner == q) + owned q cs

-- How many channels have a number.
abbrev pub numbered : ℕ → List PrivateChatChannel → ℕ
numbered i [] = 0
numbered i (c ∷ cs) = one (c.id == i) + numbered i cs

pub record AreOrderly (cs : List PrivateChatChannel) : Type 0 where
  pub each : All IsPrivate cs
  pub one_each : (q : ℕ) → owned q cs ≤ 1
  pub distinct : (i : ℕ) → numbered i cs ≤ 1

pub remove_user-IsPrivate :
    (player : ℕ) (c : PrivateChatChannel) → IsPrivate c → IsPrivate (remove_user player c)
unfolding remove_user
remove_user-IsPrivate player c i = record {
  once = λ q. ground (arith, i.once q, count-erase q player c.users);
  invited_once = i.invited_once;
  allowed = λ q. ground (arith, i.allowed q, count-erase q player c.users);
}

pub add_user-IsPrivate :
    (player : ℕ) (c : PrivateChatChannel)
    → is_invited player c ≡ true
    → IsPrivate c
    → IsPrivate (add_user player c)
unfolding add_user is_invited
add_user-IsPrivate player c may i = elim (Bool-cases (elem player c.users)) [
  | inl there ↦ rw there i
  | inr new ↦ rw new (record {
    once = λ q. ground (arith, i.once q, elem-count player c.users new);
    invited_once = i.invited_once;
    allowed = λ q.
        ground
          (arith, i.allowed q, elem-count player c.users new, may, count-elem player c.invites);
  })
]

pub invite_player-IsPrivate :
    (guid : ℕ) (c : PrivateChatChannel) → IsPrivate c → IsPrivate (invite_player guid c)
unfolding invite_player
invite_player-IsPrivate guid c i = elim (Bool-cases (elem guid c.invites)) [
  | inl there ↦ rw there i
  | inr new ↦ rw new (record {
    once = i.once;
    invited_once = λ q. ground (arith, i.invited_once q, elem-count guid c.invites new);
    allowed = λ q. ground (arith, i.allowed q);
  })
]

pub drop-IsPrivate :
    (player : ℕ) (c : PrivateChatChannel)
    → IsPrivate c
    → IsPrivate (remove_user player (remove_invite player c))
unfolding remove_user remove_invite
drop-IsPrivate player c i = record {
  once = λ q. ground (arith, i.once q, count-erase q player c.users);
  invited_once = λ q. ground (arith, i.invited_once q, count-erase q player c.invites);
  allowed = λ q.
      ground (
        arith,
        i.allowed q,
        i.once q,
        count-erase q player c.users,
        count-erase q player c.invites,
      );
}
