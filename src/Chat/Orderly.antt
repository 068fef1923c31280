-- ===== src/Chat/Orderly.antt =====
-- What holds of the private channels whatever the players do.
use asca_ci.Base.Counts.{elem}
use asca_ci.Base.{
  ℕ, ◌≤◌, ◌≡◌, refl, Bool, true, false, List, [], ◌∷◌, ◌==◌, ◌&&◌, if◌then◌else◌, arith, Bool-cases,
  inl, inr, All,
}
use asca_ci.Chat.Private.{
  IsPrivate, owned, numbered, AreOrderly, remove_user-IsPrivate, add_user-IsPrivate,
  invite_player-IsPrivate, drop-IsPrivate,
}
use asca_ci.Chat.{
  PrivateChatChannel, is_invited, remove_invite, remove_user, add_user, invite_player,
  exclude_player, in_private_channel, add_user_to_channel, remove_user_from_channel,
  remove_user_from_all_channels,
}

-- No channel is new.
pub record Shrinks (cs cs' : List PrivateChatChannel) : Type 0 where
  each : All IsPrivate cs'
  fewer : (q : ℕ) → owned q cs' ≤ owned q cs
  numbers : (i : ℕ) → numbered i cs' ≤ numbered i cs

pub Shrinks-AreOrderly :
    {cs cs' : List PrivateChatChannel} → AreOrderly cs → Shrinks cs cs' → AreOrderly cs'
Shrinks-AreOrderly o s = record {
  each = s.each;
  one_each = λ q. omega (arith, s.fewer q, o.one_each q);
  distinct = λ i. omega (arith, s.numbers i, o.distinct i);
}

same-Shrinks : (cs : List PrivateChatChannel) → All IsPrivate cs → Shrinks cs cs
same-Shrinks cs h = record { each = h; fewer = λ q. omega arith; numbers = λ i. omega arith }

-- A channel that stays itself, and the others.
change-Shrinks :
    {c c' : PrivateChatChannel} {cs cs' : List PrivateChatChannel}
    → IsPrivate c'
    → c'.owner ≡ c.owner
    → c'.id ≡ c.id
    → Shrinks cs cs'
    → Shrinks (c ∷ cs) (c' ∷ cs')
change-Shrinks p owner id s = record {
  each = (p, s.each);
  fewer = λ q. rw owner (omega (arith, s.fewer q));
  numbers = λ i. rw id (omega (arith, s.numbers i));
}

drop-Shrinks :
    {c : PrivateChatChannel} {cs cs' : List PrivateChatChannel}
    → Shrinks cs cs'
    → Shrinks (c ∷ cs) cs'
drop-Shrinks s = record {
  each = s.each;
  fewer = λ q. omega (arith, s.fewer q);
  numbers = λ i. omega (arith, s.numbers i);
}

-- A change of a channel that keeps its owner and its number.
pub record Keeps (f : PrivateChatChannel → PrivateChatChannel) : Type 0 where
  stays : (c : PrivateChatChannel) → IsPrivate c → IsPrivate (f c)
  owner : (c : PrivateChatChannel) → (f c).owner ≡ c.owner
  id : (c : PrivateChatChannel) → (f c).id ≡ c.id

pub in_private_channel-Shrinks :
    (player : ℕ) (f : PrivateChatChannel → PrivateChatChannel) (cs : List PrivateChatChannel)
    → Keeps f
    → All IsPrivate cs
    → Shrinks cs (in_private_channel player f cs)
unfolding in_private_channel
in_private_channel-Shrinks player f [] k h = same-Shrinks [] h
in_private_channel-Shrinks player f (c ∷ cs) k (h, hs) = elim (Bool-cases (c.owner == player)) [
  | inl own ↦ rw own (change-Shrinks (k.stays c h) (k.owner c) (k.id c) (same-Shrinks cs hs))
  | inr other ↦ rw other (change-Shrinks h refl refl (in_private_channel-Shrinks player f cs k hs))
]

pub invite_player-Keeps : (guid : ℕ) → Keeps (invite_player guid)
unfolding invite_player
invite_player-Keeps guid = record {
  stays = λ c i. invite_player-IsPrivate guid c i;
  owner = λ c. same_owner c (elem guid c.invites);
  id = λ c. same_id c (elem guid c.invites);
}
  where
    same_owner :
        (c : PrivateChatChannel) (b : Bool)
        → (if b then c else record c { invites = guid ∷ c.invites }).owner ≡ c.owner
    same_owner c true = refl
    same_owner c false = refl

    same_id :
        (c : PrivateChatChannel) (b : Bool)
        → (if b then c else record c { invites = guid ∷ c.invites }).id ≡ c.id
    same_id c true = refl
    same_id c false = refl

pub exclude_player-Keeps : (player : ℕ) → Keeps (exclude_player player)
unfolding exclude_player remove_user remove_invite
exclude_player-Keeps player = record {
  stays = λ c i. elim (Bool-cases (elem player c.invites)) [
    | inl there ↦ rw there (drop-IsPrivate player c i)
    | inr absent ↦ rw absent i
  ];
  owner = λ c. elim (Bool-cases (elem player c.invites)) [
    | inl there ↦ rw there refl
    | inr absent ↦ rw absent refl
  ];
  id = λ c. elim (Bool-cases (elem player c.invites)) [
    | inl there ↦ rw there refl
    | inr absent ↦ rw absent refl
  ];
}

add_user-same :
    (player : ℕ) (c : PrivateChatChannel)
    → ((add_user player c).owner ≡ c.owner) × ((add_user player c).id ≡ c.id)
unfolding add_user
add_user-same player c = elim (Bool-cases (elem player c.users)) [
  | inl there ↦ rw there (refl, refl)
  | inr new ↦ rw new (refl, refl)
]

pub add_user_to_channel-Shrinks :
    (player i : ℕ) (cs : List PrivateChatChannel)
    → All IsPrivate cs
    → Shrinks cs (add_user_to_channel player i cs)
unfolding add_user_to_channel
add_user_to_channel-Shrinks player i [] h = same-Shrinks [] h
add_user_to_channel-Shrinks player i (c ∷ cs) (h, hs) = elim (Bool-cases (c.id == i)) [
  | inr other ↦ rw other (change-Shrinks h refl refl (add_user_to_channel-Shrinks player i cs hs))
  | inl here ↦ elim (Bool-cases (is_invited player c)) [
    | inl may ↦
        rw (here, may)
          (change-Shrinks (add_user-IsPrivate player c may h) (add_user-same player c).0
            (add_user-same player c).1 (same-Shrinks cs hs))
    | inr may_not ↦ rw (here, may_not) (same-Shrinks (c ∷ cs) (h, hs))
  ]
]

pub remove_user_from_channel-Shrinks :
    (player i : ℕ) (cs : List PrivateChatChannel)
    → All IsPrivate cs
    → Shrinks cs (remove_user_from_channel player i cs)
unfolding remove_user_from_channel remove_user
remove_user_from_channel-Shrinks player i [] h = same-Shrinks [] h
remove_user_from_channel-Shrinks player i (c ∷ cs) (h, hs) = elim (Bool-cases (c.id == i)) [
  | inr other ↦
      rw other (change-Shrinks h refl refl (remove_user_from_channel-Shrinks player i cs hs))
  | inl here ↦ elim (Bool-cases (is_invited player c && elem player c.users)) [
    | inr absent ↦ rw (here, absent) (same-Shrinks (c ∷ cs) (h, hs))
    | inl there ↦ elim (Bool-cases (c.owner == player)) [
      | inl own ↦ rw (here, there, own) (drop-Shrinks (same-Shrinks cs hs))
      | inr visits ↦
          rw (here, there, visits)
            (change-Shrinks (remove_user-IsPrivate player c h) refl refl (same-Shrinks cs hs))
    ]
  ]
]

pub remove_user_from_all_channels-Shrinks :
    (player : ℕ) (cs : List PrivateChatChannel)
    → All IsPrivate cs
    → Shrinks cs (remove_user_from_all_channels player cs)
unfolding remove_user_from_all_channels remove_user remove_invite
remove_user_from_all_channels-Shrinks player [] h = same-Shrinks [] h
remove_user_from_all_channels-Shrinks player (c ∷ cs) (h, hs) =
    let rest = remove_user_from_all_channels-Shrinks player cs hs in
    elim (Bool-cases (c.owner == player)) [
      | inl own ↦ rw own (drop-Shrinks rest)
      | inr visits ↦ rw visits (change-Shrinks (drop-IsPrivate player c h) refl refl rest)
    ]
