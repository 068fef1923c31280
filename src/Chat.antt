-- ===== src/Chat.antt =====
-- Private chat channels, of src/chat.cpp and the commands on them of src/game.cpp. A player is a
-- number that stands for the GUID and for the id; the order of the channels is that of their
-- making. Messages, names and the other channels are left out.
pub mod Private
pub mod Orderly
pub mod Reachable
pub mod Tests
use asca_ci.Base.{
  ℕ, zero, suc, ◌+◌, Bool, true, false, not, List, [], ◌∷◌, ◌++◌, Option, none, some, ◌==◌,
  if◌then◌else◌, ◌&&◌, ◌||◌,
}
use asca_ci.Base.Counts.{elem, erase}

pub record PrivateChatChannel : Type 0 where
  pub id : ℕ
  pub owner : ℕ
  pub invites : List ℕ
  pub users : List ℕ

unfoldable pub is_invited : ℕ → PrivateChatChannel → Bool
is_invited guid c = guid == c.owner || elem guid c.invites

unfoldable pub remove_invite : ℕ → PrivateChatChannel → PrivateChatChannel
remove_invite guid c = record c { invites = erase guid c.invites }

unfoldable pub remove_user : ℕ → PrivateChatChannel → PrivateChatChannel
remove_user player c = record c { users = erase player c.users }

unfoldable pub add_user : ℕ → PrivateChatChannel → PrivateChatChannel
add_user player c = if elem player c.users then c else record c { users = player ∷ c.users }

unfoldable pub invite_player : ℕ → PrivateChatChannel → PrivateChatChannel
invite_player guid c = if elem guid c.invites then c else record c { invites = guid ∷ c.invites }

unfoldable pub exclude_player : ℕ → PrivateChatChannel → PrivateChatChannel
unfolding remove_invite remove_user
exclude_player player c =
    if elem player c.invites then remove_user player (remove_invite player c) else c

-- `getPrivateChannel`, and what is done to the channel that it gives.
unfoldable pub in_private_channel :
    ℕ
    → (PrivateChatChannel → PrivateChatChannel)
    → List PrivateChatChannel
    → List PrivateChatChannel
in_private_channel player f [] = []
in_private_channel player f (c ∷ cs) =
    let rest = in_private_channel player f cs in if c.owner == player then f c ∷ cs else c ∷ rest

unfoldable pub has_private_channel : ℕ → List PrivateChatChannel → Bool
has_private_channel player [] = false
has_private_channel player (c ∷ cs) = c.owner == player || has_private_channel player cs

unfoldable pub has_slot : ℕ → List PrivateChatChannel → Bool
has_slot i [] = false
has_slot i (c ∷ cs) = c.id == i || has_slot i cs

-- The loop over the slots from `i` on, of which `n` are left.
unfoldable pub find_slot : ℕ → ℕ → List PrivateChatChannel → Option ℕ
unfolding has_slot
find_slot zero i cs = none
find_slot (suc n) i cs =
    let later = find_slot n (i + 1) cs in if has_slot i cs then later else some i

abbrev pub emplace : ℕ → Option ℕ → List PrivateChatChannel → List PrivateChatChannel
emplace player none cs = cs
emplace player (some i) cs =
    cs ++ record { id = i; owner = player; invites = []; users = player ∷ [] } ∷ []

-- `createChannel` and the `addUser` that follows it.
unfoldable pub create_private_channel :
    (ℕ → Bool) → ℕ → List PrivateChatChannel → List PrivateChatChannel
unfolding has_private_channel find_slot
create_private_channel is_premium player cs =
    if not (is_premium player) || has_private_channel player cs
    then cs
    else emplace player (find_slot 9900 100 cs) cs

-- `getChannel` of a private channel's number, and `addUser`.
unfoldable pub add_user_to_channel : ℕ → ℕ → List PrivateChatChannel → List PrivateChatChannel
unfolding is_invited add_user
add_user_to_channel player i [] = []
add_user_to_channel player i (c ∷ cs) =
    let rest = add_user_to_channel player i cs in
    if c.id == i then if is_invited player c then add_user player c ∷ cs else c ∷ cs else c ∷ rest

-- The channel goes with its owner.
unfoldable pub remove_user_from_channel : ℕ → ℕ → List PrivateChatChannel → List PrivateChatChannel
unfolding is_invited remove_user
remove_user_from_channel player i [] = []
remove_user_from_channel player i (c ∷ cs) =
    let rest = remove_user_from_channel player i cs in
    if c.id == i
    then if is_invited player c && elem player c.users
      then if c.owner == player then cs else remove_user player c ∷ cs
      else c ∷ cs
    else c ∷ rest

-- At a logout.
unfoldable pub remove_user_from_all_channels : ℕ → List PrivateChatChannel → List PrivateChatChannel
unfolding remove_invite remove_user
remove_user_from_all_channels player [] = []
remove_user_from_all_channels player (c ∷ cs) =
    let rest = remove_user_from_all_channels player cs in
    if c.owner == player then rest else remove_user player (remove_invite player c) ∷ rest

pub data Command : Type 0 where
  creates : ℕ → Command
  invites_to : ℕ → ℕ → Command
  excludes : ℕ → ℕ → Command
  opens : ℕ → ℕ → Command
  closes : ℕ → ℕ → Command
  logs_out : ℕ → Command

unfoldable pub run_command :
    (ℕ → Bool) → Command → List PrivateChatChannel → List PrivateChatChannel
unfolding in_private_channel invite_player exclude_player
run_command is_premium (creates player) cs = create_private_channel is_premium player cs
run_command is_premium (invites_to player other) cs =
    if player == other then cs else in_private_channel player (invite_player other) cs
run_command is_premium (excludes player other) cs =
    if player == other then cs else in_private_channel player (exclude_player other) cs
run_command is_premium (opens player i) cs = add_user_to_channel player i cs
run_command is_premium (closes player i) cs = remove_user_from_channel player i cs
run_command is_premium (logs_out player) cs = remove_user_from_all_channels player cs

unfoldable pub run_commands :
    (ℕ → Bool) → List Command → List PrivateChatChannel → List PrivateChatChannel
unfolding run_command
run_commands is_premium [] cs = cs
run_commands is_premium (cmd ∷ cmds) cs =
    run_commands is_premium cmds (run_command is_premium cmd cs)
