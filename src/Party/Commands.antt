-- ===== src/Party/Commands.antt =====
-- The commands of src/game.cpp on parties, and what a logout does of src/player.cpp.
pub mod Each
pub mod Reachable
pub mod Logout
use asca_ci.Base.Counts.{elem}
use asca_ci.Base.{
  update, ℕ, Bool, true, false, not, List, [], ◌∷◌, Option, none, some, ◌==◌, if◌then◌else◌, ◌||◌,
  ◌&&◌,
}
use asca_ci.Party.Shared.{Party, View, set_shared_experience}
use asca_ci.Party.{
  World, Events, put, is_party, leave_party, join_party, remove_invite, invite_player, new_party,
  initial, pass_party_leadership, clear_party_invitations,
}

-- What the commands ask of the game: who is online, who is fighting and not in a protection zone.
pub record Game : Type 0 where
  pub online : ℕ → Bool
  pub in_fight : ℕ → Bool
  pub in_protection_zone : ℕ → Bool

abbrev with_address : ℕ → Option Party → Option (ℕ × Party)
with_address i none = none
with_address i (some p) = some (i, p)

abbrev at_pointer : World → Option ℕ → Option (ℕ × Party)
at_pointer w none = none
at_pointer w (some i) = with_address i (w.parties i)

-- The player's party and its address. A pointer to a deleted party gives no party; where the
-- pointers are coherent there is none.
unfoldable pub party_at : World → ℕ → Option (ℕ × Party)
party_at w player = at_pointer w (w.party_of player)

abbrev inviting : ℕ → ℕ → Option (ℕ × Party) → Bool
inviting player invited none = false
inviting player invited (some (i, p)) = p.leader == player && elem invited p.invitees

-- `isInviting`.
unfoldable pub is_inviting : World → ℕ → ℕ → Bool
unfolding party_at
is_inviting w player invited = inviting player invited (party_at w player)

abbrev pub has_party : Option ℕ → Bool
has_party none = false
has_party (some i) = true

-- `isPartner`, of a player in the party `i`.
abbrev is_partner : World → ℕ → ℕ → ℕ → Bool
is_partner w i player other = not (other == player) && is_party (w.party_of other) i

module _ (g : Game) (ev : Events) (v : View) where
  pub invite_from : ℕ → ℕ → ℕ → World → Option (ℕ × Party) → World
  invite_from addr player invited w none =
      (invite_player addr invited (initial player) (new_party addr player w)).1
  invite_from addr player invited w (some (i, p)) =
      if p.leader == player then (invite_player i invited p w).1 else w

  -- A new party is made at the address `addr`.
  unfoldable pub player_invite_to_party : ℕ → ℕ → ℕ → World → World
  unfolding invite_from
  player_invite_to_party addr player invited w =
      if player == invited
        || not (g.online player)
        || not (g.online invited)
        || is_inviting w invited player
        || has_party (w.party_of invited)
      then w
      else invite_from addr player invited w (party_at w player)

  pub join_to : ℕ → ℕ → World → Option (ℕ × Party) → World
  join_to player leader w none = w
  join_to player leader w (some (i, p)) =
      if p.leader == leader then (join_party ev v i player p w).1 else w

  unfoldable pub player_join_party : ℕ → ℕ → World → World
  unfolding join_to
  player_join_party player leader w =
      if not (g.online player)
        || not (g.online leader)
        || not (is_inviting w leader player)
        || has_party (w.party_of player)
      then w
      else join_to player leader w (party_at w leader)

  pub revoke_from : ℕ → ℕ → World → Option (ℕ × Party) → World
  revoke_from player invited w none = w
  revoke_from player invited w (some (i, p)) =
      if p.leader == player && g.online invited && is_inviting w player invited
      then (remove_invite ev i invited true p w).1
      else w

  unfoldable pub player_revoke_party_invitation : ℕ → ℕ → World → World
  unfolding revoke_from
  player_revoke_party_invitation player invited w =
      if g.online player then revoke_from player invited w (party_at w player) else w

  pub pass_from : ℕ → ℕ → World → Option (ℕ × Party) → World
  pass_from player new_leader w none = w
  pass_from player new_leader w (some (i, p)) =
      if p.leader == player && g.online new_leader && is_partner w i player new_leader
      then put i (pass_party_leadership v i new_leader p w).1 w
      else w

  unfoldable pub player_pass_party_leadership : ℕ → ℕ → World → World
  unfolding pass_from
  player_pass_party_leadership player new_leader w =
      if g.online player then pass_from player new_leader w (party_at w player) else w

  pub leave_from : ℕ → World → Option (ℕ × Party) → World
  leave_from player w none = w
  leave_from player w (some (i, p)) = (leave_party ev v i player p w).1

  unfoldable pub player_leave_party : ℕ → World → World
  unfolding leave_from
  player_leave_party player w =
      if not (g.online player) || g.in_fight player
      then w
      else leave_from player w (party_at w player)

  pub share_in : ℕ → Bool → World → Option (ℕ × Party) → World
  share_in player active w none = w
  share_in player active w (some (i, p)) =
      if g.in_fight player && not (g.in_protection_zone player)
      then w
      else put i (set_shared_experience v player active p).1 w

  unfoldable pub player_enable_shared_party_experience : ℕ → Bool → World → World
  unfolding share_in
  player_enable_shared_party_experience player active w =
      if g.online player then share_in player active w (party_at w player) else w

  -- The part of a logout that is about parties.
  unfoldable pub log_out : ℕ → World → World
  unfolding leave_from
  log_out player w =
      let w' = clear_party_invitations ev player (w.invitations player) w in
      leave_from player w' (party_at w' player)

-- The address of an invitation is that of a new party, if one is made.
pub data Command : Type 0 where
  invites : ℕ → ℕ → ℕ → Command
  joins : ℕ → ℕ → Command
  revokes : ℕ → ℕ → Command
  passes : ℕ → ℕ → Command
  leaves : ℕ → Command
  shares : ℕ → Bool → Command
  logs_out : ℕ → Command

unfoldable pub run_command : Game → Events → View → Command → World → World
run_command g ev v (invites addr player invited) = player_invite_to_party g ev v addr player invited
run_command g ev v (joins player leader) = player_join_party g ev v player leader
run_command g ev v (revokes player invited) = player_revoke_party_invitation g ev v player invited
run_command g ev v (passes player leader) = player_pass_party_leadership g ev v player leader
run_command g ev v (leaves player) = player_leave_party g ev v player
run_command g ev v (shares player active) =
    player_enable_shared_party_experience g ev v player active
run_command g ev v (logs_out player) = log_out g ev v player
