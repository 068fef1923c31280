-- ===== src/Party.antt =====
-- Parties, of src/party.cpp, the players' side of them in src/player.cpp, and the commands on them
-- in src/game.cpp. Players are numbers, and so are the addresses of parties; a party that has been
-- deleted has no entry. Texts and icons are left out, the scripts' handlers are arguments.
pub mod Shared
pub mod Counts
pub mod Coherent
pub mod Steps
pub mod Invitations
pub mod Declines
pub mod Commands
pub mod Tests
use asca_ci.Base.{
  update, ℕ, Bool, true, false, not, List, [], ◌∷◌, ◌++◌, Option, none, some, ◌==◌, if◌then◌else◌,
  ◌&&◌, ◌||◌,
}
use asca_ci.Base.Counts.{elem, erase, remove}
use Shared.{
  Party, View, is_empty, update_shared_experience, set_shared_experience, clear_player_points,
}

-- What the party's script answers.
pub record Events : Type 0 where
  pub on_join : Bool
  pub on_leave : Bool
  pub on_disband : Bool

pub record World : Type 0 where
  pub parties : ℕ → Option Party
  pub party_of : ℕ → Option ℕ
  pub invitations : ℕ → List ℕ

abbrev pub put : ℕ → Party → World → World
put i p w = record w { parties = update w.parties i (some p) }

abbrev pub is_party : Option ℕ → ℕ → Bool
is_party none i = false
is_party (some j) i = j == i

unfoldable pub add_party_invitation : ℕ → List ℕ → List ℕ
add_party_invitation i invitations = if elem i invitations then invitations else i ∷ invitations

-- The loops of `disband` over the invited players and over the members.
unfoldable pub uninvite_all : ℕ → List ℕ → (ℕ → List ℕ) → ℕ → List ℕ
uninvite_all i [] invitations = invitations
uninvite_all i (q ∷ qs) invitations =
    uninvite_all i qs (update invitations q (remove i (invitations q)))

unfoldable pub clear_all : List ℕ → (ℕ → Option ℕ) → ℕ → Option ℕ
clear_all [] party_of = party_of
clear_all (q ∷ qs) party_of = clear_all qs (update party_of q none)

-- `disband` of the party `i`, whose fields are `p`; the script may refuse.
unfoldable pub disband : Events → ℕ → Party → World → World
unfolding clear_all uninvite_all
disband ev i p w =
    if ev.on_disband
    then record {
      parties = update w.parties i none;
      party_of = clear_all p.members (update w.party_of p.leader none);
      invitations = uninvite_all i p.invitees w.invitations;
    }
    else put i p w

unfoldable pub pass_party_leadership : View → ℕ → ℕ → Party → World → Bool × Party
pass_party_leadership v i player p w =
    if p.leader == player || not (is_party (w.party_of player) i) then (false, p) else (
      true,
      update_shared_experience v
          (record p { leader = player; members = p.leader ∷ erase player p.members }),
    )

-- The leader's place is taken by the first member, unless nobody is left to lead. Gives whether
-- the leader is missing, and the party.
abbrev pub succeed_leader : View → ℕ → Party → World → List ℕ → Bool × Party
succeed_leader v i p w [] = (true, p)
succeed_leader v i p w (m ∷ []) =
    if is_empty p.invitees then (true, p) else (false, (pass_party_leadership v i m p w).1)
succeed_leader v i p w (m ∷ n ∷ ms) = (false, (pass_party_leadership v i m p w).1)

abbrev pub empty : Party → Bool
empty p = is_empty p.members && is_empty p.invitees

-- What follows the succession.
unfoldable pub drop_player : Events → View → ℕ → ℕ → World → Bool × Party → World
unfolding disband
drop_player ev v i player w (missing_leader, p) =
    let q =
      clear_player_points v player
        (update_shared_experience v (record p { members = erase player p.members })) in
    let w' = record w { party_of = update w.party_of player none } in
    if missing_leader || empty q then disband ev i q w' else put i q w'

unfoldable pub leave_party : Events → View → ℕ → ℕ → Party → World → Bool × World
unfolding pass_party_leadership drop_player
leave_party ev v i player p w =
    if not (is_party (w.party_of player) i) && not (p.leader == player)
    then (false, w)
    else if not ev.on_leave
    then (false, w)
    else (
      true,
      drop_player ev v i player w
          (if p.leader == player then succeed_leader v i p w p.members else (false, p)),
    )

unfoldable pub join_party : Events → View → ℕ → ℕ → Party → World → Bool × World
join_party ev v i player p w =
    if not ev.on_join then (false, w) else if not (elem player p.invitees) then (false, w) else (
      true,
      put i
          (update_shared_experience v
            (record p { invitees = erase player p.invitees; members = p.members ++ player ∷ [] }))
          (record w {
            party_of = update w.party_of player (some i);
            invitations = update w.invitations player (remove i (w.invitations player));
          }),
    )

unfoldable pub remove_invite : Events → ℕ → ℕ → Bool → Party → World → Bool × World
unfolding disband
remove_invite ev i player remove_from_player p w =
    if not (elem player p.invitees)
    then (false, w)
    else (let q = record p { invitees = erase player p.invitees } in
        let w' =
          if remove_from_player
          then record w {
            invitations = update w.invitations player (remove i (w.invitations player));
          }
          else w in
        (true, if empty q then disband ev i q w' else put i q w'))

unfoldable pub invite_player : ℕ → ℕ → Party → World → Bool × World
unfolding add_party_invitation
invite_player i player p w = if elem player p.invitees then (false, w) else (
  true,
  put i (record p { invitees = p.invitees ++ player ∷ [] })
      (record w {
        invitations = update w.invitations player (add_party_invitation i (w.invitations player));
      }),
)

-- A party as it is constructed.
abbrev pub initial : ℕ → Party
initial leader = record {
  leader = leader;
  members = [];
  invitees = [];
  ticks = λ player. none;
  shared_exp_active = false;
  shared_exp_enabled = false;
}

-- The constructor, at a new address.
unfoldable pub new_party : ℕ → ℕ → World → World
new_party i leader w =
    put i (initial leader) (record w { party_of = update w.party_of leader (some i) })

-- `clearPartyInvitations`: the invited player drops the list as a whole when the loop has ended.
abbrev pub decline : Events → ℕ → ℕ → World → Option Party → World
decline ev i player w none = w
decline ev i player w (some p) = (remove_invite ev i player false p w).1

unfoldable pub clear_party_invitations : Events → ℕ → List ℕ → World → World
unfolding remove_invite
clear_party_invitations ev player [] w = record w { invitations = update w.invitations player [] }
clear_party_invitations ev player (i ∷ is) w =
    clear_party_invitations ev player is (decline ev i player w (w.parties i))
