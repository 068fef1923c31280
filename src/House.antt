-- ===== src/House.antt =====
-- Houses: who may enter and who is put out, of src/house.cpp and src/house.h. Items, signs and the
-- database's own record of the owner are left out.
pub mod Access
pub mod Kicked
pub mod Evicted
pub mod Tests
use asca_ci.House.Access.{AccessList, Directory, Visitor, is_in_list, parse_list, unlisted}
use asca_ci.Base.{
  ℕ, ◌+◌, ◌*◌, Bool, true, false, not, List, [], ◌∷◌, Option, none, some, ◌==◌, leb, ltb,
  if◌then◌else◌, ◌&&◌, ◌||◌, map,
}

pub data AccessHouseLevel : Type 0 where
  not_invited guest sub_owner owned : AccessHouseLevel

-- The value of the enumeration.
abbrev pub rank_of : AccessHouseLevel → ℕ
rank_of not_invited = 0
rank_of guest = 1
rank_of sub_owner = 2
rank_of owned = 3

pub data RentPeriod : Type 0 where
  yearly monthly weekly daily never : RentPeriod

-- The configuration and the database. `teleports` is whether the game can move a player away.
pub record Env : Type 0 where
  pub directory : Directory
  pub owned_by_account : Bool
  pub rent_period : RentPeriod
  pub time : ℕ
  pub name_by_guid : ℕ → List ℕ
  pub account_by_name : List ℕ → ℕ
  pub teleports : ℕ → Bool

pub record Door : Type 0 where
  pub door_id : ℕ
  pub access_list : Option AccessList

-- `visitors` are the players on the house's tiles, `sleepers` those of its beds, 0 for none.
pub record House : Type 0 where
  pub owner : ℕ
  pub owner_name : List ℕ
  pub owner_account_id : ℕ
  pub is_loaded : Bool
  pub paid_until : ℕ
  pub rent_warnings : ℕ
  pub guest_list : AccessList
  pub sub_owner_list : AccessList
  pub doors : List Door
  pub visitors : List Visitor
  pub sleepers : List ℕ

-- `getHouseAccessLevel` of a player that is not null.
unfoldable pub access_level : Env → House → Visitor → AccessHouseLevel
unfolding is_in_list
access_level env h p =
    if env.owned_by_account && h.owner_account_id == p.account
    then owned
    else if p.can_edit_houses
    then owned
    else if p.guid == h.owner
    then owned
    else if is_in_list h.sub_owner_list p
    then sub_owner
    else if is_in_list h.guest_list p
    then guest
    else not_invited

-- A null player has the level of the owner.
abbrev pub level_of : Env → House → Option Visitor → AccessHouseLevel
level_of env h none = owned
level_of env h (some p) = access_level env h p

abbrev pub is_not_invited : AccessHouseLevel → Bool
is_not_invited not_invited = true
is_not_invited _ = false

unfoldable pub is_invited : Env → House → Visitor → Bool
unfolding access_level
is_invited env h p = not (is_not_invited (access_level env h p))

-- `kickPlayer` of a player on the house's tiles: whether it goes on to the teleport.
unfoldable pub may_kick : Env → House → Option Visitor → Visitor → Bool
unfolding access_level
may_kick env h player target = not (
    ltb (rank_of (level_of env h player)) (rank_of (access_level env h target))
    || target.can_edit_houses)

-- The player is put out, unless the teleport fails.
unfoldable pub kick_player : Env → House → Option Visitor → Visitor → Bool
unfolding may_kick
kick_player env h player target = may_kick env h player target && env.teleports target.guid

-- The loop that puts uninvited players out, and the one of `setOwner`, which puts out everyone.
unfoldable pub kick_uninvited : Env → House → List Visitor → List Visitor
unfolding kick_player is_invited
kick_uninvited env h [] = []
kick_uninvited env h (p ∷ ps) =
    let rest = kick_uninvited env h ps in
    if not (is_invited env h p) && kick_player env h none p then rest else p ∷ rest

unfoldable pub kick_all : Env → House → List Visitor → List Visitor
unfolding kick_player
kick_all env h [] = []
kick_all env h (p ∷ ps) =
    let rest = kick_all env h ps in if kick_player env h none p then rest else p ∷ rest

abbrev pub list_in : Option AccessList → AccessList
list_in none = unlisted
list_in (some a) = a

unfoldable pub set_door_access_list : Env → List ℕ → Door → Door
set_door_access_list env text d = record d {
  access_list = some (parse_list env.directory text (list_in d.access_list));
}

-- `getDoorByNumber`, and what is done to the door that it gives.
unfoldable pub set_door : Env → ℕ → List ℕ → List Door → List Door
unfolding set_door_access_list
set_door env id text [] = []
set_door env id text (d ∷ ds) =
    let rest = set_door env id text ds in
    if d.door_id == id then set_door_access_list env text d ∷ ds else d ∷ rest

abbrev pub guest_list_id : ℕ
guest_list_id = 0x100

abbrev pub sub_owner_list_id : ℕ
sub_owner_list_id = 0x101

abbrev pub put_out : Env → House → House
put_out env h = record h { visitors = kick_uninvited env h h.visitors }

unfoldable pub set_access_list : Env → ℕ → List ℕ → House → House
unfolding kick_uninvited set_door
set_access_list env list_id text h =
    if list_id == guest_list_id
    then put_out env (record h { guest_list = parse_list env.directory text h.guest_list })
    else if list_id == sub_owner_list_id
    then put_out env (record h { sub_owner_list = parse_list env.directory text h.sub_owner_list })
    else record h { doors = set_door env list_id text h.doors }

abbrev pub may_edit : ℕ → AccessHouseLevel → Bool
may_edit list_id owned = true
may_edit list_id sub_owner = list_id == guest_list_id
may_edit list_id _ = false

unfoldable pub can_edit_access_list : Env → House → ℕ → Option Visitor → Bool
unfolding access_level
can_edit_access_list env h list_id player = may_edit list_id (level_of env h player)

abbrev pub period_seconds : RentPeriod → ℕ
period_seconds yearly = 24 * 60 * 60 * 365
period_seconds monthly = 24 * 60 * 60 * 30
period_seconds weekly = 24 * 60 * 60 * 7
period_seconds daily = 24 * 60 * 60
period_seconds never = 0

-- Without a period the rent is paid until 0.
abbrev pub first_payment : ℕ → RentPeriod → ℕ
first_payment now never = 0
first_payment now p = now + period_seconds p

-- Everyone is put out of the old owner's house, the beds are left and the lists are cleared.
unfoldable pub evict : Env → House → House
unfolding set_access_list kick_all set_door_access_list
evict env h =
    let bare = record h {
      visitors = kick_all env h h.visitors;
      sleepers = map (λ (s : ℕ). 0) h.sleepers;
      owner = 0;
      owner_account_id = 0;
    } in
    let h' = set_access_list env guest_list_id [] (set_access_list env sub_owner_list_id [] bare) in
    record h' { doors = map (set_door_access_list env []) h'.doors }

abbrev pub name_owner : Env → ℕ → List ℕ → House → House
name_owner env guid [] h = h
name_owner env guid (c ∷ cs) h = record h {
  owner = guid;
  owner_name = c ∷ cs;
  owner_account_id = env.account_by_name (c ∷ cs);
}

unfoldable pub set_owner : Env → ℕ → House → House
unfolding evict
set_owner env guid h =
    if h.is_loaded && h.owner == guid
    then h
    else (let old = record h { is_loaded = true } in
        let h' =
          if old.owner == 0
          then record old { paid_until = first_payment env.time env.rent_period }
          else evict env old in
        let h'' = record h' { rent_warnings = 0 } in
        if guid == 0 then h'' else name_owner env guid (env.name_by_guid guid) h'')
