-- ===== src/House/Tests.antt =====
-- A house with a guest and a stranger in it.
use asca_ci.Base.{ℕ, ◌≡◌, refl, true, false, List, [], ◌∷◌, none, some, if◌then◌else◌, take, arith}
use asca_ci.House.Access.Meaning.{any, admits, is_in_list-parse_list}
use asca_ci.House.Access.Names.{IsName, write_names, names, is_in_list-write_names}
use asca_ci.House.Access.{
  Directory, Visitor, unlisted, is_in_list, parse_list, get_lines, tidy, trim_left, trim_right,
}
use asca_ci.House.Evicted.{IsEmptied, set_owner-IsEmptied}
use asca_ci.House.{Env, House, never, set_owner}
use asca_ci.Wildcard.Insert.{same_name}

abbrev bob : List ℕ
bob = 98 ∷ 111 ∷ 98 ∷ []

abbrev ann : List ℕ
ann = 97 ∷ 110 ∷ 110 ∷ []

-- Bob is online as 7, Ann is in the database as 8; the guild 3 has one rank, 5.
abbrev directory : Directory
directory = record {
  player_by_name = λ n. if same_name n bob then some 7 else none;
  guid_by_name = λ n. if same_name n ann then 8 else 0;
  guild_id_by_name = λ n. 3;
  guilds = λ i. none;
  load_guild = λ i. some (record { id = 5; name = bob; level = 1 } ∷ []);
}

abbrev visitor : ℕ → Visitor
visitor guid = record { guid = guid; account = guid; guild_rank = some 5; can_edit_houses = false }

is_in_list-parse_list_example :
    is_in_list (parse_list directory (35 ∷ 10 ∷ 64 ∷ 103 ∷ []) unlisted) (visitor 9)
    ≡ any (admits directory (visitor 9)) (take 99 (get_lines (35 ∷ 10 ∷ 64 ∷ 103 ∷ [])))
is_in_list-parse_list_example =
    is_in_list-parse_list directory (35 ∷ 10 ∷ 64 ∷ 103 ∷ []) unlisted (visitor 9)

bob-IsName : IsName bob
unfolding tidy trim_left trim_right
bob-IsName = record {
  is_tidy = refl;
  is_lower = refl;
  is_read = refl;
  plain = (refl, (refl, (refl, tt)));
}

ann-IsName : IsName ann
unfolding tidy trim_left trim_right
ann-IsName = record {
  is_tidy = refl;
  is_lower = refl;
  is_read = refl;
  plain = (refl, (refl, (refl, tt)));
}

is_in_list-write_names_example :
    is_in_list (parse_list directory (write_names (bob ∷ ann ∷ [])) unlisted) (visitor 8)
    ≡ any (names directory (visitor 8)) (bob ∷ ann ∷ [])
is_in_list-write_names_example =
    is_in_list-write_names directory (bob ∷ ann ∷ []) unlisted (visitor 8) (omega arith)
      (bob-IsName, (ann-IsName, tt))

abbrev env : Env
env = record {
  directory = directory;
  owned_by_account = false;
  rent_period = never;
  time = 1000;
  name_by_guid = λ g. ann;
  account_by_name = λ n. 8;
  teleports = λ g. true;
}

abbrev house : House
house = record {
  owner = 1;
  owner_name = bob;
  owner_account_id = 1;
  is_loaded = true;
  paid_until = 0;
  rent_warnings = 2;
  guest_list = unlisted;
  sub_owner_list = unlisted;
  doors = record { door_id = 4; access_list = none } ∷ [];
  visitors = visitor 7 ∷ visitor 9 ∷ [];
  sleepers = 7 ∷ 0 ∷ [];
}

set_owner-IsEmptied_example : IsEmptied env house (set_owner env 8 house) (visitor 7)
set_owner-IsEmptied_example = set_owner-IsEmptied env 8 house (visitor 7) (omega arith) refl
