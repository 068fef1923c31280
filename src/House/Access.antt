-- ===== src/House/Access.antt =====
-- Access lists: the text that an owner writes, of src/house.cpp, and the ranks that it names, of
-- src/guild.cpp.
pub mod Meaning
pub mod Names
use asca_ci.Base.{
  ℕ, ◌+◌, Bool, true, false, not, List, [], ◌∷◌, ◌++◌, Option, none, some, ◌==◌, leb, ltb,
  if◌then◌else◌, ◌&&◌, ◌||◌, map, length, take, drop, ◌-◌,
}
use asca_ci.Base.Counts.{elem}
use asca_ci.Wildcard.Insert.{same_name}

pub record GuildRank : Type 0 where
  pub id : ℕ
  pub name : List ℕ
  pub level : ℕ

unfoldable pub get_rank_by_name : List ℕ → List GuildRank → Option GuildRank
get_rank_by_name name [] = none
get_rank_by_name name (r ∷ rs) =
    let rest = get_rank_by_name name rs in if same_name r.name name then some r else rest

-- Who is online, and the database. A guild is the list of its ranks.
pub record Directory : Type 0 where
  pub player_by_name : List ℕ → Option ℕ
  pub guid_by_name : List ℕ → ℕ
  pub guild_id_by_name : List ℕ → ℕ
  pub guilds : ℕ → Option (List GuildRank)
  pub load_guild : ℕ → Option (List GuildRank)

-- What the lists ask of a player.
pub record Visitor : Type 0 where
  pub guid : ℕ
  pub account : ℕ
  pub guild_rank : Option ℕ
  pub can_edit_houses : Bool

pub record AccessList : Type 0 where
  pub list : List ℕ
  pub player_list : List ℕ
  pub guild_rank_list : List ℕ
  pub allow_everyone : Bool

abbrev pub unlisted : AccessList
unlisted = record { list = []; player_list = []; guild_rank_list = []; allow_everyone = false }

-- `trim_left`, `trim_right` and `trimString`.
unfoldable pub trim_left : ℕ → List ℕ → List ℕ
trim_left t [] = []
trim_left t (c ∷ cs) = let rest = trim_left t cs in if c == t then rest else c ∷ cs

abbrev pub push_trimmed : ℕ → ℕ → List ℕ → List ℕ
push_trimmed t c [] = if c == t then [] else c ∷ []
push_trimmed t c (d ∷ ds) = c ∷ d ∷ ds

unfoldable pub trim_right : ℕ → List ℕ → List ℕ
trim_right t [] = []
trim_right t (c ∷ cs) = push_trimmed t c (trim_right t cs)

abbrev pub trim_string : List ℕ → List ℕ
trim_string s = trim_left 32 (trim_right 32 s)

-- `tolower` of a character.
abbrev pub to_lower : ℕ → ℕ
to_lower c = if leb 65 c && leb c 90 then c + 32 else c

unfoldable pub tidy : List ℕ → List ℕ
unfolding trim_left trim_right
tidy line = trim_string (trim_right 9 (trim_left 9 (trim_string line)))

-- `find` of a character.
abbrev pub one_later : Option ℕ → Option ℕ
one_later none = none
one_later (some n) = some (n + 1)

unfoldable pub find_char : ℕ → List ℕ → Option ℕ
find_char c [] = none
find_char c (d ∷ ds) = let rest = find_char c ds in if d == c then some 0 else one_later rest

-- `substr(0, at_pos - 1)`, for a position that is not 0, and `substr(at_pos + 1)`.
abbrev pub before : ℕ → List ℕ → List ℕ
before at_pos line = take (at_pos - 1) line

abbrev pub after : ℕ → List ℕ → List ℕ
after at_pos line = drop (at_pos + 1) line

unfoldable pub insert_id : ℕ → List ℕ → List ℕ
insert_id x xs = if elem x xs then xs else x ∷ xs

abbrev pub add_guid : Option ℕ → ℕ → AccessList → AccessList
add_guid (some guid) offline a = record a { player_list = insert_id guid a.player_list }
add_guid none offline a =
    if offline == 0 then a else record a { player_list = insert_id offline a.player_list }

unfoldable pub add_player : Directory → List ℕ → AccessList → AccessList
unfolding insert_id
add_player d name a = add_guid (d.player_by_name name) (d.guid_by_name name) a

abbrev pub online_or_loaded : Directory → ℕ → Option (List GuildRank) → Option (List GuildRank)
online_or_loaded d id (some g) = some g
online_or_loaded d id none = d.load_guild id

unfoldable pub get_guild_by_name : Directory → List ℕ → Option (List GuildRank)
get_guild_by_name d name =
    let id = d.guild_id_by_name name in
    if id == 0 then none else online_or_loaded d id (d.guilds id)

unfoldable pub insert_ranks : List GuildRank → List ℕ → List ℕ
unfolding insert_id
insert_ranks [] ids = ids
insert_ranks (r ∷ rs) ids = insert_ranks rs (insert_id r.id ids)

abbrev pub add_ranks : Option (List GuildRank) → AccessList → AccessList
add_ranks none a = a
add_ranks (some ranks) a = record a { guild_rank_list = insert_ranks ranks a.guild_rank_list }

unfoldable pub add_guild : Directory → List ℕ → AccessList → AccessList
unfolding get_guild_by_name insert_ranks
add_guild d name a = add_ranks (get_guild_by_name d name) a

abbrev pub add_rank : Option GuildRank → AccessList → AccessList
add_rank none a = a
add_rank (some r) a = record a { guild_rank_list = insert_id r.id a.guild_rank_list }

abbrev pub rank_in : List ℕ → Option (List GuildRank) → Option GuildRank
rank_in rank_name none = none
rank_in rank_name (some ranks) = get_rank_by_name rank_name ranks

unfoldable pub add_guild_rank : Directory → List ℕ → List ℕ → AccessList → AccessList
unfolding get_guild_by_name get_rank_by_name insert_id
add_guild_rank d name rank_name a = add_rank (rank_in rank_name (get_guild_by_name d name)) a

-- The part of the loop for a line that is not skipped, by where its `@` is.
unfoldable pub add_entry : Directory → List ℕ → Option ℕ → AccessList → AccessList
unfolding add_player add_guild add_guild_rank
add_entry d line (some at_pos) a =
    if at_pos == 0
    then add_guild d (drop 1 line) a
    else add_guild_rank d (before at_pos line) (after at_pos line) a
add_entry d line none a =
    if same_name line (42 ∷ [])
    then record a { allow_everyone = true }
    else if elem 33 line || elem 42 line || elem 63 line
    then a
    else add_player d line a

abbrev pub is_skipped : List ℕ → Bool
is_skipped [] = true
is_skipped (c ∷ cs) = c == 35 || ltb 100 (length (c ∷ cs))

unfoldable pub parse_line : Directory → List ℕ → AccessList → AccessList
unfolding tidy add_entry find_char
parse_line d line a =
    if is_skipped (tidy line)
    then a
    else (let entry = map to_lower (tidy line) in add_entry d entry (find_char 64 entry) a)

-- The lines that `getline` gives.
abbrev pub push_char : ℕ → List (List ℕ) → List (List ℕ)
push_char c [] = (c ∷ []) ∷ []
push_char c (l ∷ ls) = (c ∷ l) ∷ ls

unfoldable pub get_lines : List ℕ → List (List ℕ)
get_lines [] = []
get_lines (c ∷ cs) = let rest = get_lines cs in if c == 10 then [] ∷ rest else push_char c rest

unfoldable pub parse_lines : Directory → ℕ → List (List ℕ) → AccessList → AccessList
unfolding parse_line
parse_lines d line_no [] a = a
parse_lines d line_no (l ∷ ls) a =
    if ltb 100 (line_no + 1) then a else parse_lines d (line_no + 1) ls (parse_line d l a)

-- `parseList`: whatever the list had is forgotten.
unfoldable pub parse_list : Directory → List ℕ → AccessList → AccessList
unfolding parse_lines get_lines
parse_list d text a = parse_lines d 1 (get_lines text) (record unlisted { list = text })

abbrev pub has_rank : Option ℕ → List ℕ → Bool
has_rank none ids = false
has_rank (some id) ids = elem id ids

unfoldable pub is_in_list : AccessList → Visitor → Bool
is_in_list a p =
    a.allow_everyone || elem p.guid a.player_list || has_rank p.guild_rank a.guild_rank_list
