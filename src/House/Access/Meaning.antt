-- ===== src/House/Access/Meaning.antt =====
-- What a text of several lines means: each line on its own.
use asca_ci.Base.Counts.{elem}
use asca_ci.Base.{
  ℕ, ◌+◌, ◌≡◌, refl, ap, ◌∙◌, Bool, true, false, List, [], ◌∷◌, Option, none, some, ◌==◌, ltb, ◌||◌,
  Bool-cases, inl, inr, arith, take, drop, map, zero, suc,
}
use asca_ci.House.Access.{
  Directory, Visitor, AccessList, GuildRank, unlisted, is_in_list, has_rank, insert_id,
  insert_ranks, add_guid, add_player, add_ranks, add_guild, add_rank, add_guild_rank, rank_in,
  add_entry, parse_line, parse_lines, parse_list, get_lines, tidy, find_char, to_lower, is_skipped,
  before, after, get_guild_by_name,
}
use asca_ci.Wildcard.Insert.{same_name}

-- Whether one of the lines has the property.
abbrev pub any : (List ℕ → Bool) → List (List ℕ) → Bool
any p [] = false
any p (l ∷ ls) = p l || any p ls

elem-insert_id : (p x : ℕ) (xs : List ℕ) → elem p (insert_id x xs) ≡ (elem p xs || x == p)
unfolding insert_id elem
elem-insert_id p x xs = elim (Bool-cases (elem x xs)) [
  | inr new ↦ rw new (ground arith)
  | inl there ↦ elim (Bool-cases (x == p)) [
    | inl same ↦
        let e : x ≡ p = ground (arith, same) in
        rw there (ground (arith, same, there, ap (λ k. elem k xs) e))
    | inr other ↦ rw there (ground (arith, other))
  ]
]

pub elem-insert_nil : (p x : ℕ) → elem p (insert_id x []) ≡ (x == p)
unfolding insert_id elem
elem-insert_nil p x = ground arith

elem-insert_ranks :
    (p : ℕ) (rs : List GuildRank) (xs : List ℕ)
    → elem p (insert_ranks rs xs) ≡ (elem p xs || elem p (insert_ranks rs []))
unfolding insert_ranks
elem-insert_ranks p [] xs = unfold elem in ground arith
elem-insert_ranks p (r ∷ rs) xs =
    elem-insert_ranks p rs (insert_id r.id xs)
    ∙ ground (
      arith,
      elem-insert_ranks p rs (insert_id r.id []),
      elem-insert_id p r.id xs,
      elem-insert_nil p r.id,
    )

-- The new list lets a player in if the old one does, or the same change to an empty one.
abbrev Adds : (AccessList → AccessList) → Visitor → AccessList → Type 0
Adds f p a = is_in_list (f a) p ≡ (is_in_list a p || is_in_list (f unlisted) p)

elem-nil : (p : ℕ) → elem p [] ≡ false
unfolding elem
elem-nil p = refl

pub has_rank-nil : (o : Option ℕ) → has_rank o [] ≡ false
unfolding elem
has_rank-nil none = refl
has_rank-nil (some r) = refl

pub unlisted_lem : (p : Visitor) → is_in_list unlisted p ≡ false
unfolding is_in_list elem
unlisted_lem p = has_rank-nil p.guild_rank

skip-Adds : (p : Visitor) (a : AccessList) → Adds (λ b. b) p a
skip-Adds p a = ground (arith, unlisted_lem p)

insert_guid-Adds :
    (p : Visitor) (g : ℕ) (a : AccessList)
    → Adds (λ b. record b { player_list = insert_id g b.player_list }) p a
unfolding is_in_list
insert_guid-Adds p g a = ground (
  arith,
  elem-insert_id p.guid g a.player_list,
  elem-insert_nil p.guid g,
  has_rank-nil p.guild_rank,
)

add_guid-Adds :
    (p : Visitor) (o : Option ℕ) (offline : ℕ) (a : AccessList) → Adds (add_guid o offline) p a
add_guid-Adds p (some g) offline a = insert_guid-Adds p g a
add_guid-Adds p none offline a = elim (Bool-cases (offline == 0)) [
  | inl unknown ↦ rw unknown (skip-Adds p a)
  | inr known ↦ rw known (insert_guid-Adds p offline a)
]

has_rank-insert_ranks :
    (o : Option ℕ) (rs : List GuildRank) (xs : List ℕ)
    → has_rank o (insert_ranks rs xs) ≡ (has_rank o xs || has_rank o (insert_ranks rs []))
has_rank-insert_ranks none rs xs = refl
has_rank-insert_ranks (some r) rs xs = elem-insert_ranks r rs xs

has_rank-insert_id :
    (o : Option ℕ) (x : ℕ) (xs : List ℕ)
    → has_rank o (insert_id x xs) ≡ (has_rank o xs || has_rank o (insert_id x []))
has_rank-insert_id none x xs = refl
has_rank-insert_id (some r) x xs = ground (arith, elem-insert_id r x xs, elem-insert_nil r x)

add_ranks-Adds :
    (p : Visitor) (o : Option (List GuildRank)) (a : AccessList) → Adds (add_ranks o) p a
unfolding is_in_list
add_ranks-Adds p none a = skip-Adds p a
add_ranks-Adds p (some rs) a =
    ground (arith, has_rank-insert_ranks p.guild_rank rs a.guild_rank_list, elem-nil p.guid)

add_rank-Adds : (p : Visitor) (o : Option GuildRank) (a : AccessList) → Adds (add_rank o) p a
unfolding is_in_list
add_rank-Adds p none a = skip-Adds p a
add_rank-Adds p (some r) a =
    ground (arith, has_rank-insert_id p.guild_rank r.id a.guild_rank_list, elem-nil p.guid)

add_entry-Adds :
    (d : Directory) (line : List ℕ) (at : Option ℕ) (p : Visitor) (a : AccessList)
    → Adds (add_entry d line at) p a
unfolding add_entry add_player add_guild add_guild_rank
add_entry-Adds d line (some k) p a = elim (Bool-cases (k == 0)) [
  | inl first ↦ rw first (add_ranks-Adds p (get_guild_by_name d (drop 1 line)) a)
  | inr later ↦
      rw later (add_rank-Adds p (rank_in (after k line) (get_guild_by_name d (before k line))) a)
]
add_entry-Adds d line none p a = elim (Bool-cases (same_name line (42 ∷ []))) [
  | inl star ↦ rw star (unfold is_in_list in ground arith)
  | inr other ↦ elim (Bool-cases (elem 33 line || elem 42 line || elem 63 line)) [
    | inl pattern ↦ rw (other, pattern) (skip-Adds p a)
    | inr plain ↦
        rw (other, plain) (add_guid-Adds p (d.player_by_name line) (d.guid_by_name line) a)
  ]
]

parse_line-Adds :
    (d : Directory) (line : List ℕ) (p : Visitor) (a : AccessList) → Adds (parse_line d line) p a
unfolding parse_line
parse_line-Adds d line p a = elim (Bool-cases (is_skipped (tidy line))) [
  | inl skipped ↦ rw skipped (skip-Adds p a)
  | inr read ↦
      let entry = map to_lower (tidy line) in
      rw read (add_entry-Adds d entry (find_char 64 entry) p a)
]

-- Whether a line on its own lets a player in.
abbrev pub admits : Directory → Visitor → List ℕ → Bool
admits d p line = is_in_list (parse_line d line unlisted) p

parse_lines_lem :
    (d : Directory) (p : Visitor) (n k : ℕ) (ls : List (List ℕ)) (a : AccessList)
    → n + k ≡ 100
    → is_in_list (parse_lines d n ls a) p ≡ (is_in_list a p || any (admits d p) (take k ls))
unfolding parse_lines
parse_lines_lem d p n zero [] a e = ground arith
parse_lines_lem d p n (suc k) [] a e = ground arith
parse_lines_lem d p n zero (l ∷ ls) a e =
    let late : ltb 100 (n + 1) ≡ true = ground (arith, e) in rw late (ground arith)
parse_lines_lem d p n (suc k) (l ∷ ls) a e =
    let soon : ltb 100 (n + 1) ≡ false = ground (arith, e) in
    rw soon (
      parse_lines_lem d p (n + 1) k ls (parse_line d l a) (omega (arith, e))
      ∙ ground (arith, parse_line-Adds d l p a))

is_in_list-list :
    (text : List ℕ) (p : Visitor) → is_in_list (record unlisted { list = text }) p ≡ false
unfolding is_in_list
is_in_list-list text p = unlisted_lem p

-- A text lets a player in where one of its first 99 lines does so on its own, whatever the list
-- had before.
pub is_in_list-parse_list :
    (d : Directory) (text : List ℕ) (a : AccessList) (p : Visitor)
    → is_in_list (parse_list d text a) p ≡ any (admits d p) (take 99 (get_lines text))
unfolding parse_list
is_in_list-parse_list d text a p =
    parse_lines_lem d p 1 99 (get_lines text) (record unlisted { list = text }) refl
    ∙ ground (arith, is_in_list-list text p)
