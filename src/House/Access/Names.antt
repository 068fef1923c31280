-- ===== src/House/Access/Names.antt =====
-- A list of names, one in a line.
use asca_ci.Base.Counts.{elem}
use asca_ci.Base.{
  ℕ, ◌≤◌, ◌≡◌, refl, ap, ◌∙◌, Bool, true, false, not, List, [], ◌∷◌, Option, none, some, ◌==◌, ◌||◌,
  ◌&&◌, Bool-cases, inl, inr, arith, take, map, zero, suc, All, length,
}
use asca_ci.House.Access.Meaning.{
  any, admits, is_in_list-parse_list, elem-insert_nil, has_rank-nil, unlisted_lem,
}
use asca_ci.House.Access.{
  Directory, Visitor, AccessList, unlisted, is_in_list, add_guid, add_player, add_entry, parse_line,
  parse_list, get_lines, push_char, tidy, find_char, to_lower, is_skipped, insert_id, one_later,
}
use asca_ci.Wildcard.Insert.{same_name}

-- The text of some names.
abbrev pub write_name : List ℕ → List ℕ → List ℕ
write_name [] text = 10 ∷ text
write_name (c ∷ cs) text = c ∷ write_name cs text

abbrev pub write_names : List (List ℕ) → List ℕ
write_names [] = []
write_names (n ∷ ns) = write_name n (write_names ns)

-- No line end, `@`, `*`, `!` or `?`.
abbrev pub is_plain : ℕ → Bool
is_plain c = not (c == 10 || c == 64 || c == 42 || c == 33 || c == 63)

-- A name that trimming and `tolower` leave as it is, that is no comment, and of at most 100
-- characters without a meaning of their own.
pub record IsName (name : List ℕ) : Type 0 where
  pub is_tidy : tidy name ≡ name
  pub is_lower : map to_lower name ≡ name
  pub is_read : is_skipped name ≡ false
  pub plain : All (λ c. is_plain c ≡ true) name

-- Whether a name is that of a player, who is online or in the database.
abbrev pub is_guid : ℕ → Option ℕ → ℕ → Bool
is_guid guid (some g) offline = g == guid
is_guid guid none offline = not (offline == 0) && offline == guid

abbrev pub names : Directory → Visitor → List ℕ → Bool
names d p name = is_guid p.guid (d.player_by_name name) (d.guid_by_name name)

get_lines-write_name :
    (name text : List ℕ)
    → All (λ c. is_plain c ≡ true) name
    → get_lines (write_name name text) ≡ name ∷ get_lines text
unfolding get_lines
get_lines-write_name [] text h = refl
get_lines-write_name (c ∷ cs) text (h, hs) =
    let inner : (c == 10) ≡ false = ground (arith, h) in
    rw inner (ap (push_char c) (get_lines-write_name cs text hs))

get_lines-write_names : (ns : List (List ℕ)) → All IsName ns → get_lines (write_names ns) ≡ ns
unfolding get_lines
get_lines-write_names [] h = refl
get_lines-write_names (n ∷ ns) (h, hs) =
    get_lines-write_name n (write_names ns) h.plain
    ∙ ap (λ ls. n ∷ ls) (get_lines-write_names ns hs)

take-all : (k : ℕ) (ns : List (List ℕ)) → length ns ≤ k → take k ns ≡ ns
take-all zero [] h = refl
take-all (suc k) [] h = refl
take-all zero (n ∷ ns) h = absurd (omega (arith, h))
take-all (suc k) (n ∷ ns) h = ap (λ ls. n ∷ ls) (take-all k ns (omega (arith, h)))

module _ (c : ℕ) (special : (d : ℕ) → is_plain d ≡ true → (d == c) ≡ false) where
  find_char-plain : (s : List ℕ) → All (λ d. is_plain d ≡ true) s → find_char c s ≡ none
  unfolding find_char
  find_char-plain [] h = refl
  find_char-plain (d ∷ ds) (h, hs) = rw (special d h) (ap one_later (find_char-plain ds hs))

  elem-plain : (s : List ℕ) → All (λ d. is_plain d ≡ true) s → elem c s ≡ false
  unfolding elem
  elem-plain [] h = refl
  elem-plain (d ∷ ds) (h, hs) = ground (arith, special d h, elem-plain ds hs)

no_star : (s : List ℕ) → All (λ d. is_plain d ≡ true) s → same_name s (42 ∷ []) ≡ false
no_star [] h = refl
no_star (c ∷ cs) h = ground (arith, h.0)

insert_guid-alone :
    (p : Visitor) (g : ℕ)
    → is_in_list (record unlisted { player_list = insert_id g [] }) p ≡ (g == p.guid)
unfolding is_in_list
insert_guid-alone p g = ground (arith, elem-insert_nil p.guid g, has_rank-nil p.guild_rank)

add_guid-alone :
    (p : Visitor) (o : Option ℕ) (offline : ℕ)
    → is_in_list (add_guid o offline unlisted) p ≡ is_guid p.guid o offline
add_guid-alone p (some g) offline = insert_guid-alone p g
add_guid-alone p none offline = elim (Bool-cases (offline == 0)) [
  | inl unknown ↦ rw unknown (unlisted_lem p)
  | inr known ↦ rw known (insert_guid-alone p offline)
]

admits-names :
    (d : Directory) (p : Visitor) (name : List ℕ) → IsName name → admits d p name ≡ names d p name
unfolding parse_line add_entry add_player
admits-names d p name h =
    rw
      (
        h.is_tidy,
        h.is_read,
        h.is_lower,
        find_char-plain 64 (λ c e. ground (arith, e)) name h.plain,
        no_star name h.plain,
        elem-plain 33 (λ c e. ground (arith, e)) name h.plain,
        elem-plain 42 (λ c e. ground (arith, e)) name h.plain,
        elem-plain 63 (λ c e. ground (arith, e)) name h.plain,
      )
      (add_guid-alone p (d.player_by_name name) (d.guid_by_name name))

any-admits :
    (d : Directory) (p : Visitor) (ns : List (List ℕ))
    → All IsName ns
    → any (admits d p) ns ≡ any (names d p) ns
any-admits d p [] h = refl
any-admits d p (n ∷ ns) (h, hs) = ground (arith, admits-names d p n h, any-admits d p ns hs)

-- A list of at most 99 names, one in a line, lets in those who have one of the names, and nobody
-- else, whatever the list had before. The names are without white space around them, in lower
-- case, of at most 100 characters, and have none of the characters that mean something else.
pub is_in_list-write_names :
    (d : Directory) (ns : List (List ℕ)) (a : AccessList) (p : Visitor)
    → length ns ≤ 99
    → All IsName ns
    → is_in_list (parse_list d (write_names ns) a) p ≡ any (names d p) ns
is_in_list-write_names d ns a p few h =
    is_in_list-parse_list d (write_names ns) a p
    ∙ ap (λ ls. any (admits d p) (take 99 ls)) (get_lines-write_names ns h)
    ∙ ap (any (admits d p)) (take-all 99 ns few)
    ∙ any-admits d p ns h
