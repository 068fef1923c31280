-- ===== src/House/Evicted.antt =====
-- Who is left in a house after its lists change or it gets another owner.
use asca_ci.Base.{
  ℕ, ◌≡◌, ◌⊎◌, refl, sym, ap, ◌∙◌, subst, ◌<◌, true, false, not, List, [], ◌∷◌, ◌==◌, ◌||◌, ◌&&◌,
  Bool-cases, inl, inr, arith, map, All, if◌then◌else◌,
}
use asca_ci.House.Access.Meaning.{is_in_list-parse_list}
use asca_ci.House.Access.{Visitor, AccessList, is_in_list, parse_list, get_lines}
use asca_ci.House.{
  Env, House, Door, AccessHouseLevel, not_invited, owned, access_level, is_invited, kick_uninvited,
  kick_all, set_access_list, put_out, guest_list_id, sub_owner_list_id, set_door_access_list, evict,
  name_owner, set_owner, list_in,
}
use asca_ci.House.Kicked.{
  staying, can_edit-is_invited, kick_uninvited_lem, visitors-put_out, kick_all_lem, staying-sub,
}

-- Where the guests' or the subowners' list gets another text, those in the house are put out whom
-- the new lists do not invite, unless the teleport fails; nobody else is.
pub visitors-set_access_list :
    (env : Env) (list_id : ℕ) (text : List ℕ) (h : House)
    → (list_id ≡ guest_list_id) ⊎ (list_id ≡ sub_owner_list_id)
    → (set_access_list env list_id text h).visitors
      ≡ staying
          (λ p. is_invited env (set_access_list env list_id text h) p || not (env.teleports p.guid))
          h.visitors
unfolding set_access_list
visitors-set_access_list env list_id text h (inl guests) =
    rw guests
      (visitors-put_out env (record h { guest_list = parse_list env.directory text h.guest_list }))
visitors-set_access_list env list_id text h (inr owners) = rw owners (
    visitors-put_out env
      (record h { sub_owner_list = parse_list env.directory text h.sub_owner_list }))

parse_list-nil :
    (env : Env) (a : AccessList) (p : Visitor)
    → is_in_list (parse_list env.directory [] a) p ≡ false
unfolding get_lines
parse_list-nil env a p = is_in_list-parse_list env.directory [] a p

-- Nobody is a guest or a subowner.
abbrev pub IsBare : AccessHouseLevel → Type 0
IsBare l = (l ≡ owned) ⊎ (l ≡ not_invited)

access_level-IsBare :
    (env : Env) (h : House) (p : Visitor)
    → is_in_list h.sub_owner_list p ≡ false
    → is_in_list h.guest_list p ≡ false
    → IsBare (access_level env h p)
unfolding access_level
access_level-IsBare env h p no_owner no_guest =
    elim (Bool-cases (env.owned_by_account && h.owner_account_id == p.account)) [
      | inl account ↦ rw account (inl refl)
      | inr other ↦ elim (Bool-cases (p.can_edit_houses)) [
        | inl edits ↦ rw (other, edits) (inl refl)
        | inr no_edit ↦ elim (Bool-cases (p.guid == h.owner)) [
          | inl is_owner ↦ rw (other, no_edit, is_owner) (inl refl)
          | inr stranger ↦ rw (other, no_edit, stranger, no_owner, no_guest) (inr refl)
        ]
      ]
    ]

-- What is left to a player `p` of a house that was emptied.
pub record IsEmptied (env : Env) (h h' : House) (p : Visitor) : Type 0 where
  pub level : IsBare (access_level env h' p)
  pub doors : All (λ d. is_in_list (list_in d.access_list) p ≡ false) h'.doors
  pub visitors :
      h'.visitors ≡ staying (λ q. q.can_edit_houses || not (env.teleports q.guid)) h.visitors
  pub sleepers : All (λ s. s ≡ 0) h'.sleepers

map-bare_doors :
    (env : Env) (ds : List Door) (p : Visitor)
    → All (λ d. is_in_list (list_in d.access_list) p ≡ false) (map (set_door_access_list env []) ds)
unfolding set_door_access_list
map-bare_doors env [] p = tt
map-bare_doors env (d ∷ ds) p =
    (parse_list-nil env (list_in d.access_list) p, map-bare_doors env ds p)

map-no_sleeper : (xs : List ℕ) → All (λ (s : ℕ). s ≡ 0) (map (λ (s : ℕ). 0) xs)
map-no_sleeper [] = tt
map-no_sleeper (x ∷ xs) = (refl, map-no_sleeper xs)

-- Emptied, but for the level, which depends on the next owner.
record IsBareHouse (env : Env) (h h' : House) (p : Visitor) : Type 0 where
  no_sub_owner : is_in_list h'.sub_owner_list p ≡ false
  no_guest : is_in_list h'.guest_list p ≡ false
  doors : All (λ d. is_in_list (list_in d.access_list) p ≡ false) h'.doors
  visitors : h'.visitors ≡ staying (λ q. q.can_edit_houses || not (env.teleports q.guid)) h.visitors
  sleepers : All (λ s. s ≡ 0) h'.sleepers

kick_after :
    (env : Env) (h : House) (ps qs : List Visitor)
    → ps ≡ staying (λ q. q.can_edit_houses || not (env.teleports q.guid)) qs
    → kick_uninvited env h ps ≡ ps
kick_after env h ps qs e =
    kick_uninvited_lem env h ps
    ∙ ap (staying (λ p. is_invited env h p || not (env.teleports p.guid))) e
    ∙ staying-sub (λ p. is_invited env h p || not (env.teleports p.guid))
        (λ q. q.can_edit_houses || not (env.teleports q.guid)) qs
        (λ p stays. ground (arith, stays, can_edit-is_invited env h p))
    ∙ sym e

evict-IsBareHouse : (env : Env) (h : House) (p : Visitor) → IsBareHouse env h (evict env h) p
unfolding evict set_access_list
evict-IsBareHouse env h p =
    let bare = record h {
      visitors = kick_all env h h.visitors;
      sleepers = map (λ (s : ℕ). 0) h.sleepers;
      owner = 0;
      owner_account_id = 0;
    } in
    let bare' = record bare { sub_owner_list = parse_list env.directory [] h.sub_owner_list } in
    let bare'' = record (put_out env bare') {
      guest_list = parse_list env.directory [] h.guest_list;
    } in
    let out = kick_all_lem env h h.visitors in
    let out' = kick_after env bare' (kick_all env h h.visitors) h.visitors out ∙ out in
    let out'' =
      kick_after env bare'' (kick_uninvited env bare' (kick_all env h h.visitors)) h.visitors out'
      ∙ out' in
    record {
      no_sub_owner = parse_list-nil env h.sub_owner_list p;
      no_guest = parse_list-nil env h.guest_list p;
      doors = map-bare_doors env h.doors p;
      visitors = out'';
      sleepers = map-no_sleeper h.sleepers;
    }

-- Only the owner is set.
name_owner-IsEmptied :
    (env : Env) (h h' : House) (guid : ℕ) (name : List ℕ) (p : Visitor)
    → IsBareHouse env h h' p
    → IsEmptied env h (name_owner env guid name h') p
name_owner-IsEmptied env h h' guid [] p b = record {
  level = access_level-IsBare env h' p b.no_sub_owner b.no_guest;
  doors = b.doors;
  visitors = b.visitors;
  sleepers = b.sleepers;
}
name_owner-IsEmptied env h h' guid (c ∷ cs) p b = record {
  level = access_level-IsBare env (name_owner env guid (c ∷ cs) h') p b.no_sub_owner b.no_guest;
  doors = b.doors;
  visitors = b.visitors;
  sleepers = b.sleepers;
}

-- A house that had an owner and gets another one, or none, or is loaded: everyone in it is put
-- out, but for those who may edit houses or whose teleport fails; the beds are empty; and what the
-- old owner wrote into the lists is void, so nobody is a guest or a subowner and no door has
-- anyone on its list.
pub set_owner-IsEmptied :
    (env : Env) (guid : ℕ) (h : House) (p : Visitor)
    → 0 < h.owner
    → (h.is_loaded && h.owner == guid) ≡ false
    → IsEmptied env h (set_owner env guid h) p
unfolding set_owner
set_owner-IsEmptied env guid h p had other =
    let old = record h { is_loaded = true } in
    let owned_before : (h.owner == 0) ≡ false = ground (arith, had) in
    let e : set_owner env guid h ≡ (
        if guid == 0
        then record (evict env old) { rent_warnings = 0 }
        else name_owner env guid (env.name_by_guid guid)
            (record (evict env old) { rent_warnings = 0 })) =
      rw (other, owned_before) refl in
    let b = evict-IsBareHouse env old p in
    let b' : IsBareHouse env h (record (evict env old) { rent_warnings = 0 }) p = record {
      no_sub_owner = b.no_sub_owner;
      no_guest = b.no_guest;
      doors = b.doors;
      visitors = b.visitors;
      sleepers = b.sleepers;
    } in
    subst (λ h'. IsEmptied env h h' p) (sym e)
      (elim (Bool-cases (guid == 0)) [
        | inl nobody ↦
            rw nobody (
              name_owner-IsEmptied env h (record (evict env old) { rent_warnings = 0 }) guid [] p
                b')
        | inr somebody ↦ rw somebody (
            name_owner-IsEmptied env h (record (evict env old) { rent_warnings = 0 }) guid
              (env.name_by_guid guid) p b')
      ])
